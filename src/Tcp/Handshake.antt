-- ===== src/Tcp/Handshake.antt =====
-- tcp.c: opening and closing a connection, call by call.
use os_from_scratch_graphic.Prelude.{
  ℕ, ◌+◌, ◌-◌, ◌%◌, ◌^◌, ◌≡◌, ap, ◌∙◌, true, false, [], arith, drop, bit_and,
}
use os_from_scratch_graphic.Prelude.Int.{pos}
use os_from_scratch_graphic.Endian.{Bytes, ntohl, load32}
use os_from_scratch_graphic.Net.Send.{net_send_ip}
use os_from_scratch_graphic.Tcp.State.{Host, syn_sent, established}
use os_from_scratch_graphic.Tcp.Segment.{tcp_send_segment, tcp_segment}
use os_from_scratch_graphic.Tcp.Api.{
  flag_rst, flag_ack, flags_syn_ack, choose_port, pick_ephemeral, iss, tcp_connect,
}
use os_from_scratch_graphic.Tcp.Rx.{has, flags_of, header_len, on_state, tcp_on_rx}
use os_from_scratch_graphic.Tcp.Machine.{accepts}

-- The socket that waits for the peer's SYN+ACK.
record IsOpening (h : Host) (dst_ip : ℕ) : Type 0 where
  state : h.sock.state ≡ syn_sent
  peer : h.sock.remote_ip ≡ dst_ip
  after_syn : h.sock.snd_nxt ≡ (h.sock.snd_iss + 1) % 2 ^ 32

connect-IsOpening :
    (h : Host) (dst_ip dst_port src_port : ℕ)
    → h.sock.in_use ≡ false
    → ((tcp_connect h dst_ip dst_port src_port).0 ≡ pos 0)
      × IsOpening (tcp_connect h dst_ip dst_port src_port).1 dst_ip
unfolding tcp_connect tcp_send_segment choose_port pick_ephemeral iss
connect-IsOpening h dst_ip dst_port src_port idle = ground arith

-- What the peer's SYN+ACK makes of it.
record IsOpened (h g : Host) (dst_ip seq : ℕ) : Type 0 where
  state : g.sock.state ≡ established
  expects : g.sock.rcv_nxt ≡ (seq + 1) % 2 ^ 32
  after_syn : g.sock.snd_nxt ≡ (g.sock.snd_iss + 1) % 2 ^ 32
  answer : g.net ≡ net_send_ip h.net dst_ip 6 (tcp_segment g.sock flag_ack [] 0) 20

answer-IsOpened :
    (h : Host) (dst_ip flags seq : ℕ) (pl : Bytes) (plen : ℕ)
    → IsOpening h dst_ip
    → bit_and flags flags_syn_ack ≡ flags_syn_ack
    → IsOpened h (on_state syn_sent h flags seq pl plen) dst_ip seq
unfolding on_state tcp_send_segment tcp_segment
answer-IsOpened h dst_ip flags seq pl plen o e = record {
  state = ground arith;
  expects = ground arith;
  after_syn = ground arith;
  answer = ground arith;
}

tcp_on_rx-on_state :
    (h : Host) (seg : Bytes) (ip_len src_ip : ℕ)
    → accepts h seg ip_len src_ip ≡ true
    → has (flags_of seg) flag_rst ≡ false
    → tcp_on_rx h seg ip_len src_ip
      ≡ on_state h.sock.state h
          (flags_of seg)
          (ntohl (load32 seg 4))
          (drop (header_len seg) seg)
          (ip_len - header_len seg)
unfolding tcp_on_rx
tcp_on_rx-on_state h seg ip_len src_ip acc rst = ground arith

-- tcp_connect on a socket that is not in use succeeds and waits for the peer's SYN+ACK; the first
-- accepted segment with both flags, and no RST, establishes the connection, with the number after
-- the peer's expected next and the number after the own SYN sent next, and is acknowledged.
pub connect_establishes :
    (h : Host) (dst_ip dst_port src_port : ℕ) (seg : Bytes) (ip_len src_ip : ℕ)
    → h.sock.in_use ≡ false
    → let (ret, h1) = tcp_connect h dst_ip dst_port src_port in
      accepts h1 seg ip_len src_ip ≡ true
      → bit_and (flags_of seg) flags_syn_ack ≡ flags_syn_ack
      → has (flags_of seg) flag_rst ≡ false
      → let (ret, h1) = tcp_connect h dst_ip dst_port src_port in
        let h2 = tcp_on_rx h1 seg ip_len src_ip in
        (ret ≡ pos 0)
        × (h1.sock.state ≡ syn_sent)
        × (h2.sock.state ≡ established)
        × (h2.sock.rcv_nxt ≡ (ntohl (load32 seg 4) + 1) % 2 ^ 32)
        × (h2.sock.snd_nxt ≡ (h2.sock.snd_iss + 1) % 2 ^ 32)
        × (h2.net ≡ net_send_ip h1.net dst_ip 6 (tcp_segment h2.sock flag_ack [] 0) 20)
connect_establishes h dst_ip dst_port src_port seg ip_len src_ip idle acc flags rst = (
  opening.0,
  opening.1.state,
  rw handled opened.state,
  rw handled opened.expects,
  rw handled opened.after_syn,
  rw handled opened.answer,
)
  where
    h1 : Host
    h1 = (tcp_connect h dst_ip dst_port src_port).1

    opening : ((tcp_connect h dst_ip dst_port src_port).0 ≡ pos 0) × IsOpening h1 dst_ip
    opening = connect-IsOpening h dst_ip dst_port src_port idle

    answered : Host
    answered =
        on_state syn_sent h1 (flags_of seg) (ntohl (load32 seg 4)) (drop (header_len seg) seg)
          (ip_len - header_len seg)

    opened : IsOpened h1 answered dst_ip (ntohl (load32 seg 4))
    opened =
        answer-IsOpened h1 dst_ip (flags_of seg) (ntohl (load32 seg 4)) (drop (header_len seg) seg)
          (ip_len - header_len seg) opening.1 flags

    handled : tcp_on_rx h1 seg ip_len src_ip ≡ answered
    handled =
        tcp_on_rx-on_state h1 seg ip_len src_ip acc rst
        ∙ ap
            (λ st.
              on_state st h1 (flags_of seg) (ntohl (load32 seg 4)) (drop (header_len seg) seg)
                (ip_len - header_len seg))
            opening.1.state
