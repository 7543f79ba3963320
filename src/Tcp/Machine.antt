-- ===== src/Tcp/Machine.antt =====
-- tcp.c: the connection states, and which of them each operation can lead to.
use os_from_scratch_graphic.Prelude.{
  ℕ, ◌-◌, ◌≡◌, refl, Bool, false, ◌&&◌, arith, leb, drop, ◌==◌, bit_and, if◌then◌else◌,
}
use os_from_scratch_graphic.Endian.{Bytes, ntohl, load32}
use os_from_scratch_graphic.Tcp.State.{
  TcpState, closed, syn_sent, established, fin_wait1, fin_wait2, time_wait, Host,
}
use os_from_scratch_graphic.Tcp.Segment.{tcp_send_segment}
use os_from_scratch_graphic.Tcp.Api.{flag_fin, flag_ack, flag_rst, flags_syn_ack}
use os_from_scratch_graphic.Tcp.Rx.{
  ports_match, has, flags_of, header_len, take_data, take_fin, rx_data_into_buf, on_state,
  tcp_on_rx,
}

-- The segment belongs to the connection and is whole: the socket is in use, the sender and both
-- ports are the peer's, and the header lies in the segment.
abbrev pub accepts : Host → Bytes → ℕ → ℕ → Bool
accepts h seg ip_len src_ip =
    h.sock.in_use
    && (src_ip == h.sock.remote_ip)
    && leb 20 ip_len
    && ports_match h.sock seg
    && leb (header_len seg) ip_len

-- The state machine: where the flags of an accepted segment lead.
abbrev pub next_state : TcpState → ℕ → TcpState
next_state syn_sent flags =
    if bit_and flags flags_syn_ack == flags_syn_ack then established else syn_sent
next_state established flags = if has flags flag_fin then fin_wait1 else established
next_state fin_wait1 flags = if has flags flag_ack then fin_wait2 else fin_wait1
next_state fin_wait2 flags = if has flags flag_fin then time_wait else fin_wait2
next_state st flags = st

-- A segment that is not accepted changes nothing and sends nothing.
pub tcp_on_rx-ignored :
    (h : Host) (seg : Bytes) (ip_len src_ip : ℕ)
    → accepts h seg ip_len src_ip ≡ false
    → tcp_on_rx h seg ip_len src_ip ≡ h
unfolding tcp_on_rx
tcp_on_rx-ignored h seg ip_len src_ip no_match = ground arith

pub state-take_data :
    (h : Host) (seq : ℕ) (pl : Bytes) (plen : ℕ)
    → (take_data h seq pl plen).sock.state ≡ h.sock.state
unfolding take_data rx_data_into_buf tcp_send_segment
state-take_data h seq pl plen = ground arith

state-on_state :
    (h : Host) (flags seq : ℕ) (pl : Bytes) (plen : ℕ) (st : TcpState)
    → h.sock.state ≡ st
    → (on_state st h flags seq pl plen).sock.state ≡ next_state st flags
unfolding on_state take_fin tcp_send_segment
state-on_state h flags seq pl plen closed e = e
state-on_state h flags seq pl plen syn_sent e = ground arith
state-on_state h flags seq pl plen established e = ground (arith, state-take_data h seq pl plen)
state-on_state h flags seq pl plen fin_wait1 e = ground arith
state-on_state h flags seq pl plen fin_wait2 e = ground arith
state-on_state h flags seq pl plen time_wait e = e

-- The handler follows the state machine: an accepted RST closes, any other accepted segment moves as
-- its flags say, and a segment that is not accepted leaves the state.
pub state-tcp_on_rx :
    (h : Host) (seg : Bytes) (ip_len src_ip : ℕ)
    → (tcp_on_rx h seg ip_len src_ip).sock.state ≡ (
        if accepts h seg ip_len src_ip
        then (if has (flags_of seg) flag_rst
            then closed
            else next_state h.sock.state (flags_of seg))
        else h.sock.state)
unfolding tcp_on_rx
state-tcp_on_rx h seg ip_len src_ip = ground (
  arith,
  state-on_state h (flags_of seg) (ntohl (load32 seg 4)) (drop (header_len seg) seg)
      (ip_len - header_len seg) h.sock.state refl,
)
