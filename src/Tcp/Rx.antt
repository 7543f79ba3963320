-- ===== src/Tcp/Rx.antt =====
-- tcp.c: the receive handler.
use os_from_scratch_graphic.Prelude.{
  ℕ, ◌+◌, ◌-◌, ◌*◌, ◌/◌, ◌%◌, ◌^◌, Bool, not, ◌&&◌, false, [], ◌∷◌, drop, ltb, ◌==◌, bit_and,
  if◌then◌else◌,
}
use os_from_scratch_graphic.Memory.{Memory, poke}
use os_from_scratch_graphic.Endian.{Bytes, byte, ntohs, ntohl, load16, load32, load_bytes}
use os_from_scratch_graphic.Tcp.State.{
  TcpState, Socket, Host, closed, syn_sent, established, fin_wait1, fin_wait2, time_wait,
}
use os_from_scratch_graphic.Tcp.Segment.{tcp_send_segment}
use os_from_scratch_graphic.Tcp.Api.{
  flag_fin, flag_rst, flag_ack, flags_fin_ack, flags_syn_ack, advance_snd, advance_rcv, set_state,
}

-- A copy from another buffer to the addresses from `p` on.
abbrev pub write_bytes : Memory → ℕ → Bytes → Memory
write_bytes m p [] = m
write_bytes m p (b ∷ bs) = write_bytes (poke m p b) (p + 1) bs

-- `rx_data_into_buf`: what does not fit is dropped.
unfoldable pub rx_data_into_buf : Host → Bytes → ℕ → Host
rx_data_into_buf h pl len =
    let can = h.sock.rx_cap - h.sock.rx_len in
    let n = if ltb can len then can else len in
    record h {
      rb = write_bytes h.rb h.sock.rx_len (load_bytes n pl);
      sock = record (h.sock) { rx_len = h.sock.rx_len + n };
    }

abbrev pub has : ℕ → ℕ → Bool
has flags bit = not (bit_and flags bit == 0)

-- The case TCP_ESTABLISHED: the data, then the FIN.
unfoldable pub take_data : Host → ℕ → Bytes → ℕ → Host
take_data h seq pl plen =
    if not (plen == 0) && (seq == h.sock.rcv_nxt)
    then tcp_send_segment (advance_rcv (rx_data_into_buf h pl plen) plen) flag_ack [] 0
    else h

unfoldable pub take_fin : Host → ℕ → Host
take_fin h flags =
    let h1 = tcp_send_segment (advance_rcv h 1) flag_ack [] 0 in
    let h2 = tcp_send_segment h1 flags_fin_ack [] 0 in
    if has flags flag_fin then set_state (advance_snd h2 1) fin_wait1 else h

-- The `switch` over the state, for a segment that belongs to the connection and is no RST.
unfoldable pub on_state : TcpState → Host → ℕ → ℕ → Bytes → ℕ → Host
on_state syn_sent h flags seq pl plen =
    if bit_and flags flags_syn_ack == flags_syn_ack
    then set_state
        (tcp_send_segment (record h { sock = record (h.sock) { rcv_nxt = (seq + 1) % 2 ^ 32 } })
          flag_ack [] 0)
        established
    else h
on_state established h flags seq pl plen = take_fin (take_data h seq pl plen) flags
on_state fin_wait1 h flags seq pl plen = if has flags flag_ack then set_state h fin_wait2 else h
on_state fin_wait2 h flags seq pl plen =
    if has flags flag_fin
    then set_state (tcp_send_segment (advance_rcv h 1) flag_ack [] 0) time_wait
    else h
on_state _ h flags seq pl plen = h

-- Both ports of the segment are those of the connection, in the other order.
abbrev pub ports_match : Socket → Bytes → Bool
ports_match s seg =
    (ntohs (load16 seg 2) == s.local_port) && (ntohs (load16 seg 0) == s.remote_port)

-- `(th->off_res>>4)*4`
abbrev pub header_len : Bytes → ℕ
header_len seg = byte seg 12 / 16 * 4

abbrev pub flags_of : Bytes → ℕ
flags_of seg = byte seg 13

-- `tcp_on_rx`: the memory from the TCP header on, the length that IP gives, and the sender.
unfoldable pub tcp_on_rx : Host → Bytes → ℕ → ℕ → Host
tcp_on_rx h seg ip_len src_ip =
    if not h.sock.in_use
    then h
    else if not (src_ip == h.sock.remote_ip)
    then h
    else if ltb ip_len 20
    then h
    else if not (ports_match h.sock seg)
    then h
    else if ltb ip_len (header_len seg)
    then h
    else if has (flags_of seg) flag_rst
    then record h { sock = record (h.sock) { state = closed; in_use = false } }
    else on_state h.sock.state h (flags_of seg) (ntohl (load32 seg 4)) (drop (header_len seg) seg)
        (ip_len - header_len seg)
