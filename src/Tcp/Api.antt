-- ===== src/Tcp/Api.antt =====
-- tcp.c: the calls of the application. Every caller passes the one socket `g_sock`.
use os_from_scratch_graphic.Prelude.{
  ℕ, zero, suc, ◌+◌, ◌-◌, ◌%◌, ◌^◌, Bool, true, false, [], ◌∷◌, ltb, ◌==◌, if◌then◌else◌,
}
use os_from_scratch_graphic.Prelude.Int.{ℤ, pos, negsuc}
use os_from_scratch_graphic.Memory.{Memory, memmove}
use os_from_scratch_graphic.Endian.{Bytes}
use os_from_scratch_graphic.Net.Arp.{net_get_ip}
use os_from_scratch_graphic.Tcp.State.{
  TcpState, Socket, Host, zero_socket, closed, syn_sent, established, fin_wait1,
}
use os_from_scratch_graphic.Tcp.Segment.{tcp_send_segment}

-- Bits of the flags byte.
abbrev pub flag_fin : ℕ
flag_fin = 0x01

abbrev pub flag_syn : ℕ
flag_syn = 0x02

abbrev pub flag_rst : ℕ
flag_rst = 0x04

abbrev pub flag_ack : ℕ
flag_ack = 0x10

abbrev pub flags_fin_ack : ℕ
flags_fin_ack = 0x11

abbrev pub flags_syn_ack : ℕ
flags_syn_ack = 0x12

abbrev pub flags_psh_ack : ℕ
flags_psh_ack = 0x18

-- `sizeof(rb)`
abbrev pub rx_size : ℕ
rx_size = 8192

abbrev pub is_established : TcpState → Bool
is_established established = true
is_established _ = false

-- `s->snd_nxt += k` and `s->rcv_nxt += k` on a uint32_t.
abbrev pub advance_snd : Host → ℕ → Host
advance_snd h k = record h { sock = record (h.sock) { snd_nxt = (h.sock.snd_nxt + k) % 2 ^ 32 } }

abbrev pub advance_rcv : Host → ℕ → Host
advance_rcv h k = record h { sock = record (h.sock) { rcv_nxt = (h.sock.rcv_nxt + k) % 2 ^ 32 } }

abbrev pub set_state : Host → TcpState → Host
set_state h st = record h { sock = record (h.sock) { state = st } }

unfoldable pub tcp_init : Host → Host
tcp_init h = record h { sock = zero_socket }

-- `pick_ephemeral`: the port that `p++` returns, and the counter after it.
unfoldable pub pick_ephemeral : Host → ℕ × Host
pick_ephemeral h = (h.next_port, record h { next_port = (h.next_port + 1) % 2 ^ 16 })

unfoldable pub iss : Host → ℕ × Host
iss h = let x = (h.next_iss + 0x1000) % 2 ^ 32 in (x, record h { next_iss = x })

unfoldable pub choose_port : Host → ℕ → ℕ × Host
choose_port h src_port = if src_port == 0 then pick_ephemeral h else (src_port, h)

-- The socket as it stands when the SYN is sent.
abbrev pub opened : Host → ℕ → ℕ → ℕ → ℕ → Socket
opened h dst_ip dst_port port seq = record zero_socket {
  in_use = true;
  state = syn_sent;
  remote_ip = dst_ip;
  remote_port = dst_port;
  local_ip = net_get_ip h.net;
  local_port = port;
  snd_iss = seq;
  snd_nxt = seq;
  rx_cap = rx_size;
}

unfoldable pub tcp_connect : Host → ℕ → ℕ → ℕ → ℤ × Host
tcp_connect h dst_ip dst_port src_port =
    let (port, h1) = choose_port h src_port in
    let (seq, h2) = iss h1 in
    let h3 = record h2 { sock = opened h2 dst_ip dst_port port seq } in
    if h.sock.in_use
    then (negsuc 0, h)
    else (pos 0, advance_snd (tcp_send_segment h3 flag_syn [] 0) 1)

-- A negative length is a length of 0 here: both return 0.
unfoldable pub tcp_send : Host → Bytes → ℕ → ℤ × Host
tcp_send h payload len =
    if is_established h.sock.state
    then (if len == 0
        then (pos 0, h)
        else (pos len, advance_snd (tcp_send_segment h flags_psh_ack payload len) len))
    else (negsuc 0, h)

-- The bytes of a run of memory, as a copy to another buffer receives them.
abbrev pub bytes_from : Memory → ℕ → ℕ → Bytes
bytes_from m p zero = []
bytes_from m p (suc n) = m p ∷ bytes_from m (p + 1) n

-- The bytes that go out through `out`, whose number is returned, and the host afterwards.
unfoldable pub tcp_recv : Host → ℕ → Bytes × Host
tcp_recv h maxlen =
    let len = h.sock.rx_len in
    let n = if ltb len maxlen then len else maxlen in
    if len == 0 then ([], h) else (
      bytes_from h.rb 0 n,
      record h { rb = memmove h.rb 0 n (len - n); sock = record (h.sock) { rx_len = len - n } },
    )

unfoldable pub tcp_close : Host → Host
tcp_close h =
    if h.sock.in_use
    then (if is_established h.sock.state
        then set_state (advance_snd (tcp_send_segment h flags_fin_ack [] 0) 1) fin_wait1
        else record h { sock = record (h.sock) { in_use = false; state = closed } })
    else h
