-- ===== src/Tcp/Stream.antt =====
-- tcp.c: the byte stream of an established connection.
use os_from_scratch_graphic.Prelude.{
  ℕ, ◌+◌, ◌-◌, ◌%◌, ◌^◌, ◌≡◌, ◌≢◌, true, ◌≤◌, ◌<◌, refl, not, ◌&&◌, [], ◌++◌, arith, length, min,
  ◌==◌, if◌then◌else◌,
}
use os_from_scratch_graphic.Endian.{Bytes, load_bytes}
use os_from_scratch_graphic.Tcp.State.{Host}
use os_from_scratch_graphic.Tcp.Segment.{tcp_send_segment, tcp_segment}
use os_from_scratch_graphic.Tcp.Api.{flag_ack}
use os_from_scratch_graphic.Net.Send.{net_send_ip}
use os_from_scratch_graphic.Tcp.Rx.{take_data, rx_data_into_buf}
use os_from_scratch_graphic.Tcp.Buffer.{contents, contents-rx_data_into_buf, length-contents}

-- A data segment out of order, or with no data, is dropped without an answer. One in order moves the
-- next expected number by its whole length, whatever part of it the buffer had room for.
pub rcv_nxt-take_data :
    (h : Host) (seq : ℕ) (pl : Bytes) (plen : ℕ)
    → (take_data h seq pl plen).sock.rcv_nxt ≡ (
        if not (plen == 0) && (seq == h.sock.rcv_nxt)
        then (h.sock.rcv_nxt + plen) % 2 ^ 32
        else h.sock.rcv_nxt)
unfolding take_data rx_data_into_buf tcp_send_segment
rcv_nxt-take_data h seq pl plen = ground arith

pub contents-take_data :
    (h : Host) (seq : ℕ) (pl : Bytes) (plen : ℕ)
    → contents (take_data h seq pl plen) ≡ (
        if not (plen == 0) && (seq == h.sock.rcv_nxt)
        then contents h ++ load_bytes (min plen (h.sock.rx_cap - h.sock.rx_len)) pl
        else contents h)
unfolding take_data tcp_send_segment
contents-take_data h seq pl plen = ground (arith, contents-rx_data_into_buf h pl plen)

pub rx_cap-take_data :
    (h : Host) (seq : ℕ) (pl : Bytes) (plen : ℕ)
    → (take_data h seq pl plen).sock.rx_cap ≡ h.sock.rx_cap
unfolding take_data rx_data_into_buf tcp_send_segment
rx_cap-take_data h seq pl plen = ground arith

pub rx_len-take_data :
    (h : Host) (seq : ℕ) (pl : Bytes) (plen : ℕ)
    → (take_data h seq pl plen).sock.rx_len ≡ (
        if not (plen == 0) && (seq == h.sock.rcv_nxt)
        then h.sock.rx_len + min plen (h.sock.rx_cap - h.sock.rx_len)
        else h.sock.rx_len)
unfolding take_data rx_data_into_buf tcp_send_segment
rx_len-take_data h seq pl plen = ground arith

-- The answer to data in order.
net-take_data :
    (h : Host) (pl : Bytes) (plen : ℕ)
    → plen ≢ 0
    → let h' = take_data h h.sock.rcv_nxt pl plen in
      h'.net ≡ net_send_ip h.net h.sock.remote_ip 6 (tcp_segment h'.sock flag_ack [] 0) 20
unfolding take_data rx_data_into_buf tcp_send_segment tcp_segment
net-take_data h pl plen some_data = rw (both, take_data) refl
  where
    both : not (plen == 0) && (h.sock.rcv_nxt == h.sock.rcv_nxt) ≡ true
    both = ground arith

-- An in-order segment that is longer than the room left fills the buffer with its first bytes and loses its tail,
-- yet the next expected number moves past the lost bytes too, and the answer is a segment that acknowledges it.
pub take_data-overflow :
    (h : Host) (pl : Bytes) (plen : ℕ)
    → h.sock.rx_len ≤ h.sock.rx_cap
    → h.sock.rx_cap < h.sock.rx_len + plen
    → let h' = take_data h h.sock.rcv_nxt pl plen in
      (h'.sock.rcv_nxt ≡ (h.sock.rcv_nxt + plen) % 2 ^ 32)
      × (contents h' ≡ contents h ++ load_bytes (h.sock.rx_cap - h.sock.rx_len) pl)
      × (length (contents h') ≡ h.sock.rx_cap)
      × (h'.sock.rx_len < h.sock.rx_len + plen)
      × (h'.net ≡ net_send_ip h.net h.sock.remote_ip 6 (tcp_segment h'.sock flag_ack [] 0) 20)
take_data-overflow h pl plen fits over = ground (
  arith,
  rcv_nxt-take_data h h.sock.rcv_nxt pl plen,
  rx_len-take_data h h.sock.rcv_nxt pl plen,
  length-contents (take_data h h.sock.rcv_nxt pl plen),
  contents-take_data h h.sock.rcv_nxt pl plen,
  net-take_data h pl plen (omega arith),
)
