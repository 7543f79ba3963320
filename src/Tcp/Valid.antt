-- ===== src/Tcp/Valid.antt =====
-- tcp.c: what holds of the socket in every state that the kernel can reach.
use os_from_scratch_graphic.Prelude.{ℕ, ◌-◌, ◌≡◌, ◌≤◌, refl, Bool, true, false, not, arith, drop}
use os_from_scratch_graphic.Endian.{Bytes, ntohl, load32, load_bytes}
use os_from_scratch_graphic.Endian.Layout.{length-load_bytes}
use os_from_scratch_graphic.Net.State.{Net}
use os_from_scratch_graphic.Tcp.State.{
  TcpState, closed, syn_sent, established, fin_wait1, fin_wait2, time_wait, Host, boot,
}
use os_from_scratch_graphic.Tcp.Segment.{tcp_send_segment}
use os_from_scratch_graphic.Tcp.Api.{
  rx_size, tcp_init, choose_port, pick_ephemeral, iss, tcp_connect, tcp_send, tcp_recv, tcp_close,
}
use os_from_scratch_graphic.Tcp.Rx.{
  header_len, flags_of, take_data, take_fin, rx_data_into_buf, on_state, tcp_on_rx,
}
use os_from_scratch_graphic.Tcp.Buffer.{write_bytes_lem}

abbrev pub is_closed : TcpState → Bool
is_closed closed = true
is_closed _ = false

pub record IsValid (h : Host) : Type 0 where
  -- The unread bytes fit the capacity, and the capacity fits the buffer.
  pub fits : h.sock.rx_len ≤ h.sock.rx_cap
  pub buffer : h.sock.rx_cap ≤ rx_size
  -- The socket is in use exactly when it is not closed.
  pub live : h.sock.in_use ≡ not (is_closed h.sock.state)

boot-IsValid : IsValid boot
boot-IsValid = record { fits = omega arith; buffer = omega arith; live = refl }

tcp_init-IsValid : (h : Host) → IsValid (tcp_init h)
unfolding tcp_init
tcp_init-IsValid h = record { fits = omega arith; buffer = omega arith; live = refl }

tcp_connect-IsValid :
    (h : Host) (dst_ip dst_port src_port : ℕ)
    → IsValid h
    → IsValid (tcp_connect h dst_ip dst_port src_port).1
unfolding tcp_connect tcp_send_segment iss choose_port pick_ephemeral
tcp_connect-IsValid h dst_ip dst_port src_port v = ground arith

tcp_send-IsValid : (h : Host) (p : Bytes) (len : ℕ) → IsValid h → IsValid (tcp_send h p len).1
unfolding tcp_send tcp_send_segment
tcp_send-IsValid h p len v = ground arith

tcp_recv-IsValid : (h : Host) (maxlen : ℕ) → IsValid h → IsValid (tcp_recv h maxlen).1
unfolding tcp_recv
tcp_recv-IsValid h maxlen v = ground arith

tcp_close-IsValid : (h : Host) → IsValid h → IsValid (tcp_close h)
unfolding tcp_close tcp_send_segment
tcp_close-IsValid h v = ground arith

take_data-IsValid :
    (h : Host) (seq : ℕ) (pl : Bytes) (plen : ℕ) → IsValid h → IsValid (take_data h seq pl plen)
unfolding take_data rx_data_into_buf tcp_send_segment
take_data-IsValid h seq pl plen v = ground arith

in_use-take_data :
    (h : Host) (seq : ℕ) (pl : Bytes) (plen : ℕ)
    → (take_data h seq pl plen).sock.in_use ≡ h.sock.in_use
unfolding take_data rx_data_into_buf tcp_send_segment
in_use-take_data h seq pl plen = ground arith

on_state-IsValid :
    (st : TcpState) (h : Host) (flags seq : ℕ) (pl : Bytes) (plen : ℕ)
    → h.sock.in_use ≡ true
    → IsValid h
    → IsValid (on_state st h flags seq pl plen)
unfolding on_state take_fin tcp_send_segment
on_state-IsValid closed h flags seq pl plen u v = v
on_state-IsValid syn_sent h flags seq pl plen u v = ground arith
on_state-IsValid established h flags seq pl plen u v =
    ground (arith, in_use-take_data h seq pl plen, take_data-IsValid h seq pl plen v)
on_state-IsValid fin_wait1 h flags seq pl plen u v = ground arith
on_state-IsValid fin_wait2 h flags seq pl plen u v = ground arith
on_state-IsValid time_wait h flags seq pl plen u v = v

tcp_on_rx-IsValid :
    (h : Host) (seg : Bytes) (ip_len src_ip : ℕ)
    → IsValid h
    → IsValid (tcp_on_rx h seg ip_len src_ip)
unfolding tcp_on_rx
tcp_on_rx-IsValid h seg ip_len src_ip v = ground (
  arith,
  on_state-IsValid h.sock.state h (flags_of seg) (ntohl (load32 seg 4)) (drop (header_len seg) seg)
      (ip_len - header_len seg),
)

-- What the kernel does with the TCP layer: its calls, a segment from the IP layer, and any change
-- that the layers below make to their own state.
pub data Step : Host → Host → Type 0 where
  init : (h : Host) → Step h (tcp_init h)
  connect :
      (h : Host) (dst_ip dst_port src_port : ℕ) → Step h (tcp_connect h dst_ip dst_port src_port).1
  send : (h : Host) (payload : Bytes) (len : ℕ) → Step h (tcp_send h payload len).1
  recv : (h : Host) (maxlen : ℕ) → Step h (tcp_recv h maxlen).1
  close : (h : Host) → Step h (tcp_close h)
  segment : (h : Host) (seg : Bytes) (ip_len src_ip : ℕ) → Step h (tcp_on_rx h seg ip_len src_ip)
  below : (h : Host) (n : Net) → Step h (record h { net = n })

pub data Reach : Host → Host → Type 0 where
  here : (h : Host) → Reach h h
  next : {g h k : Host} → Reach g h → Step h k → Reach g k

Step-IsValid : {h k : Host} → Step h k → IsValid h → IsValid k
Step-IsValid (init h) v = tcp_init-IsValid h
Step-IsValid (connect h d p s) v = tcp_connect-IsValid h d p s v
Step-IsValid (send h p n) v = tcp_send-IsValid h p n v
Step-IsValid (recv h n) v = tcp_recv-IsValid h n v
Step-IsValid (close h) v = tcp_close-IsValid h v
Step-IsValid (segment h s n i) v = tcp_on_rx-IsValid h s n i v
Step-IsValid (below h n) v = record { fits = v.fits; buffer = v.buffer; live = v.live }

-- Whatever calls and segments come, in any order, from a valid socket the unread bytes never pass
-- the capacity, the capacity never passes the 8192 bytes of the buffer, and the socket is in use
-- exactly when it is not closed.
pub Reach-IsValid : {g h : Host} → Reach g h → IsValid g → IsValid h
Reach-IsValid (here h) v = v
Reach-IsValid (next r s) v = Step-IsValid s (Reach-IsValid r v)

take_data-outside :
    (h : Host) (seq : ℕ) (pl : Bytes) (plen q : ℕ)
    → IsValid h
    → rx_size ≤ q
    → (take_data h seq pl plen).rb q ≡ h.rb q
unfolding take_data rx_data_into_buf tcp_send_segment
take_data-outside h seq pl plen q v out = ground (
  arith,
  write_bytes_lem (load_bytes plen pl) h.rb h.sock.rx_len q,
  write_bytes_lem (load_bytes (h.sock.rx_cap - h.sock.rx_len) pl) h.rb h.sock.rx_len q,
  length-load_bytes plen pl,
  length-load_bytes (h.sock.rx_cap - h.sock.rx_len) pl,
)

on_state-outside :
    (st : TcpState) (h : Host) (flags seq : ℕ) (pl : Bytes) (plen q : ℕ)
    → IsValid h
    → rx_size ≤ q
    → (on_state st h flags seq pl plen).rb q ≡ h.rb q
unfolding on_state take_fin tcp_send_segment
on_state-outside closed h flags seq pl plen q v out = refl
on_state-outside syn_sent h flags seq pl plen q v out = ground arith
on_state-outside established h flags seq pl plen q v out =
    ground (arith, take_data-outside h seq pl plen q v out)
on_state-outside fin_wait1 h flags seq pl plen q v out = ground arith
on_state-outside fin_wait2 h flags seq pl plen q v out = ground arith
on_state-outside time_wait h flags seq pl plen q v out = refl

-- A received segment, whatever its bytes and lengths, writes no address behind the receive buffer.
pub tcp_on_rx-outside :
    (h : Host) (seg : Bytes) (ip_len src_ip q : ℕ)
    → IsValid h
    → rx_size ≤ q
    → (tcp_on_rx h seg ip_len src_ip).rb q ≡ h.rb q
unfolding tcp_on_rx
tcp_on_rx-outside h seg ip_len src_ip q v out = ground (
  arith,
  on_state-outside h.sock.state h (flags_of seg) (ntohl (load32 seg 4)) (drop (header_len seg) seg)
      (ip_len - header_len seg) q v out,
)
