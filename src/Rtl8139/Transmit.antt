-- ===== src/Rtl8139/Transmit.antt =====
-- rtl8139.c: the four transmit buffers.
use os_from_scratch_graphic.Prelude.{
  ℕ, ◌+◌, ◌-◌, ◌%◌, ◌^◌, ◌≡◌, ◌≢◌, ◌≤◌, ◌<◌, ◌⊎◌, inl, inr, refl, ap, ◌∙◌, true, List, [], ◌∷◌,
  arith, length, get_or,
}
use os_from_scratch_graphic.Memory.{Memory}
use os_from_scratch_graphic.Tcp.Api.{bytes_from}
use os_from_scratch_graphic.Tcp.Rx.{write_bytes}
use os_from_scratch_graphic.Tcp.Buffer.{
  length-bytes_from, outside_run, bytes_from-write_bytes, bytes_from-cong,
}
use os_from_scratch_graphic.Rtl8139.Driver.{
  Driver, outl, tx_slots, tx_buf_size, tx_length, tsad_reg, tsd_reg, nic_tx,
}

-- The buffer of a slot.
abbrev pub buffer : Driver → ℕ → ℕ
buffer d slot = get_or d.tx_bufs slot 0

-- The address lies in the buffer of the slot.
abbrev pub InBuffer : Driver → ℕ → ℕ → Type 0
InBuffer d slot q = (buffer d slot ≤ q) × (q < buffer d slot + tx_buf_size)

-- A driver that is set up: the next slot is one of the four, and the buffers do not overlap.
pub record IsReady (d : Driver) : Type 0 where
  pub ready : d.initialized ≡ true
  pub slot : d.tx_idx < tx_slots
  pub apart :
      (i j : ℕ)
      → i < tx_slots
      → j < tx_slots
      → i ≢ j
      → (buffer d i + tx_buf_size ≤ buffer d j) ⊎ (buffer d j + tx_buf_size ≤ buffer d i)

nic_tx-IsReady : (d : Driver) (m : Memory) (p len : ℕ) → IsReady d → IsReady (nic_tx d m p len)
unfolding nic_tx
nic_tx-IsReady d m p len r =
    rw r.ready (record { ready = refl; slot = omega arith; apart = r.apart })

tx_idx-nic_tx :
    (d : Driver) (m : Memory) (p len : ℕ)
    → IsReady d
    → (nic_tx d m p len).tx_idx ≡ (d.tx_idx + 1) % 4
unfolding nic_tx
tx_idx-nic_tx d m p len r = rw (r.ready, nic_tx) refl

tx_bufs-nic_tx : (d : Driver) (m : Memory) (p len : ℕ) → (nic_tx d m p len).tx_bufs ≡ d.tx_bufs
unfolding nic_tx
tx_bufs-nic_tx d m p len = ground arith

mem-nic_tx :
    (d : Driver) (m : Memory) (p len : ℕ)
    → IsReady d
    → (nic_tx d m p len).mem
      ≡ write_bytes d.mem (buffer d d.tx_idx) (bytes_from m p (tx_length len))
unfolding nic_tx
mem-nic_tx d m p len r = rw (r.ready, nic_tx) refl

tx_length-le : (len : ℕ) → tx_length len ≤ tx_buf_size
tx_length-le len = ground arith

-- A frame goes to the buffer of its slot only.
nic_tx-outside :
    (d : Driver) (m : Memory) (p len s q : ℕ)
    → IsReady d
    → s < tx_slots
    → s ≢ d.tx_idx
    → InBuffer d s q
    → (nic_tx d m p len).mem q ≡ d.mem q
nic_tx-outside d m p len s q r hs ne inside =
    ap (λ g. g q) (mem-nic_tx d m p len r)
    ∙ outside_run (bytes_from m p (tx_length len)) d.mem (buffer d d.tx_idx) q
        (aside (r.apart s d.tx_idx hs r.slot ne))
  where
    aside :
        (buffer d s + tx_buf_size ≤ buffer d d.tx_idx)
          ⊎ (buffer d d.tx_idx + tx_buf_size ≤ buffer d s)
        → (q < buffer d d.tx_idx)
          ⊎ (buffer d d.tx_idx + length (bytes_from m p (tx_length len)) ≤ q)
    aside (inl below) = inl (omega arith)
    aside (inr above) = inr (omega (arith, length-bytes_from m p (tx_length len), tx_length-le len))

-- A frame that a caller sends: its memory, where the frame lies there, and its length.
pub record Frame : Type 0 where
  pub mem : Memory
  pub addr : ℕ
  pub len : ℕ

abbrev pub send : Driver → Frame → Driver
send d f = nic_tx d f.mem f.addr f.len

abbrev pub send_all : Driver → List Frame → Driver
send_all d [] = d
send_all d (f ∷ fs) = send_all (send d f) fs

send_all-outside :
    (fs : List Frame) (d : Driver) (s q : ℕ)
    → IsReady d
    → s < tx_slots
    → length fs ≤ (s + 4 - d.tx_idx) % 4
    → InBuffer d s q
    → (send_all d fs).mem q ≡ d.mem q
send_all-outside [] d s q r hs room inside = refl
send_all-outside (f ∷ fs) d s q r hs room inside =
    send_all-outside fs (send d f) s q (nic_tx-IsReady d f.mem f.addr f.len r) hs
      (rw (tx_idx-nic_tx d f.mem f.addr f.len r) (omega (arith, r.slot)))
      (rw (tx_bufs-nic_tx d f.mem f.addr f.len) inside)
    ∙ nic_tx-outside d f.mem f.addr f.len s q r hs (omega (arith, r.slot)) inside

-- The card is told to send the slot's buffer.
pub nic_tx-kicks :
    (d : Driver) (m : Memory) (p len : ℕ)
    → IsReady d
    → (nic_tx d m p len).writes
      ≡ outl ((d.io_base + tsd_reg d.tx_idx) % 2 ^ 16) (tx_length len)
        ∷ (outl ((d.io_base + tsad_reg d.tx_idx) % 2 ^ 16) (buffer d d.tx_idx) ∷ d.writes)
unfolding nic_tx
nic_tx-kicks d m p len r = rw (r.ready, whole, nic_tx) refl
  where
    whole : tx_length len % 2 ^ 13 ≡ tx_length len
    whole = ground arith

-- A frame that is sent is copied, cut to 1792 bytes, into the buffer of which the card is told the address and
-- the length; one of less than 60 bytes is copied and sent with the bytes that lie behind it in its memory, up to 60.
-- The buffer still holds these bytes after up to three further frames, whatever they are.
pub nic_tx-stays :
    (d : Driver) (f : Frame) (fs : List Frame)
    → IsReady d
    → length fs ≤ 3
    → let d1 = send d f in
      let n = tx_length f.len in
      (d1.writes
        ≡ outl ((d.io_base + tsd_reg d.tx_idx) % 2 ^ 16) n
          ∷ (outl ((d.io_base + tsad_reg d.tx_idx) % 2 ^ 16) (buffer d d.tx_idx) ∷ d.writes))
      × (bytes_from (send_all d1 fs).mem (buffer d d.tx_idx) n ≡ bytes_from f.mem f.addr n)
nic_tx-stays d f fs r few = (nic_tx-kicks d f.mem f.addr f.len r, kept ∙ written)
  where
    d1 : Driver
    d1 = send d f

    n : ℕ
    n = tx_length f.len

    slot_left : length fs ≤ (d.tx_idx + 4 - d1.tx_idx) % 4
    slot_left = rw (tx_idx-nic_tx d f.mem f.addr f.len r) (omega (arith, r.slot))

    same :
        (i : ℕ)
        → i < n
        → (send_all d1 fs).mem (buffer d d.tx_idx + i) ≡ d1.mem (buffer d d.tx_idx + i)
    same i l =
        send_all-outside fs d1 d.tx_idx (buffer d d.tx_idx + i)
          (nic_tx-IsReady d f.mem f.addr f.len r) r.slot slot_left
          (rw (tx_bufs-nic_tx d f.mem f.addr f.len) (omega (arith, tx_length-le f.len)))

    kept :
        bytes_from (send_all d1 fs).mem (buffer d d.tx_idx) n
        ≡ bytes_from d1.mem (buffer d d.tx_idx) n
    kept =
        bytes_from-cong (send_all d1 fs).mem d1.mem n (buffer d d.tx_idx) (buffer d d.tx_idx) same

    written : bytes_from d1.mem (buffer d d.tx_idx) n ≡ bytes_from f.mem f.addr n
    written = rw (mem-nic_tx d f.mem f.addr f.len r) (
        ap
          (λ k.
            bytes_from (write_bytes d.mem (buffer d d.tx_idx) (bytes_from f.mem f.addr n))
              (buffer d d.tx_idx) k)
          {x = n} {y = length (bytes_from f.mem f.addr n)}
          (omega (arith, length-bytes_from f.mem f.addr n))
        ∙ bytes_from-write_bytes (bytes_from f.mem f.addr n) d.mem (buffer d d.tx_idx))
