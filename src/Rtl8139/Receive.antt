-- ===== src/Rtl8139/Receive.antt =====
-- rtl8139.c: the receive ring.
use os_from_scratch_graphic.Prelude.{
  ℕ, ◌+◌, ◌-◌, ◌%◌, ◌^◌, ◌≡◌, ◌≢◌, ◌≤◌, ◌<◌, Bool, List, [], ◌∷◌, ◌++◌, ◌==◌, bit_and,
}
use os_from_scratch_graphic.Memory.{Memory}
use os_from_scratch_graphic.Net.Rx.{Datagram, net_rx}
use os_from_scratch_graphic.Dns.Query.{Stack}
use os_from_scratch_graphic.Rtl8139.Driver.{Driver, Write, outw, rl_outw, word, frame_at, next_off}

-- A packet in the ring: the address of its frame, its length with the checksum of four bytes behind
-- the frame, and the offset at which the card puts the next one.
pub record Packet : Type 0 where
  pub addr : ℕ
  pub plen : ℕ
  pub next : ℕ

-- The packets that lie in the ring from one offset on, to the offset at which the card has written
-- none. Each has a header of four bytes, and the next one begins at the first multiple of four behind it.
pub data Laid (m : Memory) (base : ℕ) : ℕ → List Packet → ℕ → Type 0 where
  last : {off : ℕ} → bit_and (word m (base + off)) 0x01 ≡ 0 → Laid m base off [] off
  packet :
      {off end : ℕ} {fs : List Packet} (next : ℕ)
      → bit_and (word m (base + off)) 0x01 ≢ 0
      → 4 ≤ word m (base + off + 2)
      → next % 4 ≡ 0
      → off + 4 + word m (base + off + 2) ≤ next
      → next < off + 8 + word m (base + off + 2)
      → off + 8 + word m (base + off + 2) ≤ 2 ^ 32
      → Laid m base next fs end
      → Laid m base off
          (record { addr = base + off + 4; plen = word m (base + off + 2); next = next } ∷ fs)
          end

-- The frames handed to the network layer one after the other, each without its checksum.
abbrev pub hand_over : Memory → Stack → List Datagram → List Packet → Stack × List Datagram
hand_over m s got [] = (s, got)
hand_over m s got (f ∷ fs) =
    let r = net_rx s (frame_at m f.addr) (f.plen - 4) in hand_over m r.0 (got ++ r.1) fs

-- The register CAPR is told the end of each packet, less 16, in 16 bits; the last write first.
abbrev pub read_up_to : ℕ → List Packet → List Write
read_up_to io [] = []
read_up_to io (f ∷ fs) =
    read_up_to io fs ++ (outw ((io + 0x38) % 2 ^ 16) ((f.next + 2 ^ 16 - 16) % 2 ^ 16) ∷ [])

-- The driver when it has read the packets and stands at an offset.
abbrev pub when_read : Driver → List Packet → ℕ → Driver
when_read d fs end =
    let r = hand_over d.mem d.stack d.datagrams fs in
    record d {
      stack = r.0;
      datagrams = r.1;
      rx_off = end;
      writes = read_up_to d.io_base fs ++ d.writes;
    }

-- One round of the loop.
abbrev take_frame : Driver → ℕ × ℕ → Driver
take_frame d (p, plen) =
    let (stack, got) = net_rx d.stack (frame_at d.mem p) (plen - 4) in
    let off = next_off d.rx_off plen in
    rl_outw (record d { stack = stack; datagrams = d.datagrams ++ got; rx_off = off }) 0x38
      ((off + (2 ^ 32 - 16)) % 2 ^ 16)

-- Whether the card has written a frame at an offset.
abbrev no_frame : Driver → ℕ → Bool
no_frame d off = bit_and (word d.mem (d.rx_buf + off)) 0x01 == 0

-- The frame at an offset.
abbrev frame_of : Driver → ℕ → ℕ × ℕ
frame_of d off = (d.rx_buf + off + 4, word d.mem (d.rx_buf + off + 2))
