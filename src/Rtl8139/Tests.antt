-- ===== src/Rtl8139/Tests.antt =====
-- rtl8139.c on a driver that is set up.
use os_from_scratch_graphic.Prelude.{
  ℕ, zero, suc, ◌+◌, ◌*◌, ◌%◌, ◌^◌, ◌≡◌, ◌≢◌, ◌≤◌, ◌<◌, ◌⊎◌, refl, true, List, [], ◌∷◌, arith, ◌==◌,
  if◌then◌else◌,
}
use os_from_scratch_graphic.Memory.{Memory}
use os_from_scratch_graphic.Tcp.Api.{bytes_from}
use os_from_scratch_graphic.Dns.Query as Query
use os_from_scratch_graphic.Rtl8139.Driver.{Driver, outl, tx_slots, tx_buf_size, tsad_reg, tsd_reg}
use os_from_scratch_graphic.Rtl8139.Transmit.{Frame, buffer, IsReady, send, send_all, nic_tx-stays}
use os_from_scratch_graphic.Rtl8139.Receive.{Packet}

-- One packet of 64 bytes and a checksum lies at the start of the ring.
unfoldable ring : Memory
ring a = if a == 0x200000 then 1 else if a == 0x200002 then 68 else 0

abbrev driver : Driver
driver = record {
  io_base = 0xc000;
  rx_buf = 0x200000;
  rx_off = 0;
  tx_bufs = 4096 ∷ 5888 ∷ 7680 ∷ 9472 ∷ [];
  tx_idx = 3;
  initialized = true;
  heap = 0x300000;
  mem = ring;
  writes = [];
  stack = Query.boot;
  datagrams = [];
}

buffer_of : (i : ℕ) → i < 4 → buffer driver i ≡ 4096 + 1792 * i
buffer_of zero l = refl
buffer_of (suc zero) l = refl
buffer_of (suc (suc zero)) l = refl
buffer_of (suc (suc (suc zero))) l = refl
buffer_of (suc (suc (suc (suc i)))) l = absurd (omega arith)

driver_apart :
    (i j : ℕ)
    → i < tx_slots
    → j < tx_slots
    → i ≢ j
    → (buffer driver i + tx_buf_size ≤ buffer driver j)
      ⊎ (buffer driver j + tx_buf_size ≤ buffer driver i)
driver_apart i j hi hj ne = rw (buffer_of i hi, buffer_of j hj) (ground arith)

driver-IsReady : IsReady driver
driver-IsReady = record { ready = refl; slot = omega arith; apart = driver_apart }

-- Frames of 42, 2 and 3000 bytes in a memory whose bytes count up.
abbrev stack_memory : Memory
stack_memory a = a % 256

abbrev frame_of : ℕ → Frame
frame_of n = record { mem = stack_memory; addr = 0x9000; len = n }

nic_tx-stays_example :
    let d1 = send driver (frame_of 42) in
    (d1.writes
      ≡ outl ((driver.io_base + tsd_reg 3) % 2 ^ 16) 60
        ∷ (outl ((driver.io_base + tsad_reg 3) % 2 ^ 16) (buffer driver 3) ∷ []))
    × (bytes_from (send_all d1 (frame_of 2 ∷ (frame_of 3000 ∷ []))).mem (buffer driver 3) 60
        ≡ bytes_from stack_memory 0x9000 60)
nic_tx-stays_example =
    nic_tx-stays driver (frame_of 42) (frame_of 2 ∷ (frame_of 3000 ∷ [])) driver-IsReady
      (omega arith)

abbrev one_packet : List Packet
one_packet = record { addr = 0x200004; plen = 68; next = 72 } ∷ []
