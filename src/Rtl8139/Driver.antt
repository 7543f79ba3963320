-- ===== src/Rtl8139/Driver.antt =====
-- rtl8139.c: the driver of the network card.
--
-- The card is a parameter: what a port read gives is a function of the writes so far. The memory that
-- driver and card share is an address space; the card changes it only between calls here.
use os_from_scratch_graphic.Prelude.{
  ℕ, zero, suc, ◌+◌, ◌-◌, ◌*◌, ◌/◌, ◌%◌, ◌^◌, Bool, true, not, Option, none, some, List, [], ◌∷◌,
  ◌++◌, get_or, ltb, ◌==◌, bit_and, bit_or, if◌then◌else◌,
}
use os_from_scratch_graphic.Prelude.Int.{ℤ, pos, negsuc}
use os_from_scratch_graphic.Memory.{Memory}
use os_from_scratch_graphic.Endian.{Bytes}
use os_from_scratch_graphic.Pci.{
  Place, pci_config_addr, pci_config_read32, pci_find_device, found, absent, unended,
}
use os_from_scratch_graphic.Alloc.{kmalloc}
use os_from_scratch_graphic.Net.Arp.{net_init}
use os_from_scratch_graphic.Net.Rx.{Datagram, net_rx}
use os_from_scratch_graphic.Tcp.Api.{bytes_from}
use os_from_scratch_graphic.Tcp.Rx.{write_bytes}
use os_from_scratch_graphic.Dns.Query.{Stack}

-- A write to a port, with the width of the access, or to the configuration space.
pub data Write : Type 0 where
  outb outw outl : ℕ → ℕ → Write
  config : ℕ → ℕ → Write

-- What the machine gives: the answers of the configuration space and of the ports.
pub record Device : Type 0 where
  pub bus_read : ℕ → ℕ
  pub inb : List Write → ℕ → ℕ
  pub inw : List Write → ℕ → ℕ

-- The globals of rtl8139.c and the allocator's, the shared memory, and the writes, last first. The
-- network stack is the client.
pub record Driver : Type 0 where
  pub io_base : ℕ
  pub rx_buf : ℕ
  pub rx_off : ℕ
  pub tx_bufs : List ℕ
  pub tx_idx : ℕ
  pub initialized : Bool
  pub heap : ℕ
  pub mem : Memory
  pub writes : List Write
  pub stack : Stack
  pub datagrams : List Datagram

-- TX_SLOTS, TX_BUF_SIZE and RL_RXBUF
abbrev pub tx_slots : ℕ
tx_slots = 4

abbrev pub tx_buf_size : ℕ
tx_buf_size = 1792

abbrev pub rx_ring : ℕ
rx_ring = 8192

-- `outl(io_base + reg, value)` and the like.
abbrev pub rl_outb : Driver → ℕ → ℕ → Driver
rl_outb d reg v = record d { writes = outb ((d.io_base + reg) % 2 ^ 16) v ∷ d.writes }

abbrev pub rl_outw : Driver → ℕ → ℕ → Driver
rl_outw d reg v = record d { writes = outw ((d.io_base + reg) % 2 ^ 16) v ∷ d.writes }

abbrev pub rl_outl : Driver → ℕ → ℕ → Driver
rl_outl d reg v = record d { writes = outl ((d.io_base + reg) % 2 ^ 16) v ∷ d.writes }

-- TSAD and TSD of the slot.
abbrev pub tsad_reg : ℕ → ℕ
tsad_reg slot = 0x20 + slot * 4

abbrev pub tsd_reg : ℕ → ℕ
tsd_reg slot = 0x10 + slot * 4

-- `if(len < 60) len = 60; if(len > TX_BUF_SIZE) len = TX_BUF_SIZE;`
abbrev pub tx_length : ℕ → ℕ
tx_length len = if ltb len 60 then 60 else if ltb tx_buf_size len then tx_buf_size else len

-- The frame lies at `data` in the caller's memory `m`; of one with less than 60 bytes, the bytes behind it are
-- read and sent too.
unfoldable pub nic_tx : Driver → Memory → ℕ → ℕ → Driver
nic_tx d m data_at len =
    let n = tx_length len in
    let phys = get_or d.tx_bufs d.tx_idx 0 in
    let d1 = record d { mem = write_bytes d.mem phys (bytes_from m data_at n) } in
    let d2 = rl_outl (rl_outl d1 (tsad_reg d.tx_idx) phys) (tsd_reg d.tx_idx) (n % 2 ^ 13) in
    if d.initialized then record d2 { tx_idx = (d.tx_idx + 1) % tx_slots } else d

abbrev pub rtl8139_is_ready : Driver → Bool
rtl8139_is_ready d = d.initialized

-- The word at an address.
abbrev pub word : Memory → ℕ → ℕ
word m a = m a + m (a + 1) * 256

-- The memory from the start of a frame on, as far as its header can point.
unfoldable pub frame_at : Memory → ℕ → Bytes
frame_at m p = bytes_from m p (14 + 2 ^ 16)

-- `(rx_off + 4 + plen + 3) & ~3U`
abbrev pub next_off : ℕ → ℕ → ℕ
next_off off plen = (off + 4 + plen + 3) % 2 ^ 32 / 4 * 4

-- `for(;;)`: one round for each frame of the ring; `none` is a loop that has not ended.
unfoldable pub receive_frames : ℕ → Driver → Option Driver
receive_frames zero d = none
receive_frames (suc fuel) d =
    let at = d.rx_buf + d.rx_off in
    let plen = word d.mem (at + 2) in
    let off = next_off d.rx_off plen in
    let (stack, got) = net_rx d.stack (frame_at d.mem (at + 4)) (plen - 4) in
    let d1 = record d { stack = stack; datagrams = d.datagrams ++ got; rx_off = off } in
    let rest = receive_frames fuel (rl_outw d1 0x38 ((off + (2 ^ 32 - 16)) % 2 ^ 16)) in
    if bit_and (word d.mem at) 0x01 == 0 then some d else rest

module _ (dev : Device) where
  abbrev pub rl_inb : Driver → ℕ → ℕ
  rl_inb d reg = dev.inb d.writes ((d.io_base + reg) % 2 ^ 16)

  abbrev pub rl_inw : Driver → ℕ → ℕ
  rl_inw d reg = dev.inw d.writes ((d.io_base + reg) % 2 ^ 16)

  unfoldable pub rtl8139_poll : ℕ → Driver → Option Driver
  rtl8139_poll fuel d =
      let isr = rl_inw d 0x3e in
      let d1 = rl_outw d 0x3e isr in
      if not d.initialized
      then some d
      else if d.rx_buf == 0
      then some d
      else if isr == 0
      then some d
      else if bit_and isr 0x01 == 0
      then some d1
      else receive_frames fuel d1

  abbrev pub read_mac : Driver → Bytes
  read_mac d = rl_inb d 0 ∷ rl_inb d 1 ∷ rl_inb d 2 ∷ rl_inb d 3 ∷ rl_inb d 4 ∷ rl_inb d 5 ∷ []

  -- `while(rl_inb(RL_CMD) & 0x10)`
  unfoldable pub await_reset : ℕ → Driver → Option Driver
  await_reset zero d = none
  await_reset (suc fuel) d =
      let rest = await_reset fuel d in if bit_and (rl_inb d 0x37) 0x10 == 0 then some d else rest

  -- `for(int i=0;i<TX_SLOTS;i++)`: the buffers and the heap. A block at address 0 is a failure.
  unfoldable pub alloc_tx : ℕ → ℕ → Option (List ℕ × ℕ)
  alloc_tx zero heap = some ([], heap)
  alloc_tx (suc n) heap =
      let (p, heap') = kmalloc heap tx_buf_size in
      if p == 0
      then none
      else elim (alloc_tx n heap') [ none ↦ none | some (bufs, end) ↦ some (p ∷ bufs, end) ]

  -- From the interrupt mask on.
  abbrev pub start_card : Driver → Driver
  start_card d =
      let d1 = rl_outb (rl_outw (record d { tx_idx = 0 }) 0x3c 0x0005) 0x37 (8 + 4) in
      record d1 {
        initialized = true;
        stack = record (d1.stack) {
          host = record (d1.stack.host) { net = net_init d1.stack.host.net (read_mac d1) };
        };
      }

  -- After the reset: the buffers and the registers.
  unfoldable pub set_up : Driver → ℤ × Driver
  set_up d =
      let (rx, heap') = kmalloc d.heap (rx_ring + 16 + 1500) in
      let d1 = record d { rx_buf = rx; heap = heap'; rx_off = 0 } in
      let d2 = rl_outl (rl_outl (rl_outl d1 0x30 rx) 0x44 (0x0005 + 2 ^ 7 + 2 ^ 4)) 0x40 0 in
      if rx == 0
      then (negsuc 0, record d { rx_buf = rx; heap = heap' })
      else elim (alloc_tx tx_slots heap') [
        | none ↦ (negsuc 0, d2)
        | some (bufs, end) ↦ (pos 0, start_card (record d2 { tx_bufs = bufs; heap = end }))
      ]

  -- The configuration of the card found, and the writes up to the reset.
  abbrev pub power_on : Driver → Place → Driver
  power_on d p =
      let command = bit_or (pci_config_read32 dev.bus_read p 0x04) 0x0005 in
      let bar0 = pci_config_read32 dev.bus_read p 0x10 in
      rl_outb
        (rl_outb
          (record d {
            writes = config (pci_config_addr p 0x04) command ∷ d.writes;
            io_base = bar0 / 4 * 4 % 2 ^ 16;
          })
          0x52 0x00)
        0x37 0x10

  -- The fuel bounds the buses that the search visits and the rounds of the wait for the reset.
  unfoldable pub rtl8139_init : ℕ → Driver → Option (ℤ × Driver)
  rtl8139_init fuel d = elim (pci_find_device dev.bus_read 0x10ec 0x8139 0 fuel) [
    | unended ↦ none
    | absent ↦ some (negsuc 0, d)
    | found p ↦ elim (await_reset fuel (power_on d p)) [ none ↦ none | some d1 ↦ some (set_up d1) ]
  ]
