-- ===== src/E1000e/Driver.antt =====
-- drivers/e1000e.c: every function of the driver.
--
-- A ring of descriptors is the list of its entries, of which the fields that the driver uses are modelled. The
-- card changes descriptors and buffers only between calls here.
use os_from_scratch_graphic.Prelude.{
  ℕ, zero, suc, ◌+◌, ◌-◌, ◌*◌, ◌/◌, ◌%◌, ◌^◌, Bool, true, false, not, ◌&&◌, Option, none, some,
  List, [], ◌∷◌, ◌++◌, get_or, set, ltb, ◌==◌, bit_and, bit_or, if◌then◌else◌,
}
use os_from_scratch_graphic.Prelude.Int.{ℤ, pos, negsuc}
use os_from_scratch_graphic.Memory.{Memory}
use os_from_scratch_graphic.Endian.{Bytes, load_bytes}
use os_from_scratch_graphic.Pci.{
  Place, Search, found, absent, unended, pci_config_addr, pci_config_read32, pci_config_read16,
  pci_config_read8,
}
use os_from_scratch_graphic.Pci.Scan.{scan_bus}
use os_from_scratch_graphic.Alloc.{kmalloc}
use os_from_scratch_graphic.Net.Arp.{net_init}
use os_from_scratch_graphic.Net.Rx.{Datagram, net_rx}
use os_from_scratch_graphic.Tcp.Api.{bytes_from}
use os_from_scratch_graphic.Tcp.Rx.{write_bytes}
use os_from_scratch_graphic.Dns.Query.{Stack}

-- RX_DESC_COUNT, TX_DESC_COUNT and the size of a buffer
abbrev pub rx_desc_count : ℕ
rx_desc_count = 32

abbrev pub tx_desc_count : ℕ
tx_desc_count = 16

abbrev pub buf_size : ℕ
buf_size = 2048

pub record RxDesc : Type 0 where
  pub buffer_addr : ℕ
  pub len : ℕ
  pub status : ℕ

pub record TxDesc : Type 0 where
  pub buffer_addr : ℕ
  pub len : ℕ
  pub cmd : ℕ
  pub status : ℕ

-- The globals of e1000e.c and the allocator's, the shared memory, the writes to registers, each with its offset, last
-- first, and the one to the configuration space. The network stack is the client.
pub record Driver : Type 0 where
  pub mmio : ℕ
  pub driver_ready : Bool
  pub rx_ring : List RxDesc
  pub rx_bufs : List ℕ
  pub rx_tail : ℕ
  pub tx_ring : List TxDesc
  pub tx_bufs : List ℕ
  pub tx_tail : ℕ
  pub tx_head : ℕ
  pub heap : ℕ
  pub mem : Memory
  pub writes : List (ℕ × ℕ)
  pub config : List (ℕ × ℕ)
  pub stack : Stack
  pub datagrams : List Datagram

abbrev pub no_rx : RxDesc
no_rx = record { buffer_addr = 0; len = 0; status = 0 }

abbrev pub e1000_writel : Driver → ℕ → ℕ → Driver
e1000_writel d off v = record d { writes = (off, v) ∷ d.writes }

abbrev pub rtl8139_is_ready : Driver → Bool
rtl8139_is_ready d = d.driver_ready

-- A copy of the frame, its descriptor, and the tail moved on. Whether the slot is still in use is not tested.
unfoldable pub nic_tx : Driver → Bytes → ℕ → Driver
nic_tx d payload len =
    let n = if ltb buf_size len then buf_size else len in
    let buf = get_or d.tx_bufs d.tx_tail 0 in
    let desc : TxDesc = record { buffer_addr = buf; len = n % 2 ^ 16; cmd = 0x1b; status = 0 } in
    let tail = (d.tx_tail + 1) % tx_desc_count in
    let d1 = record d {
      mem = write_bytes d.mem buf (load_bytes n payload);
      tx_ring = set d.tx_ring d.tx_tail desc;
      tx_tail = tail;
    } in
    if d.driver_ready then e1000_writel d1 0x3818 tail else d

-- The bytes of a buffer that the card filled.
unfoldable pub frame_at : Memory → ℕ → Bytes
frame_at m p = bytes_from m p (14 + 2 ^ 16)

-- One descriptor of the receive ring, `desc`, whose buffer is at `buf`.
unfoldable pub receive_desc : Driver → ℕ → RxDesc → ℕ → Driver
receive_desc d i desc buf =
    let r = net_rx d.stack (frame_at d.mem buf) desc.len in
    let d1 =
      if ltb 0 desc.len && not (buf == 0)
      then record d { stack = r.0; datagrams = d.datagrams ++ r.1 }
      else d in
    let d2 = record d1 { rx_ring = set d.rx_ring i (record desc { status = 0 }) } in
    if bit_and desc.status 0x01 == 0 then d else e1000_writel d2 0x2818 i

unfoldable pub receive_one : Driver → ℕ → Driver
receive_one d i = receive_desc d i (get_or d.rx_ring i no_rx) (get_or d.rx_bufs i 0)

-- `for(uint32_t i=0;i<RX_DESC_COUNT;i++)`, from descriptor `i` on with `n` left.
unfoldable pub receive_all : Driver → ℕ → ℕ → Driver
receive_all d i zero = d
receive_all d i (suc n) = receive_all (receive_one d i) (suc i) n

unfoldable pub rtl8139_poll : Driver → Driver
rtl8139_poll d = if d.driver_ready then receive_all d 0 rx_desc_count else d

-- The buffers of a ring with `n` entries left, and the heap behind them. A failure is not tested for.
unfoldable pub alloc_bufs : ℕ → ℕ → List ℕ × ℕ
alloc_bufs zero heap = ([], heap)
alloc_bufs (suc n) heap =
    let (p, heap1) = kmalloc heap buf_size in
    let (bufs, end) = alloc_bufs n heap1 in (p ∷ bufs, end)

-- What the descriptors are given; their other fields stay as the memory has them, which is modelled as 0.
abbrev pub rx_descs : List ℕ → List RxDesc
rx_descs [] = []
rx_descs (p ∷ bufs) = record { buffer_addr = p; len = 0; status = 0 } ∷ rx_descs bufs

abbrev pub tx_descs : List ℕ → List TxDesc
tx_descs [] = []
tx_descs (p ∷ bufs) = record { buffer_addr = p; len = 0; cmd = 0; status = 0 } ∷ tx_descs bufs

-- RDBAL to RDT, and TDBAL to TDT.
abbrev pub tell_rx : Driver → ℕ → Driver
tell_rx d ring =
    e1000_writel
      (e1000_writel
        (e1000_writel (e1000_writel (e1000_writel d 0x2800 ring) 0x2804 0) 0x2808
          (rx_desc_count * 16))
        0x2810 0)
      0x2818 d.rx_tail

abbrev pub tell_tx : Driver → ℕ → Driver
tell_tx d ring =
    e1000_writel
      (e1000_writel
        (e1000_writel (e1000_writel (e1000_writel d 0x3800 ring) 0x3804 0) 0x3808
          (tx_desc_count * 16))
        0x3810 0)
      0x3818 0

-- The six bytes of the two address registers.
abbrev pub mac_of : ℕ → ℕ → Bytes
mac_of ral rah =
    ral % 256
    ∷ (ral / 256 % 256
        ∷ (ral / 2 ^ 16 % 256 ∷ (ral / 2 ^ 24 % 256 ∷ (rah % 256 ∷ (rah / 256 % 256 ∷ [])))))

-- The receive ring; false for no memory.
unfoldable pub set_up_rx : Driver → Bool × Driver
set_up_rx d =
    let (ring, heap1) = kmalloc d.heap (16 * rx_desc_count) in
    let (bufs, heap2) = alloc_bufs rx_desc_count heap1 in
    if ring == 0 then (false, record d { heap = heap1 }) else (
      true,
      tell_rx
          (record d {
            heap = heap2;
            rx_bufs = bufs;
            rx_ring = rx_descs bufs;
            rx_tail = rx_desc_count - 1;
          })
          ring,
    )

unfoldable pub set_up_tx : Driver → Bool × Driver
set_up_tx d =
    let (ring, heap1) = kmalloc d.heap (16 * tx_desc_count) in
    let (bufs, heap2) = alloc_bufs tx_desc_count heap1 in
    if ring == 0 then (false, record d { heap = heap1 }) else (
      true,
      tell_tx
          (record d {
            heap = heap2;
            tx_bufs = bufs;
            tx_ring = tx_descs bufs;
            tx_head = 0;
            tx_tail = 0;
          })
          ring,
    )

-- What the machine answers: the configuration space, and the registers after the writes so far.
module _ (bus_read : ℕ → ℕ) (readl : List (ℕ × ℕ) → ℕ → ℕ) where
  abbrev pub is_intel_net : Place → Bool
  is_intel_net p =
      pci_config_read16 bus_read p 0x00 == 0x8086 && pci_config_read8 bus_read p 0x0b == 0x02

  unfoldable pub pci_find_intel_net : ℕ → Search
  pci_find_intel_net fuel = scan_bus bus_read is_intel_net 0 fuel

  abbrev pub e1000_readl : Driver → ℕ → ℕ
  e1000_readl d off = readl d.writes off

  -- RCTL, TCTL and the address of the card.
  abbrev pub start_card : Driver → Driver
  start_card d =
      let d1 = e1000_writel (e1000_writel d 0x100 (2 ^ 1 + 2 ^ 26)) 0x400 (2 ^ 1 + 2 ^ 3) in
      record d1 {
        driver_ready = true;
        stack = record (d1.stack) {
          host = record (d1.stack.host) {
            net =
                net_init d1.stack.host.net (mac_of (e1000_readl d1 0x5400) (e1000_readl d1 0x5404));
          };
        };
      }

  -- The card found at a place: its registers, then the rings.
  unfoldable pub set_up : Driver → Place → ℤ × Driver
  set_up d p =
      let command = bit_or (pci_config_read32 bus_read p 0x04) 0x0006 in
      let base = pci_config_read32 bus_read p 0x10 / 16 * 16 in
      let d1 = record d { config = (pci_config_addr p 0x04, command) ∷ d.config; mmio = base } in
      let (has_rx, d2) = set_up_rx d1 in
      let (has_tx, d3) = set_up_tx d2 in
      if base == 0
      then (negsuc 0, d1)
      else if not has_rx
      then (negsuc 0, d2)
      else if not has_tx
      then (negsuc 0, d3)
      else (pos 0, start_card d3)

  unfoldable pub rtl8139_init : ℕ → Driver → Option (ℤ × Driver)
  rtl8139_init fuel d = elim (pci_find_intel_net fuel) [
    | unended ↦ none
    | absent ↦ some (negsuc 0, d)
    | found p ↦ some (set_up d p)
  ]
