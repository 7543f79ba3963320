-- ===== src/Usb/Program.antt =====
-- usb/xhci.c: the event ring set up, and the registers that are told of it.
use os_from_scratch_graphic.Prelude.{
  ℕ, zero, suc, ◌+◌, ◌-◌, ◌*◌, ◌/◌, ◌%◌, ◌^◌, Bool, true, false, not, ◌||◌, List, replicate, ◌==◌,
  if◌then◌else◌,
}
use os_from_scratch_graphic.Endian.{le32}
use os_from_scratch_graphic.Memory.{Memory, memset}
use os_from_scratch_graphic.Alloc.{kmalloc}
use os_from_scratch_graphic.Tcp.Rx.{write_bytes}
use os_from_scratch_graphic.Usb.Command.{no_trb, ring_trbs}
use os_from_scratch_graphic.Usb.Events.{
  Access, Xhci, op_register, xhci_op_write32, erdp, erdp_with_cycle,
}

-- A page, in bytes.
abbrev pub page : ℕ
page = 4096

-- A word of 32 bits and one of 64, stored at an address.
unfoldable pub store32 : Memory → ℕ → ℕ → Memory
store32 m p v = write_bytes m p (le32 v)

unfoldable pub store64 : Memory → ℕ → ℕ → Memory
store64 m p v = write_bytes (write_bytes m p (le32 v)) (p + 4) (le32 (v / 2 ^ 32))

-- The table of one segment: the address of the ring and its number of entries.
abbrev pub erst_page : Memory → ℕ → ℕ → Memory
erst_page m erst er_buffer =
    store32 (store64 (memset m erst 0 page) erst er_buffer) (erst + 8) ring_trbs

-- Whether the ring is there afterwards.
unfoldable pub xhci_init_event_ring : Xhci → Bool × Xhci
xhci_init_event_ring x =
    let (p, heap1) = kmalloc x.heap page in
    let (s, heap2) = kmalloc heap1 page in
    let e1 = record (x.events) { er_buffer = p; ring = replicate ring_trbs no_trb } in
    let m1 = memset x.mem p 0 page in
    if not (x.events.er_buffer == 0)
    then (true, x)
    else if p == 0
    then (false, record x { heap = heap1 })
    else if s == 0
    then (false, record x { heap = heap2; events = e1; mem = m1 })
    else (
      true,
      record x {
        heap = heap2;
        mem = erst_page m1 s p;
        events = record e1 { erst = s; erst_size = 1; er_dequeue_idx = 0; er_expected_cycle = 1 };
      },
    )

-- The dequeue pointer as it is written without its cycle bit, `erdp_ptr_low & ~0x1u`, and its high half.
abbrev pub erdp_low : Xhci → ℕ
erdp_low x = erdp x.events % 2 ^ 32

abbrev pub erdp_clear : Xhci → ℕ
erdp_clear x = erdp_low x / 2 * 2

abbrev pub erdp_high : Xhci → ℕ
erdp_high x = erdp x.events / 2 ^ 32 % 2 ^ 32

abbrev pub erst_low : Xhci → ℕ
erst_low x = x.events.erst % 2 ^ 32

-- The table, its size and the dequeue pointer, written to registers from an offset on.
abbrev pub write_er : Xhci → ℕ → Xhci
write_er x b =
    let x1 =
      xhci_op_write32 (xhci_op_write32 x b (erst_low x)) (b + 4)
        (x.events.erst / 2 ^ 32 % 2 ^ 32) in
    let x2 = xhci_op_write32 x1 (b + 8) x.events.erst_size in
    xhci_op_write32 (xhci_op_write32 x2 (b + 0x10) (erdp_clear x)) (b + 0x14) (erdp_high x)

-- The dequeue pointer at one more place, then with its cycle bit.
abbrev pub probe_erdp : Xhci → ℕ → Xhci
probe_erdp x off =
    xhci_op_write32 (xhci_op_write32 (xhci_op_write32 x off (erdp_clear x)) (off + 4) (erdp_high x))
      off (erdp_with_cycle x.events)

module _ (bus : List (Access × ℕ) → Access → ℕ) where
  abbrev pub xhci_op_read32 : Xhci → ℕ → ℕ
  xhci_op_read32 x off = bus x.writes (op_register x off)

  -- What was written is read back at an offset, or anything at the place of the dequeue pointer.
  abbrev pub is_promising : Xhci → ℕ → Bool
  is_promising x b =
      xhci_op_read32 x b == erst_low x
      || xhci_op_read32 x (b + 0x10) == erdp_low x
      || not (xhci_op_read32 x (b + 0x10) == 0)

  -- IMOD, IMAN and the cycle bit, at the offset that was chosen.
  abbrev pub enable_er : Xhci → ℕ → Xhci
  enable_er x b =
      xhci_op_write32 (xhci_op_write32 (xhci_op_write32 x (b + 4) 0x100) b 0x1) (b + 0x10)
        (erdp_with_cycle x.events)

  -- `for(uint32_t B = 0x20u; B < 0x3F0u; B += 8u)`, with `n` offsets left, and the fallback behind it.
  unfoldable pub sweep : Xhci → ℕ → ℕ → Xhci
  sweep x b zero = xhci_op_write32 (write_er x 0x20) 0x30 (erdp_with_cycle x.events)
  sweep x b (suc n) =
      let x1 = write_er x b in
      let rest = sweep x1 (b + 8) n in if is_promising x1 b then enable_er x1 b else rest

  abbrev pub sweep_rounds : ℕ
  sweep_rounds = (0x3f0 - 0x20) / 8

  unfoldable pub xhci_program_event_ring : Xhci → Bool × Xhci
  xhci_program_event_ring x =
      if x.events.er_buffer == 0 || x.events.erst == 0
      then (false, x)
      else (true, probe_erdp (probe_erdp (sweep x 0x20 sweep_rounds) 0x30) 0x38)
