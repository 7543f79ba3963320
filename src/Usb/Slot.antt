-- ===== src/Usb/Slot.antt =====
-- usb/xhci.c: the slot of the device and its context.
use os_from_scratch_graphic.Prelude.{
  ℕ, zero, suc, ◌+◌, ◌*◌, ◌/◌, ◌%◌, ◌^◌, Bool, true, false, not, ◌||◌, none, some, List, set, ◌==◌,
  bit_or, if◌then◌else◌,
}
use os_from_scratch_graphic.Memory.{Memory, memset}
use os_from_scratch_graphic.Alloc.{kmalloc}
use os_from_scratch_graphic.Usb.Command.{
  Trb, Command, trb_at, xhci_init_command_ring, xhci_build_command_trb,
}
use os_from_scratch_graphic.Usb.Events.{
  Access, Xhci, xhci_op_write32, xhci_op_write64, xhci_ring_doorbell,
  xhci_wait_for_command_completion,
}
use os_from_scratch_graphic.Usb.Program.{
  page, store32, store64, xhci_op_read32, xhci_init_event_ring, xhci_program_event_ring,
}

-- The Enable Slot command in entry 0, with its cycle bit set.
unfoldable pub build_enable_slot : Command → Command
build_enable_slot r =
    let r1 = xhci_build_command_trb r 0 9 0 0 in
    record r1 {
      trbs = set r1.trbs 0 (record (trb_at r1.trbs 0) { d = bit_or (trb_at r1.trbs 0).d 1 });
    }

-- A page of zeros, allocated where there is none; address 0 is a failure.
unfoldable pub zero_page : Memory → ℕ → ℕ → ℕ × Memory × ℕ
zero_page m heap old =
    let (p, heap') = kmalloc heap page in
    if not (old == 0) then (old, m, heap) else (p, if p == 0 then m else memset m p 0 page, heap')

-- The ring of endpoint 0: a new one has the cycle bit of its first entry set. The source tries twice.
unfoldable pub with_ep0_ring : Xhci → Xhci
with_ep0_ring x =
    let (p, m, heap) = zero_page x.mem x.heap x.ep0_ring in
    let marked = if not (x.ep0_ring == 0) || p == 0 then m else store32 m (p + 12) 1 in
    record x { ep0_ring = p; mem = marked; heap = heap }

-- Its segment table.
unfoldable pub with_ep0_rst : Xhci → Xhci
with_ep0_rst x =
    let (p, m, heap) = zero_page x.mem x.heap x.ep0_rst in
    let filled = if not (x.ep0_rst == 0) || p == 0 then m else store64 m p x.ep0_ring in
    record x { ep0_rst = p; mem = filled; heap = heap }

-- The pointers in the endpoint context, 0x20 behind the slot context, and its packet size of 64.
unfoldable pub endpoint_context : Memory → ℕ → ℕ → ℕ → Memory
endpoint_context m ec ring rst =
    let m1 =
      if rst == 0
      then m
      else store32 (store64 (store64 m (ec + 0x20) rst) (ec + 0x28) rst) (ec + 0x30) 1 in
    let m2 = store64 (store64 (store64 m1 (ec + 0x08) ring) (ec + 0x10) ring) (ec + 0x18) ring in
    store32 m2 (ec + 0x04) (m2 (ec + 0x06) * 2 ^ 16 + m2 (ec + 0x07) * 2 ^ 24 + 64)

unfoldable pub xhci_init_device_context : Xhci → Bool × Xhci
xhci_init_device_context x =
    let x1 = record x { mem = store32 (memset x.mem x.dev_ctx 0 page) x.dev_ctx 1 } in
    let x2 = with_ep0_ring (with_ep0_ring x1) in
    let x3 = with_ep0_rst x2 in
    if x.dev_ctx == 0 then (false, x) else if x2.ep0_ring == 0 then (true, x2) else (
      true,
      record x3 { mem = endpoint_context x3.mem (x.dev_ctx + 0x20) x3.ep0_ring x3.ep0_rst },
    )

module _ (bus : List (Access × ℕ) → Access → ℕ)
    (arrive : ℕ → List Trb × Memory → List Trb × Memory) where
  -- `usbcmd |= 0x1`
  abbrev pub set_running : Xhci → Xhci
  set_running x = xhci_op_write32 x 0x00 (bit_or (xhci_op_read32 bus x 0x00) 1)

  -- The other way to write CRCR, and one more wait.
  unfoldable pub try_alternate : Xhci → Bool × Xhci
  try_alternate x =
      let x1 =
        xhci_op_write32 (xhci_op_write32 x 0x18 (x.command.cmd_ring % 2 ^ 32)) 0x1c
          (x.command.cmd_ring / 2 ^ 32 % 2 ^ 32) in
      let x2 =
        xhci_ring_doorbell (xhci_op_write32 x1 0x18 (bit_or (xhci_op_read32 bus x1 0x18) 1)) 0 0 in
      let (seen, x3) = xhci_wait_for_command_completion arrive x2 2000 in
      elim seen [ none ↦ (false, x3) | some c ↦ (true, x3) ]

  -- `for(int a=0;a<attempts;a++)`
  unfoldable pub await_slot : ℕ → Xhci → Bool × Xhci
  await_slot zero x = try_alternate x
  await_slot (suc n) x =
      let (seen, x1) = xhci_wait_for_command_completion arrive x 2000 in
      let rest = await_slot n x1 in elim seen [ none ↦ rest | some c ↦ (c == 0, x1) ]

  -- The controller started, its registers written and the doorbell rung.
  abbrev pub publish_command : Xhci → Xhci
  publish_command x =
      let x1 = (xhci_program_event_ring bus (xhci_init_event_ring (set_running x)).1).1 in
      xhci_ring_doorbell (xhci_op_write64 x1 0x18 (bit_or x1.command.cmd_ring 1)) 0 0

  unfoldable pub xhci_send_enable_slot : Xhci → Bool × Xhci
  xhci_send_enable_slot x =
      let (ok, r, heap) = xhci_init_command_ring x.command x.heap in
      let x1 = record x { command = build_enable_slot r; heap = heap } in
      if not x.hw_enable
      then (true, x)
      else if not ok
      then (false, record x { command = r; heap = heap })
      else await_slot 3 (publish_command x1)
