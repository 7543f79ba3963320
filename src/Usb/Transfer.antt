-- ===== src/Usb/Transfer.antt =====
-- usb/xhci.c: control transfers, from the setup packet to the end of the wait.
use os_from_scratch_graphic.Prelude.{
  ℕ, ◌+◌, ◌*◌, ◌/◌, ◌%◌, ◌^◌, Bool, true, false, not, ◌&&◌, ◌||◌, Option, none, some, List, ◌∷◌,
  ◌++◌, ◌==◌, if◌then◌else◌,
}
use os_from_scratch_graphic.Endian.{Bytes, le16}
use os_from_scratch_graphic.Memory.{Memory, memset, memcpy}
use os_from_scratch_graphic.Alloc.{kmalloc}
use os_from_scratch_graphic.Tcp.Rx.{write_bytes}
use os_from_scratch_graphic.Usb.Command.{
  Trb, Command, xhci_prepare_control_transfer, finalize, mark_all,
}
use os_from_scratch_graphic.Usb.Events.{
  Access, Xhci, xhci_op_write32, xhci_ring_doorbell, xhci_poll_event_ring,
}
use os_from_scratch_graphic.Usb.Program.{
  page, store32, xhci_init_event_ring, xhci_program_event_ring,
}
use os_from_scratch_graphic.Usb.Slot.{xhci_init_device_context, xhci_send_enable_slot, set_running}

-- The dry run.
abbrev pub mark_prepared : Command → Option ℕ → Command
mark_prepared r none = r
mark_prepared r (some start) = mark_all r start 0 r.last_count

-- The DCBAA, allocated once, and whether there is one.
unfoldable pub with_dcbaa : Xhci → Xhci
with_dcbaa x =
    let (p, heap) = kmalloc x.heap page in
    if not (x.dcbaa == 0)
    then x
    else if p == 0
    then record x { heap = heap }
    else record x { dcbaa = p; heap = heap; mem = memset x.mem p 0 page }

-- A page for the device context, and its address in entry 1, which lies 4 bytes behind entry 0.
unfoldable pub with_dev_ctx : Xhci → Xhci
with_dev_ctx x =
    let (p, heap) = kmalloc x.heap page in
    if p == 0 then record x { dev_ctx = p; heap = heap } else record x {
      dev_ctx = p;
      heap = heap;
      mem = store32 (memset x.mem p 0 page) (x.dcbaa + 4) p;
    }

-- The address of the entries that were prepared, 0 entries behind the ring for none.
abbrev pub crcr_of : Command → Option ℕ → ℕ
crcr_of r none = r.cmd_ring
crcr_of r (some start) = r.cmd_ring + start * 16

-- `struct usb_setup`, in memory order.
abbrev pub setup_packet : ℕ → ℕ → ℕ → ℕ → ℕ → Bytes
setup_packet bm_request_type b_request w_value w_index w_length =
    bm_request_type ∷ (b_request ∷ (le16 w_value ++ (le16 w_index ++ le16 w_length)))

module _ (bus : List (Access × ℕ) → Access → ℕ)
    (arrive : ℕ → List Trb × Memory → List Trb × Memory) where
  -- The slot, where it is not enabled yet. A failure is passed over.
  unfoldable pub with_slot : Xhci → Xhci
  with_slot x =
      let (sent, x1) = xhci_send_enable_slot bus arrive x in
      let (made, x2) = xhci_init_device_context x1 in
      if x.slot_enabled
      then x
      else if not sent
      then x1
      else if not made
      then x2
      else record x2 { slot_enabled = true }

  -- CRCR, the doorbell and the wait, whose outcome is not used.
  unfoldable pub run_transfer : Xhci → ℕ → ℕ → ℕ → Bool → Xhci
  run_transfer x user_buf data_v data_len direction_in =
      let crcr = crcr_of x.command x.command.last_start in
      let x1 =
        xhci_op_write32 (xhci_op_write32 x 0x18 (crcr % 2 ^ 32)) 0x1c (crcr / 2 ^ 32 % 2 ^ 32) in
      (xhci_poll_event_ring arrive (xhci_ring_doorbell x1 0 0) 500 data_v user_buf data_len
        direction_in).1

  -- From the registers of the DCBAA on; false for a return of -1.
  unfoldable pub submit_entries : Xhci → ℕ → ℕ → ℕ → Bool → Bool × Xhci
  submit_entries x user_buf data_v data_len direction_in =
      let x1 =
        xhci_op_write32 (xhci_op_write32 x 0x30 (x.dcbaa % 2 ^ 32)) 0x34
          (x.dcbaa / 2 ^ 32 % 2 ^ 32) in
      elim (finalize x1.command) [
        | none ↦ (false, x1)
        | some r ↦
            let x2 = set_running bus arrive (record x1 { command = r }) in
            let (programmed, x3) = xhci_program_event_ring bus (xhci_init_event_ring x2).1 in
            (true, if programmed then run_transfer x3 user_buf data_v data_len direction_in else x3)
      ]

  unfoldable pub xhci_submit_command_ring : Xhci → ℕ → ℕ → ℕ → Bool → Bool × Xhci
  xhci_submit_command_ring x user_buf data_v data_len direction_in =
      let x1 = with_dcbaa x in
      let x2 = with_dev_ctx x1 in
      if not x.hw_enable
      then (true, record x { command = mark_prepared x.command x.command.last_start })
      else if x1.dcbaa == 0
      then (false, x1)
      else if x2.dev_ctx == 0
      then (false, x2)
      else submit_entries (with_slot x2) user_buf data_v data_len direction_in

  -- The buffer of the data: its address, 0 for none, with what an OUT transfer puts into it.
  unfoldable pub with_data : Xhci → ℕ → ℕ → Bool → ℕ × Xhci
  with_data x data_at data_len direction_in =
      let (p, heap) = kmalloc x.heap data_len in
      let copied =
        if direction_in || data_at == 0 || p == 0 then x.mem else memcpy x.mem p data_at data_len in
      if data_len == 0 then (0, x) else (p, record x { heap = heap; mem = copied })

  -- From the entries on, for a setup packet and a buffer in memory.
  unfoldable pub send_staged : Xhci → ℕ → ℕ → ℕ → Bool → ℕ → Bool × Xhci
  send_staged x setup data_v data_len direction_in resp_buf =
      let (trbs, r, heap) =
        xhci_prepare_control_transfer x.command x.heap setup data_v data_v data_len direction_in in
      let x1 = record x { command = r; heap = heap } in
      elim trbs [
        | none ↦ (false, x1)
        | some n ↦ xhci_submit_command_ring x1 resp_buf data_v data_len direction_in
      ]

  -- Whether the transfer was submitted.
  unfoldable pub xhci_control_transfer : Xhci → ℕ → ℕ → ℕ → ℕ → ℕ → ℕ → Bool → ℕ → Bool × Xhci
  xhci_control_transfer x bm_request_type b_request w_value w_index data_at data_len direction_in
        resp_buf =
      let (s, heap) = kmalloc x.heap 8 in
      let x1 = record x {
        heap = heap;
        mem =
            write_bytes x.mem s
              (setup_packet bm_request_type b_request w_value w_index (data_len % 2 ^ 16));
      } in
      let (data_v, x2) = with_data x1 data_at data_len direction_in in
      if s == 0
      then (false, record x { heap = heap })
      else if not (data_len == 0) && data_v == 0
      then (false, x2)
      else send_staged x2 s data_v data_len direction_in resp_buf

  unfoldable pub xhci_set_address : Xhci → ℕ → Bool × Xhci
  xhci_set_address x addr = xhci_control_transfer x 0x00 5 addr 0 0 0 false 0

  unfoldable pub xhci_get_device_descriptor : Xhci → ℕ → ℕ → Bool × Xhci
  xhci_get_device_descriptor x buf len = xhci_control_transfer x 0x80 6 (1 * 2 ^ 8) 0 0 len true buf

  -- A buffer at address 0 or of no length is refused.
  unfoldable pub xhci_get_config_descriptor : Xhci → ℕ → ℕ → Bool × Xhci
  xhci_get_config_descriptor x buf len =
      if len == 0 || buf == 0
      then (false, x)
      else xhci_control_transfer x 0x80 6 (2 * 2 ^ 8) 0 0 len true buf
