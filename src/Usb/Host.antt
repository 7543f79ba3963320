-- ===== src/Usb/Host.antt =====
-- usb/usb_host.c, usb_rndis.c, usb_core.c and nic_stub.c: the layers above the controller.
--
-- What net.c does with a frame, and what a call of the controller returns, come from their models.
use os_from_scratch_graphic.Prelude.{
  ℕ, ◌/◌, ◌%◌, Bool, true, false, not, ◌||◌, Option, none, some, List, [], ◌∷◌, ◌++◌, ◌==◌, bit_and,
  if◌then◌else◌,
}
use os_from_scratch_graphic.Endian.{Bytes}
use os_from_scratch_graphic.Prelude.Int.{pos, negsuc}
use os_from_scratch_graphic.Memory.{Memory, memcpy}
use os_from_scratch_graphic.Alloc.{kmalloc}
use os_from_scratch_graphic.Tcp.Rx.{write_bytes}
use os_from_scratch_graphic.Dns.Query.{Stack}
use os_from_scratch_graphic.Net.Rx.{Datagram, net_rx}
use os_from_scratch_graphic.Usb.Command.{Trb, xhci_prepare_control_transfer}
use os_from_scratch_graphic.Usb.Events.{Access, Xhci}
use os_from_scratch_graphic.Usb.Transfer.{xhci_submit_command_ring}
use os_from_scratch_graphic.Usb.Probe.{xhci_probe, usb_enumerate_device}

-- The eight bytes that usb_control_transfer builds one by one.
abbrev pub setup_bytes : ℕ → ℕ → ℕ → ℕ → ℕ → Bytes
setup_bytes bm b_request w_value w_index w_length =
    bm
    ∷ (b_request
        ∷ (w_value % 256
            ∷ (w_value / 256 % 256
                ∷ (w_index % 256
                    ∷ (w_index / 256 % 256 ∷ (w_length % 256 ∷ (w_length / 256 % 256 ∷ [])))))))

-- `(bmRequestType & 0x80) == 0x80`
abbrev pub is_in : ℕ → Bool
is_in bm = bit_and bm 0x80 == 0x80

-- The data buffer: its address, 0 for none, and whether it could be allocated.
unfoldable pub data_buffer : Xhci → ℕ → ℕ → ℕ → Bool × ℕ × Xhci
data_buffer x bm data_at w_length =
    let (p, heap) = kmalloc x.heap w_length in
    if w_length == 0 || data_at == 0
    then (true, 0, x)
    else if p == 0
    then (false, 0, record x { heap = heap })
    else (
      true,
      p,
      record x { heap = heap; mem = if is_in bm then x.mem else memcpy x.mem p data_at w_length },
    )

module _ (bus : List (Access × ℕ) → Access → ℕ)
    (arrive : ℕ → List Trb × Memory → List Trb × Memory) where
  -- The number of bytes, or none for -1. `free` does nothing.
  unfoldable pub usb_control_transfer : Xhci → ℕ → ℕ → ℕ → ℕ → ℕ → ℕ → Option ℕ × Xhci
  usb_control_transfer x bm b_request w_value w_index data_at w_length =
      let (setup, heap) = kmalloc x.heap 8 in
      let x1 = record x {
        heap = heap;
        mem = write_bytes x.mem setup (setup_bytes bm b_request w_value w_index w_length);
      } in
      let (allocated, data_v, x2) = data_buffer x1 bm data_at w_length in
      let (trbs, r, heap2) =
        xhci_prepare_control_transfer x2.command x2.heap setup data_v data_v w_length (is_in bm) in
      let x3 = record x2 { command = r; heap = heap2 } in
      let (ok, x4) = xhci_submit_command_ring bus arrive x3 data_at data_v w_length (is_in bm) in
      if setup == 0
      then (none, record x { heap = heap })
      else if not allocated
      then (none, x2)
      else elim trbs [ none ↦ (none, x3) | some n ↦ (if ok then some w_length else none, x4) ]

-- The network card of nic_stub.c and the RNDIS layer: the switches, and the frames that usb_nic_send and the driver of
-- the card were given.
pub record Nic : Type 0 where
  pub use_usb_nic : Bool
  pub has_callback : Bool
  pub rndis_attached : Bool
  pub usb_sent : List Bytes

abbrev pub usb_nic_enable : Nic → Nic
usb_nic_enable s = record s { use_usb_nic = true }

abbrev pub usb_nic_disable : Nic → Nic
usb_nic_disable s = record s { use_usb_nic = false }

-- The callback is usb_rx_hook, which calls net_rx.
abbrev pub usb_nic_init : Nic → Nic
usb_nic_init s = record s { has_callback = true }

-- A frame is dropped unless the USB card is in use.
unfoldable pub nic_tx : Nic → Bytes → Nic
nic_tx s frame = if s.use_usb_nic then record s { usb_sent = s.usb_sent ++ (frame ∷ []) } else s

unfoldable pub usb_nic_inject_test_frame : Nic → Stack → Bytes → ℕ → Stack × List Datagram
usb_nic_inject_test_frame s r frame len = if s.has_callback then net_rx r frame len else (r, [])

-- No device is known to be one.
abbrev pub usb_is_rndis_or_ecm : Bool
usb_is_rndis_or_ecm = false

unfoldable pub usb_rndis_try_attach : Nic → Bool × Nic
usb_rndis_try_attach s =
    if usb_is_rndis_or_ecm then (true, record s { rndis_attached = true }) else (false, s)

unfoldable pub usb_rndis_send_frame : Nic → Bytes → Nic
usb_rndis_send_frame s frame = if s.rndis_attached then nic_tx s frame else s

-- Whether a network device was attached; none is a search for the controller that has not ended.
unfoldable pub usb_core_enumerate_and_attach_network :
    (ℕ → ℕ) → (List (Access × ℕ) → Access → ℕ) → ℕ → Xhci → Nic → Option (Bool × Nic)
usb_core_enumerate_and_attach_network bus_read bus fuel x s =
    elim (xhci_probe bus_read bus fuel x) [
      | none ↦ none
      | some (negsuc r, x1) ↦ some (false, s)
      | some (pos r, (ws, x1)) ↦ elim (usb_enumerate_device bus_read bus x1) [
        | none ↦ some (false, s)
        | some addr ↦ some (usb_rndis_try_attach s)
      ]
    ]
