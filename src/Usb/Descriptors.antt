-- ===== src/Usb/Descriptors.antt =====
-- usb/xhci.c: the enumeration of a device, and the walk over its configuration descriptor.
use os_from_scratch_graphic.Prelude.{
  ℕ, zero, suc, ◌+◌, ◌*◌, Bool, true, false, not, ◌&&◌, ◌||◌, Option, none, some, List, leb, ltb,
  ◌==◌, if◌then◌else◌,
}
use os_from_scratch_graphic.Endian.{Bytes, byte}
use os_from_scratch_graphic.Memory.{Memory, memset}
use os_from_scratch_graphic.Alloc.{kmalloc}
use os_from_scratch_graphic.Tcp.Api.{bytes_from}
use os_from_scratch_graphic.Usb.Command.{Trb}
use os_from_scratch_graphic.Usb.Events.{Access, Xhci}
use os_from_scratch_graphic.Usb.Slot.{xhci_init_device_context, xhci_send_enable_slot}
use os_from_scratch_graphic.Usb.Transfer.{xhci_get_device_descriptor, xhci_get_config_descriptor}

-- `if_class == 0x02 || if_class == 0x0A || if_class == 0xFF`
abbrev pub is_net_class : ℕ → Bool
is_net_class c = c == 0x02 || c == 0x0a || c == 0xff

-- The descriptor at an offset is that of an interface with such a class.
unfoldable pub is_net_interface : Bytes → ℕ → Bool
is_net_interface full off =
    byte full (off + 1) == 0x04 && leb 9 (byte full off) && is_net_class (byte full (off + 5))

-- `while(off + 2 <= totlen)`: whether an interface was found; none is a loop that has not ended.
unfoldable pub find_net : ℕ → Bytes → ℕ → ℕ → Bool → Option Bool
find_net zero full totlen off found = none
find_net (suc fuel) full totlen off found =
    let blen = byte full off in
    let found' = found || is_net_interface full off in
    let rest = find_net fuel full totlen (off + blen) found' in
    if not (leb (off + 2) totlen)
    then some found
    else if ltb blen 2
    then some found
    else if leb totlen (off + blen)
    then some found'
    else rest

-- One round moves on by two bytes at least.
unfoldable pub found_net : Bytes → ℕ → Option Bool
found_net full totlen = find_net (suc totlen) full totlen 0 false

module _ (bus : List (Access × ℕ) → Access → ℕ)
    (arrive : ℕ → List Trb × Memory → List Trb × Memory) where
  -- The slot, enabled where it is not yet; false where that fails.
  unfoldable pub ensure_slot : Xhci → Bool × Xhci
  ensure_slot x =
      let (sent, x1) = xhci_send_enable_slot bus arrive x in
      let (made, x2) = xhci_init_device_context x1 in
      if x.slot_enabled
      then (true, x)
      else if not sent
      then (false, x1)
      else if not made
      then (false, x2)
      else (true, record x2 { slot_enabled = true })

  -- The whole configuration descriptor, after its header of 9 bytes at `hdr`: what was found in it. The walk may read a
  -- few bytes behind it.
  unfoldable pub inspect_config : Xhci → ℕ → Option Bool × Xhci
  inspect_config x hdr =
      let totlen = x.mem (hdr + 2) + x.mem (hdr + 3) * 256 in
      let (full, heap) = kmalloc x.heap totlen in
      let (got, x1) =
        xhci_get_config_descriptor bus arrive
          (record x { heap = heap; mem = memset x.mem full 0 totlen }) full totlen in
      if totlen == 0 || ltb 4096 totlen
      then (none, x)
      else if full == 0
      then (none, record x { heap = heap })
      else if not got
      then (none, x1)
      else (found_net (bytes_from x1.mem full (totlen + 8)) totlen, x1)

  -- The two buffers on the stack are at `desc` and `hdr`. Whether the device descriptor was read, what was found in
  -- the configuration where it was read, and the state.
  unfoldable pub xhci_enumerate_once : Xhci → ℕ → ℕ → Bool × Option Bool × Xhci
  xhci_enumerate_once x desc hdr =
      let (enabled, x1) = ensure_slot x in
      let (got, x2) =
        xhci_get_device_descriptor bus arrive (record x1 { mem = memset x1.mem desc 0 18 }) desc
          18 in
      let (head, x3) =
        xhci_get_config_descriptor bus arrive (record x2 { mem = memset x2.mem hdr 0 9 }) hdr 9 in
      let (found, x4) = inspect_config x3 hdr in
      if not enabled
      then (false, none, x1)
      else if not got
      then (false, none, x2)
      else if not head
      then (true, none, x3)
      else (true, found, x4)
