-- ===== src/Usb/Probe.antt =====
-- usb/xhci.c: the search for the controller, and its ports.
use os_from_scratch_graphic.Prelude.{
  ℕ, zero, suc, ◌+◌, ◌-◌, ◌*◌, ◌/◌, ◌%◌, ◌^◌, Bool, ◌&&◌, ◌||◌, Option, none, some, List, [], ◌∷◌,
  ◌==◌, bit_and, bit_or, if◌then◌else◌,
}
use os_from_scratch_graphic.Prelude.Int.{ℤ, pos, negsuc}
use os_from_scratch_graphic.Pci.{
  Place, found, absent, unended, pci_config_addr, pci_config_read32, pci_config_read8,
}
use os_from_scratch_graphic.Pci.Scan.{scan_bus}
use os_from_scratch_graphic.Usb.Events.{Access, mmio, Context, Xhci, cap_register}
use os_from_scratch_graphic.Usb.Program.{xhci_op_read32}

module _ (bus_read : ℕ → ℕ) (bus : List (Access × ℕ) → Access → ℕ) where
  -- XHCI_CLASS and XHCI_SUBCLASS
  abbrev pub is_xhci : Place → Bool
  is_xhci p = pci_config_read8 bus_read p 0x0b == 0x0c && pci_config_read8 bus_read p 0x0a == 0x03

  -- `xhci_cap_read32`
  abbrev pub xhci_cap_read32 : Xhci → ℕ → ℕ
  xhci_cap_read32 x off = bus x.writes (cap_register x off)

  -- The base of BAR 0, whose lowest bit tells ports from memory.
  abbrev pub bar_base : ℕ → ℕ
  bar_base bar0 = if bit_and bar0 1 == 1 then bar0 / 4 * 4 else bar0 / 16 * 16

  -- What the probe finds out about a controller. CAPLENGTH is read from memory also where BAR 0 names ports. The write to
  -- the configuration space is the first of the two parts of the result.
  unfoldable pub attach : Xhci → Place → (ℕ × ℕ) × Xhci
  attach x p =
      let command = bit_or (pci_config_read32 bus_read p 0x04) 0x0006 in
      let bar0 = pci_config_read32 bus_read p 0x10 in
      let base = bar_base bar0 in
      let caplen = bus x.writes (mmio base) % 2 ^ 8 in
      let here : Context = record {
        phys_base = base;
        cap_is_io = bit_and bar0 1 == 1;
        caplen = caplen;
        num_ports = x.context.num_ports;
      } in
      let x1 = record x { context = here } in
      (
        (pci_config_addr p 0x04, command),
        record x1 {
          context = record here { num_ports = xhci_cap_read32 x1 0x04 / 2 ^ 24 % 2 ^ 8 };
        },
      )

  -- The value returned, the writes to the configuration space and the controller; `none` is a search that
  -- has not ended after `fuel` buses.
  unfoldable pub xhci_probe : ℕ → Xhci → Option (ℤ × (List (ℕ × ℕ) × Xhci))
  xhci_probe fuel x = elim (scan_bus bus_read is_xhci 0 fuel) [
    | unended ↦ none
    | absent ↦ some (negsuc 0, ([], x))
    | found p ↦ let (w, x1) = attach x p in some (pos 0, (w ∷ [], x1))
  ]

  abbrev pub xhci_num_ports : Xhci → ℕ
  xhci_num_ports x = x.context.num_ports

  -- Port 0, and a controller at address 0 with no CAPLENGTH, read as 0.
  unfoldable pub xhci_read_portsc : Xhci → ℕ → ℕ
  xhci_read_portsc x port_index =
      if port_index == 0 || x.context.phys_base + x.context.caplen == 0
      then 0
      else xhci_op_read32 bus x (0x400 + (port_index - 1) * 4)

  -- `for(int i=1;i<=n;i++)` of usb_enumerate_device, from port `i` on: the first port whose register is not 0.
  unfoldable pub first_port : Xhci → ℕ → ℕ → Option ℕ
  first_port x i zero = none
  first_port x i (suc n) =
      let rest = first_port x (suc i) n in if xhci_read_portsc x i == 0 then rest else some i

  -- The address that the device is given: 1, or none for a return of -1.
  unfoldable pub usb_enumerate_device : Xhci → Option ℕ
  usb_enumerate_device x = elim (first_port x 1 (xhci_num_ports x)) [
    | none ↦ none
    | some i ↦ some 1
  ]
