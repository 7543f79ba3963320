-- ===== src/Pci/Scan.antt =====
-- The search for a device of a class, which xhci.c and e1000e.c make as pci.c makes that for a device of a vendor.
use os_from_scratch_graphic.Prelude.{
  ℕ, zero, suc, ◌+◌, ◌%◌, ◌^◌, Bool, ◌&&◌, Option, none, some, ◌==◌, bit_and, ltb, if◌then◌else◌,
}
use os_from_scratch_graphic.Pci.{
  Place, Search, found, absent, unended, pci_config_read16, pci_config_read8,
}

module _ (bus_read : ℕ → ℕ) (wanted : Place → Bool) where
  -- `for(uint8_t func=0; func<8; ++func)` with `n` functions left.
  unfoldable pub scan_func : ℕ → ℕ → ℕ → ℕ → Option Place
  scan_func bus slot func zero = none
  scan_func bus slot func (suc n) =
      let p : Place = record { bus = bus; slot = slot; func = func } in
      let rest = scan_func bus slot (func + 1) n in
      if pci_config_read16 bus_read p 0x00 == 0xffff
      then rest
      else if wanted p
      then some p
      else if (bit_and (pci_config_read8 bus_read (record p { func = 0 }) 0x0e) 0x80 == 0)
          && (func == 0)
      then none
      else rest

  -- `for(uint8_t slot=0; slot<32; ++slot)` with `n` slots left.
  unfoldable pub scan_slot : ℕ → ℕ → ℕ → Option Place
  scan_slot bus slot zero = none
  scan_slot bus slot (suc n) =
      let rest = scan_slot bus (slot + 1) n in
      elim (scan_func bus slot 0 8) [ some p ↦ some p | none ↦ rest ]

  -- `for(uint8_t bus=0; bus<256; ++bus)` from one bus on; the counter has eight bits.
  unfoldable pub scan_bus : ℕ → ℕ → Search
  scan_bus bus zero = unended
  scan_bus bus (suc fuel) =
      let rest = scan_bus ((bus + 1) % 2 ^ 8) fuel in
      if ltb bus 256 then elim (scan_slot bus 0 32) [ some p ↦ found p | none ↦ rest ] else absent
