-- ===== src/Pci/Tests.antt =====
-- pci.c on a bus with no device and on one with a network card.
use os_from_scratch_graphic.Prelude.{ℕ, ◌≡◌, refl, ◌==◌, if◌then◌else◌, false, true, arith}
use os_from_scratch_graphic.Pci.{
  Place, pci_config_read16, pci_config_read8, is_device, find_func, find_slot, pci_find_device,
  found, unended,
}
use os_from_scratch_graphic.Pci.Find.{Ended, pci_find_device-present, pci_find_device-absent}

-- Every read gives ones.
abbrev empty_bus : ℕ → ℕ
empty_bus a = 0xffffffff

-- An RTL8139 in slot 3 of bus 0.
abbrev card_bus : ℕ → ℕ
card_bus a = if a == 0x80001800 then 0x813910ec else 0xffffffff

card_found :
    pci_find_device card_bus 0x10ec 0x8139 0 1 ≡ found (record { bus = 0; slot = 3; func = 0 })
unfolding pci_find_device find_slot find_func pci_config_read16 pci_config_read8
card_found = refl

nothing_there : (p : Place) → is_device empty_bus 0x10ec 0x8139 p ≡ false
unfolding pci_config_read16
nothing_there p = refl

pci_find_device-absent_example : pci_find_device empty_bus 0x10ec 0x8139 0 1000 ≡ unended
pci_find_device-absent_example =
    pci_find_device-absent empty_bus 0x10ec 0x8139 1000 0 (omega arith) nothing_there

card-is_device : is_device card_bus 0x10ec 0x8139 (record { bus = 0; slot = 3; func = 0 }) ≡ true
unfolding pci_config_read16
card-is_device = refl

pci_find_device-present_example :
    Ended card_bus 0x10ec 0x8139 (pci_find_device card_bus 0x10ec 0x8139 0 256)
pci_find_device-present_example =
    pci_find_device-present card_bus 0x10ec 0x8139 0 3 (omega arith) card-is_device (omega arith)
      (omega arith)
