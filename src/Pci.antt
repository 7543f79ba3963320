-- ===== src/Pci.antt =====
-- pci.c: the configuration space and the search for a device.
--
-- The bus answers a 32-bit read at a configuration address; it is a parameter, a function of the
-- address. The ports are left out: a read writes the address to one and reads the other.
pub mod Find
pub mod Scan
mod Tests
use os_from_scratch_graphic.Prelude.{
  ℕ, zero, suc, ◌+◌, ◌*◌, ◌/◌, ◌%◌, ◌^◌, Bool, not, ◌&&◌, Option, none, some, List, [], ◌∷◌, ◌++◌,
  ◌==◌, bit_and, ltb, if◌then◌else◌,
}

-- The three numbers that name a function of a device.
pub record Place : Type 0 where
  pub bus : ℕ
  pub slot : ℕ
  pub func : ℕ

-- How a search can go: `return 1` with the place, `return 0`, or no end within the fuel.
pub data Search : Type 0 where
  found : Place → Search
  absent : Search
  unended : Search

-- The fields share no bit: a slot has five bits and a function three.
abbrev pub pci_config_addr : Place → ℕ → ℕ
pci_config_addr p offset =
    2 ^ 31 + p.bus * 2 ^ 16 + p.slot * 2 ^ 11 + p.func * 2 ^ 8 + bit_and offset 0xfc

-- The two writes of `outl`, each with its port, behind those before.
unfoldable pub pci_config_write32 : List (ℕ × ℕ) → Place → ℕ → ℕ → List (ℕ × ℕ)
pci_config_write32 writes p offset value =
    writes ++ ((0xcf8, pci_config_addr p offset) ∷ ((0xcfc, value) ∷ []))

module _ (bus_read : ℕ → ℕ) where
  abbrev pub pci_config_read32 : Place → ℕ → ℕ
  pci_config_read32 p offset = bus_read (pci_config_addr p offset)

  unfoldable pub pci_config_read16 : Place → ℕ → ℕ
  pci_config_read16 p offset =
      pci_config_read32 p (bit_and offset 0xfc) / 2 ^ (bit_and offset 2 * 8) % 2 ^ 16

  unfoldable pub pci_config_read8 : Place → ℕ → ℕ
  pci_config_read8 p offset =
      pci_config_read32 p (bit_and offset 0xfc) / 2 ^ (bit_and offset 3 * 8) % 2 ^ 8

  abbrev pub is_device : ℕ → ℕ → Place → Bool
  is_device vendor device p =
      (pci_config_read16 p 0x00 == vendor) && (pci_config_read16 p 0x02 == device)

  -- `for(func=...; func<8; ++func)` with `n` functions left.
  unfoldable pub find_func : ℕ → ℕ → ℕ → ℕ → ℕ → ℕ → Option Place
  find_func vendor device bus slot func zero = none
  find_func vendor device bus slot func (suc n) =
      let p : Place = record { bus = bus; slot = slot; func = func } in
      let rest = find_func vendor device bus slot (func + 1) n in
      if pci_config_read16 p 0x00 == 0xffff
      then rest
      else if is_device vendor device p
      then some p
      else if (bit_and (pci_config_read8 (record p { func = 0 }) 0x0e) 0x80 == 0) && (func == 0)
      then none
      else rest

  -- `for(slot=...; slot<32; ++slot)` with `n` slots left.
  unfoldable pub find_slot : ℕ → ℕ → ℕ → ℕ → ℕ → Option Place
  find_slot vendor device bus slot zero = none
  find_slot vendor device bus slot (suc n) =
      let rest = find_slot vendor device bus (slot + 1) n in
      elim (find_func vendor device bus slot 0 8) [ some p ↦ some p | none ↦ rest ]

  -- `for(uint8_t bus=...; bus<256; ++bus)` from one bus on; the counter has eight bits.
  unfoldable pub pci_find_device : ℕ → ℕ → ℕ → ℕ → Search
  pci_find_device vendor device bus zero = unended
  pci_find_device vendor device bus (suc fuel) =
      let rest = pci_find_device vendor device ((bus + 1) % 2 ^ 8) fuel in
      if ltb bus 256
      then elim (find_slot vendor device bus 0 32) [ some p ↦ found p | none ↦ rest ]
      else absent
