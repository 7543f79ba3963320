-- ===== src/Pci/Find.antt =====
-- pci.c: what the search for a device finds.
use os_from_scratch_graphic.Prelude.{
  ℕ, zero, suc, ◌+◌, ◌%◌, ◌^◌, ◌≡◌, ◌≢◌, ◌≤◌, ◌<◌, refl, true, false, Bool, ltb, if◌then◌else◌,
  Option, none, some, arith, ◌==◌, ap, Bool-cases, Option-cases, inl, inr,
}
use mathlib.Core.Path.{subst}
use os_from_scratch_graphic.Pci.{
  Place, is_device, find_func, find_slot, pci_find_device, Search, found, absent, unended,
}

module _ (bus_read : ℕ → ℕ) (vendor device : ℕ) where
  -- What a search may give: a place that holds the device.
  abbrev pub IsFound : Option Place → Type 0
  IsFound none = Unit
  IsFound (some p) = is_device bus_read vendor device p ≡ true

  find_func-IsFound :
      (bus slot func n : ℕ) → IsFound (find_func bus_read vendor device bus slot func n)
  unfolding find_func
  find_func-IsFound bus slot func zero = tt
  find_func-IsFound bus slot func (suc n) = ground (arith, find_func-IsFound bus slot (func + 1) n)

  or_else :
      (o rest : Option Place)
      → IsFound o
      → IsFound rest
      → IsFound (elim o [ some p ↦ some p | none ↦ rest ])
  or_else none rest h r = r
  or_else (some p) rest h r = h

  find_slot-IsFound : (bus slot n : ℕ) → IsFound (find_slot bus_read vendor device bus slot n)
  unfolding find_slot
  find_slot-IsFound bus slot zero = tt
  find_slot-IsFound bus slot (suc n) =
      or_else _ _ (find_func-IsFound bus slot 0 8) (find_slot-IsFound bus (slot + 1) n)

  -- What a whole search may give.
  abbrev pub IsRight : Search → Type 0
  IsRight (found p) = is_device bus_read vendor device p ≡ true
  IsRight absent = Unit
  IsRight unended = Unit

  bus_step :
      (o : Option Place) (rest : Search) (in_range : Bool)
      → IsFound o
      → IsRight rest
      → IsRight (if in_range then elim o [ some p ↦ found p | none ↦ rest ] else absent)
  bus_step none rest true h r = r
  bus_step (some p) rest true h r = h
  bus_step o rest false h r = tt

  -- A search that ends with a place gives one whose vendor and device are those asked for.
  pub pci_find_device-IsRight :
      (bus fuel : ℕ) → IsRight (pci_find_device bus_read vendor device bus fuel)
  unfolding pci_find_device
  pci_find_device-IsRight bus zero = tt
  pci_find_device-IsRight bus (suc fuel) =
      bus_step _ _ (ltb bus 256) (find_slot-IsFound bus 0 32)
        (pci_find_device-IsRight ((bus + 1) % 2 ^ 8) fuel)

  slot_missing :
      (bus : ℕ)
      → ((p : Place) → is_device bus_read vendor device p ≡ false)
      → find_slot bus_read vendor device bus 0 32 ≡ none
  slot_missing bus nowhere =
      missing (find_slot bus_read vendor device bus 0 32) (find_slot-IsFound bus 0 32)
    where
      missing : (o : Option Place) → IsFound o → o ≡ none
      missing none h = refl
      missing (some p) h = ground (arith, nowhere p)

  -- If no place holds the device, the search does not return: it has neither found it nor returned 0 after any
  -- number of buses, since the counter of buses wraps before it reaches the end.
  pub pci_find_device-absent :
      (fuel bus : ℕ)
      → bus < 256
      → ((p : Place) → is_device bus_read vendor device p ≡ false)
      → pci_find_device bus_read vendor device bus fuel ≡ unended
  unfolding pci_find_device
  pci_find_device-absent zero bus small nowhere = refl
  pci_find_device-absent (suc fuel) bus small nowhere =
      rw (slot_missing bus nowhere, in_range)
        (pci_find_device-absent fuel ((bus + 1) % 2 ^ 8) (omega arith) nowhere)
    where
      in_range : ltb bus 256 ≡ true
      in_range = ground arith

  -- A search that has ended with a device.
  abbrev pub Ended : Search → Type 0
  Ended o = (p : Place) × (o ≡ found p) × (is_device bus_read vendor device p ≡ true)

  func_zero :
      (bus slot n : ℕ)
      → vendor ≢ 0xffff
      → is_device bus_read vendor device (record { bus = bus; slot = slot; func = 0 }) ≡ true
      → find_func bus_read vendor device bus slot 0 (suc n)
        ≡ some (record { bus = bus; slot = slot; func = 0 })
  unfolding find_func
  func_zero bus slot n real holds = ground arith

  slot_ends :
      (bus s k n : ℕ)
      → vendor ≢ 0xffff
      → is_device bus_read vendor device (record { bus = bus; slot = s; func = 0 }) ≡ true
      → k ≤ s
      → s < k + n
      → (p : Place) × (find_slot bus_read vendor device bus k n ≡ some p)
  unfolding find_slot
  slot_ends bus s k zero real holds l h = absurd (omega arith)
  slot_ends bus s k (suc n) real holds l h =
      elim (Option-cases (find_func bus_read vendor device bus k 0 8)) [
        | inr (p, e) ↦ (p, rw (e, find_slot) refl)
        | inl missed ↦ elim (Bool-cases (k == s)) [
          | inl same ↦ absurd (
              ground (
                arith,
                func_zero bus s 7 real holds,
                missed,
                ap (λ k'. find_func bus_read vendor device bus k' 0 8) {x = k} {y = s},
              ))
          | inr other ↦
              rw (missed, find_slot)
                (slot_ends bus s (k + 1) n real holds (ground arith) (omega arith))
        ]
      ]

  bus_ends :
      (b s k fuel : ℕ)
      → vendor ≢ 0xffff
      → is_device bus_read vendor device (record { bus = b; slot = s; func = 0 }) ≡ true
      → s < 32
      → k ≤ b
      → b < k + fuel
      → b < 256
      → (p : Place) × (pci_find_device bus_read vendor device k fuel ≡ found p)
  unfolding pci_find_device
  bus_ends b s k zero real holds hs l h top = absurd (omega arith)
  bus_ends b s k (suc fuel) real holds hs l h top =
      elim (Option-cases (find_slot bus_read vendor device k 0 32)) [
        | inr (p, e) ↦ (p, rw (e, in_range l top, pci_find_device) refl)
        | inl missed ↦ elim (Bool-cases (k == b)) [
          | inl same ↦ absurd (
              no_slot (slot_ends b s 0 32 real holds (omega arith) (omega arith)) (
                ground (
                  arith,
                  missed,
                  ap (λ k'. find_slot bus_read vendor device k' 0 32) {x = k} {y = b},
                )))
          | inr other ↦
              rw (missed, in_range l top, pci_find_device)
                (bus_ends b s ((k + 1) % 2 ^ 8) fuel real holds hs (ground arith) (ground arith)
                  top)
        ]
      ]
    where
      in_range : k ≤ b → b < 256 → ltb k 256 ≡ true
      in_range below small = ground arith

      no_slot :
          (p : Place) × (find_slot bus_read vendor device b 0 32 ≡ some p)
          → find_slot bus_read vendor device b 0 32 ≡ none
          → ⊥
      no_slot (p, e) none_there = ground (arith, e, none_there)

  -- A device that answers at function 0 of some slot makes the search end within 256 buses, at a
  -- place whose vendor and device are those asked for.
  pub pci_find_device-present :
      (b s : ℕ)
      → vendor ≢ 0xffff
      → is_device bus_read vendor device (record { bus = b; slot = s; func = 0 }) ≡ true
      → s < 32
      → b < 256
      → Ended (pci_find_device bus_read vendor device 0 256)
  pci_find_device-present b s real holds hs top =
      right (bus_ends b s 0 256 real holds hs (omega arith) (omega arith) top)
        (pci_find_device-IsRight 0 256)
    where
      right : {o : Search} → (p : Place) × (o ≡ found p) → IsRight o → Ended o
      right {o} (p, e) h = (p, e, subst (λ o'. IsRight o') e h)
