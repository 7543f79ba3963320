-- ===== src/Exec/Extent.antt =====
-- exec_elf.c: the range of addresses that the segments take.
use os_from_scratch_graphic.Prelude.{
  ℕ, ◌^◌, ◌≡◌, ◌≤◌, ◌<◌, ◌-◌, ◌⊎◌, inl, inr, Bool-cases, true, List, [], ◌∷◌, arith,
}
use os_from_scratch_graphic.Exec.{ProgramHeader, is_load, seg_end, widen, extent}
use os_from_scratch_graphic.Exec.Place.{Listed, first, later, Image, end, header}

lt_cases : (a b : ℕ) → (a < b) ⊎ (b ≤ a)
lt_cases a b = omega arith

-- The bounds only widen.
extent-widens :
    (phs : List ProgramHeader) (lo hi : ℕ)
    → ((extent phs lo hi).0 ≤ lo) × (hi ≤ (extent phs lo hi).1)
unfolding extent
extent-widens [] lo hi = (omega arith, omega arith)
extent-widens (ph ∷ phs) lo hi =
    let (lower, upper) = extent-widens phs (widen ph lo hi).0 (widen ph lo hi).1 in
    (ground (arith, lower), ground (arith, upper))

-- And end around every segment to load.
pub extent-covers :
    (phs : List ProgramHeader) (lo hi : ℕ) {ph : ProgramHeader}
    → Listed ph phs
    → is_load ph ≡ true
    → ((extent phs lo hi).0 ≤ ph.p_vaddr) × (seg_end ph ≤ (extent phs lo hi).1)
unfolding extent
extent-covers [] lo hi l load = elim l [ ]
extent-covers (ph ∷ phs) lo hi first load =
    let (lower, upper) = extent-widens phs (widen ph lo hi).0 (widen ph lo hi).1 in
    (ground (arith, lower), ground (arith, upper))
extent-covers (t ∷ phs) lo hi (later l) load =
    extent-covers phs (widen t lo hi).0 (widen t lo hi).1 l load

pub extent-small :
    (phs : List ProgramHeader) (lo hi : ℕ) → hi < 2 ^ 32 → (extent phs lo hi).1 < 2 ^ 32
unfolding extent
extent-small [] lo hi small = small
extent-small (ph ∷ phs) lo hi small =
    extent-small phs (widen ph lo hi).0 (widen ph lo hi).1 (ground arith)

-- The bounds stand in their order once a segment is loaded.
pub extent-ordered :
    {size : ℕ} (phs : List ProgramHeader) (lo hi : ℕ)
    → Image size 0 (2 ^ 32 - 1) phs
    → (extent phs lo hi).0 < lo
    → (extent phs lo hi).0 ≤ (extent phs lo hi).1
unfolding extent
extent-ordered [] lo hi image lower = absurd (omega arith)
extent-ordered (ph ∷ phs) lo hi (header fits apart rest) lower =
    let (low, up) = extent-widens phs (widen ph lo hi).0 (widen ph lo hi).1 in
    elim (lt_cases (extent phs (widen ph lo hi).0 (widen ph lo hi).1).0 (widen ph lo hi).0) [
      | inl below ↦ extent-ordered phs (widen ph lo hi).0 (widen ph lo hi).1 rest below
      | inr level ↦ elim (Bool-cases (is_load ph)) [
        | inl load ↦ let to = (fits load).to in ground (arith, low, up)
        | inr skip ↦ absurd (ground (arith, low, up))
      ]
    ]

-- An image in 32 bits lies in its extent.
pub Image-extent :
    {size : ℕ} (phs : List ProgramHeader) (lo hi : ℕ)
    → Image size 0 (2 ^ 32 - 1) phs
    → ((ph : ProgramHeader)
        → Listed ph phs
        → is_load ph ≡ true
        → (lo ≤ ph.p_vaddr) × (seg_end ph ≤ hi))
    → Image size lo hi phs
Image-extent [] lo hi end covers = end
Image-extent (ph ∷ phs) lo hi (header fits apart rest) covers =
    header
      (λ load. record {
        in_file = (fits load).in_file;
        from = (covers ph first load).0;
        room = (fits load).room;
        to = omega (arith, (fits load).to, (covers ph first load).1);
      })
      apart (Image-extent phs lo hi rest (λ t l load. covers t (later l) load))
