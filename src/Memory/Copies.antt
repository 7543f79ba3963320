-- ===== src/Memory/Copies.antt =====
-- string.c: what a fill and a copy leave at every address.
use os_from_scratch_graphic.Prelude.{
  ℕ, zero, suc, ◌+◌, ◌-◌, ◌%◌, ◌≤◌, ◌≡◌, ◌⊎◌, inl, inr, Bool, ◌&&◌, arith, ltb, leb, if◌then◌else◌,
}
use os_from_scratch_graphic.Memory.{Memory, poke, memset, memcpy, copy_down, memmove}

-- The address lies in the run of `n` bytes from `p`.
abbrev pub in_run : ℕ → ℕ → ℕ → Bool
in_run p n q = leb p q && ltb q (p + n)

-- memset writes the low byte of the value to each address of the run, and to no other.
pub memset_lem :
    (m : Memory) (p v n q : ℕ) → memset m p v n q ≡ (if in_run p n q then v % 256 else m q)
unfolding memset
memset_lem m p v zero q = ground arith
memset_lem m p v (suc n) q = ground (arith, memset_lem (poke m p (v % 256)) (p + 1) v n q)

-- The bytes that the source held before the copy.
abbrev pub copied : Memory → ℕ → ℕ → ℕ → ℕ → ℕ
copied m d s n q = if in_run d n q then m (s + (q - d)) else m q

memcpy_up : (m : Memory) (d s n q : ℕ) → d ≤ s → memcpy m d s n q ≡ copied m d s n q
unfolding memcpy
memcpy_up m d s zero q h = ground arith
memcpy_up m d s (suc n) q h =
    ground (arith, memcpy_up (poke m d (m s)) (d + 1) (s + 1) n q (omega arith))

memcpy_apart : (m : Memory) (d s n q : ℕ) → s + n ≤ d → memcpy m d s n q ≡ copied m d s n q
unfolding memcpy
memcpy_apart m d s zero q h = ground arith
memcpy_apart m d s (suc n) q h =
    ground (arith, memcpy_apart (poke m d (m s)) (d + 1) (s + 1) n q (omega arith))

copy_down_lem : (m : Memory) (d s n q : ℕ) → s ≤ d → copy_down m d s n q ≡ copied m d s n q
unfolding copy_down
copy_down_lem m d s zero q h = ground arith
copy_down_lem m d s (suc n) q h =
    ground (arith, copy_down_lem (poke m (d + n) (m (s + n))) d s n q h)

-- memcpy moves the bytes that the source held, if the destination starts at or below the source or
-- the runs do not overlap, and writes no other address.
pub memcpy_lem :
    (m : Memory) (d s n q : ℕ) → (d ≤ s) ⊎ (s + n ≤ d) → memcpy m d s n q ≡ copied m d s n q
memcpy_lem m d s n q (inl h) = memcpy_up m d s n q h
memcpy_lem m d s n q (inr h) = memcpy_apart m d s n q h

-- memmove moves the bytes that the source held before the call, however the runs overlap, and
-- writes no address outside the destination.
pub memmove_lem : (m : Memory) (d s n q : ℕ) → memmove m d s n q ≡ copied m d s n q
unfolding memmove
memmove_lem m d s n q = ground (arith, memcpy_up m d s n q, copy_down_lem m d s n q)
