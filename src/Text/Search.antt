-- ===== src/Text/Search.antt =====
-- string.c: strchr and strstr find the first occurrence in the text.
use os_from_scratch_graphic.Prelude.{
  ℕ, zero, suc, ◌%◌, ◌<◌, ◌≡◌, ◌≢◌, ◌↔◌, refl, true, Option, none, some, [], ◌∷◌, arith, length,
  take, drop, ◌==◌, Bool-cases, inl, inr,
}
use os_from_scratch_graphic.Endian.{Bytes, byte}
use os_from_scratch_graphic.Text.{strchr, starts_with, strstr, strstr_loop}
use os_from_scratch_graphic.Text.Compare.{text}

-- What strchr may return for `c` in a text: the first offset of `c`, or nothing if there is none.
abbrev pub IsFirst : ℕ → Bytes → Option ℕ → Type 0
IsFirst c s none = (i : ℕ) → i < length s → byte s i ≢ c
IsFirst c s (some k) = (k < length s) × (byte s k ≡ c) × ((i : ℕ) → i < k → byte s i ≢ c)

IsFirst-cons :
    (c a : ℕ) (s : Bytes) (o : Option ℕ)
    → a ≢ c
    → IsFirst c s o
    → IsFirst c (a ∷ s) (elim o [ none ↦ none | some i ↦ some (suc i) ])
IsFirst-cons c a s none ne h = elim [ zero ↦ λ l. ne | suc i ↦ λ l. h i (omega arith) ]
IsFirst-cons c a s (some k) ne h =
    (omega arith, h.1, elim [ zero ↦ λ l. ne | suc i ↦ λ l. h.2 i (omega arith) ])

-- strchr returns the first offset of the byte in the text, and nothing if the text has none.
pub strchr-IsFirst : (s : Bytes) (c : ℕ) → IsFirst (c % 256) (text s) (strchr s c)
unfolding strchr text
strchr-IsFirst [] c = λ i l. absurd (omega arith)
strchr-IsFirst (a ∷ s) c = elim (Bool-cases (a == 0)) [
  | inl z ↦ rw z (λ i l. absurd (omega arith))
  | inr z ↦ rw z (elim (Bool-cases (a == c % 256)) [
    | inl e ↦ rw e (omega arith, ground arith, λ i l. absurd (omega arith))
    | inr e ↦
        rw e (IsFirst-cons (c % 256) a (text s) (strchr s c) (ground arith) (strchr-IsFirst s c))
  ])
]

-- The needle stands at offset `k` of the text.
abbrev pub OccursAt : Bytes → Bytes → ℕ → Type 0
OccursAt h n k = take (length n) (drop k h) ≡ n

pub starts_with_iff :
    (h n : Bytes) → (starts_with h n ≡ true) ↔ (take (length (text n)) (text h) ≡ text n)
unfolding starts_with text
starts_with_iff [] [] = ground arith
starts_with_iff (a ∷ h) [] = ground arith
starts_with_iff [] (b ∷ n) = ground arith
starts_with_iff (a ∷ h) (b ∷ n) = ground (arith, starts_with_iff h n)

-- What strstr may return: the first offset of the needle, or nothing if it does not occur.
abbrev pub IsFirstMatch : Bytes → Bytes → Option ℕ → Type 0
IsFirstMatch h n none = (i : ℕ) → ¬ OccursAt h n i
IsFirstMatch h n (some k) = OccursAt h n k × ((i : ℕ) → i < k → ¬ OccursAt h n i)

IsFirstMatch-cons :
    (n : Bytes) (a : ℕ) (h : Bytes) (o : Option ℕ)
    → ¬ OccursAt (a ∷ h) n 0
    → IsFirstMatch h n o
    → IsFirstMatch (a ∷ h) n (elim o [ none ↦ none | some i ↦ some (suc i) ])
IsFirstMatch-cons n a h none ne f = elim [ zero ↦ ne | suc i ↦ f i ]
IsFirstMatch-cons n a h (some k) ne f =
    (f.0, elim [ zero ↦ λ l. ne | suc i ↦ λ l. f.1 i (omega arith) ])

-- A needle with a first byte does not occur in the empty text.
not-OccursAt-nil : (b : ℕ) (n : Bytes) (i : ℕ) → ¬ OccursAt [] (b ∷ n) i
not-OccursAt-nil b n zero = λ e. cc e
not-OccursAt-nil b n (suc i) = λ e. cc e

strstr_loop-IsFirstMatch :
    (h n : Bytes) (b : ℕ) (t : Bytes)
    → text n ≡ b ∷ t
    → IsFirstMatch (text h) (text n) (strstr_loop h n)
unfolding strstr_loop text
strstr_loop-IsFirstMatch [] n b t e = rw e (not-OccursAt-nil b t)
strstr_loop-IsFirstMatch (a ∷ h) n b t e = elim (Bool-cases (a == 0)) [
  | inl z ↦ rw (z, e) (not-OccursAt-nil b t)
  | inr z ↦ elim (Bool-cases (starts_with (a ∷ h) n)) [
    | inl m ↦ rw (z, m) (ground (arith, starts_with_iff (a ∷ h) n), λ i l. absurd (omega arith))
    | inr m ↦
        rw (z, m)
          (IsFirstMatch-cons (text n) a (text h) (strstr_loop h n)
            (λ o. ground (arith, starts_with_iff (a ∷ h) n)) (strstr_loop-IsFirstMatch h n b t e))
  ]
]

text-first : (b : ℕ) (n : Bytes) → b ≢ 0 → text (b ∷ n) ≡ b ∷ text n
unfolding text
text-first b n h = ground arith

text-empty : (n : Bytes) → byte n 0 ≡ 0 → text n ≡ []
unfolding text
text-empty [] h = refl
text-empty (b ∷ n) h = ground arith

-- strstr returns the first offset at which the needle's text stands in the haystack's, and nothing
-- if it stands nowhere. An empty needle is found at offset 0.
pub strstr-IsFirstMatch : (h n : Bytes) → IsFirstMatch (text h) (text n) (strstr h n)
unfolding strstr
strstr-IsFirstMatch h [] = rw (text-empty [] refl) (refl, λ i l. absurd (omega arith))
strstr-IsFirstMatch h (b ∷ n) = elim (Bool-cases (b == 0)) [
  | inl z ↦ rw (z, text-empty (b ∷ n) (ground arith)) (refl, λ i l. absurd (omega arith))
  | inr z ↦ rw z (strstr_loop-IsFirstMatch h (b ∷ n) b (text n) (text-first b n (ground arith)))
]
