-- ===== src/Text/Copy.antt =====
-- string.c: strncpy fills a buffer with as much of the text as fits, and terminates it.
use os_from_scratch_graphic.Prelude.{
  ℕ, zero, suc, ◌-◌, ◌<◌, ◌≡◌, refl, ap, ◌∙◌, [], ◌∷◌, arith, length, length-set, take, set,
}
use os_from_scratch_graphic.Endian.{Bytes}
use os_from_scratch_graphic.Text.{strncpy, copy_name}
use os_from_scratch_graphic.Text.Compare.{text}

-- strncpy with a size that lies in the buffer leaves the text cut to one byte less than the size.
pub text-strncpy :
    (dst src : Bytes) (n : ℕ) → n < length dst → text (strncpy dst src (suc n)) ≡ take n (text src)
unfolding strncpy text
text-strncpy [] src n h = absurd (omega arith)
text-strncpy (d ∷ dst) src zero h = refl
text-strncpy (d ∷ dst) [] (suc n) h = refl
text-strncpy (d ∷ dst) (c ∷ src) (suc n) h = ground (arith, text-strncpy dst src n)

pub length-strncpy : (dst src : Bytes) (n : ℕ) → length (strncpy dst src n) ≡ length dst
unfolding strncpy
length-strncpy dst src zero = refl
length-strncpy [] src (suc n) = refl
length-strncpy (d ∷ dst) src (suc zero) = refl
length-strncpy (d ∷ dst) [] (suc (suc n)) = refl
length-strncpy (d ∷ dst) (c ∷ src) (suc (suc n)) = ground (arith, length-strncpy dst src (suc n))

-- A zero written at offset `i` cuts the text there.
pub text-set_zero : (s : Bytes) (i : ℕ) → i < length s → text (set s i 0) ≡ take i (text s)
unfolding text
text-set_zero [] i h = absurd (omega arith)
text-set_zero (c ∷ s) zero h = refl
text-set_zero (c ∷ s) (suc i) h = ground (arith, text-set_zero s i)

pub take-take-suc : (n : ℕ) (s : Bytes) → take (suc n) (take n s) ≡ take n s
take-take-suc zero [] = refl
take-take-suc zero (c ∷ s) = refl
take-take-suc (suc n) [] = refl
take-take-suc (suc n) (c ∷ s) = ap (λ r. c ∷ r) (take-take-suc n s)

-- A buffer of `n + 2` bytes keeps its size, and holds the first `n` bytes of the text afterwards.
pub copy_name_lem :
    (dst src : Bytes) (n : ℕ)
    → length dst ≡ suc (suc n)
    → (length (copy_name dst src) ≡ suc (suc n)) × (text (copy_name dst src) ≡ take n (text src))
unfolding copy_name
copy_name_lem dst src n h =
    let size : length dst - 1 ≡ suc n = omega arith in
    (
      rw size
          (length-set (strncpy dst src (suc n)) (suc n) 0 ∙ (length-strncpy dst src (suc n) ∙ h)),
      rw size (
          text-set_zero (strncpy dst src (suc n)) (suc n)
            (omega (arith, length-strncpy dst src (suc n)))
          ∙ (ap (take (suc n)) (text-strncpy dst src n (omega arith))
              ∙ take-take-suc n (text src))),
    )
