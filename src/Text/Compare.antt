-- ===== src/Text/Compare.antt =====
-- string.c: strlen, strcmp and strncmp against the texts that their arguments hold.
use os_from_scratch_graphic.Prelude.{
  ℕ, zero, suc, ◌≡◌, ◌↔◌, [], ◌∷◌, arith, ◌==◌, if◌then◌else◌, length, take, refl,
}
use os_from_scratch_graphic.Prelude.Int.{pos}
use os_from_scratch_graphic.Endian.{Bytes}
use os_from_scratch_graphic.Text.{strlen, strcmp, strncmp}

-- The bytes in front of the terminator.
unfoldable pub text : Bytes → Bytes
text [] = []
text (c ∷ s) = let rest = text s in if c == 0 then [] else c ∷ rest

-- strlen is the length of the text.
pub strlen-eq-length : (s : Bytes) → strlen s ≡ length (text s)
unfolding strlen text
strlen-eq-length [] = refl
strlen-eq-length (c ∷ s) = ground (arith, strlen-eq-length s)

-- strcmp returns 0 exactly for two buffers that hold the same text.
pub strcmp-eq-zero : (s t : Bytes) → (strcmp s t ≡ pos 0) ↔ (text s ≡ text t)
unfolding strcmp text
strcmp-eq-zero [] [] = ground arith
strcmp-eq-zero [] (b ∷ t) = ground arith
strcmp-eq-zero (a ∷ s) [] = ground arith
strcmp-eq-zero (a ∷ s) (b ∷ t) = ground (arith, strcmp-eq-zero s t)

-- strncmp returns 0 exactly for two texts that agree in their first `n` bytes.
pub strncmp-eq-zero :
    (s t : Bytes) (n : ℕ) → (strncmp s t n ≡ pos 0) ↔ (take n (text s) ≡ take n (text t))
unfolding strncmp text
strncmp-eq-zero s t zero = ground arith
strncmp-eq-zero [] [] (suc n) = ground arith
strncmp-eq-zero [] (b ∷ t) (suc n) = ground arith
strncmp-eq-zero (a ∷ s) [] (suc n) = ground arith
strncmp-eq-zero (a ∷ s) (b ∷ t) (suc n) = ground (arith, strncmp-eq-zero s t n)
