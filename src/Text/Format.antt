-- ===== src/Text/Format.antt =====
-- string.c: snprintf writes the expanded format, cut to the buffer.
use os_from_scratch_graphic.Prelude.{
  ℕ, zero, suc, ◌-◌, ◌<◌, ◌≡◌, refl, sym, ap, ◌∙◌, ◌&&◌, false, List, [], ◌∷◌, ◌++◌, arith, length,
  take, ◌==◌, if◌then◌else◌,
}
use os_from_scratch_graphic.Endian.{Bytes}
use os_from_scratch_graphic.Text.{put_arg, first_arg, later_args, snprintf, snprintf_loop}
use os_from_scratch_graphic.Text.Compare.{text}
use os_from_scratch_graphic.Text.Literals.{codes}
use mathlib.Core.List.{append-nil}

-- The format with each `%s` replaced by the next argument, however long that is.
pub expand : Bytes → List Bytes → Bytes
expand [] args = []
expand (c ∷ []) args = if c == 0 then [] else c ∷ []
expand (c ∷ d ∷ fmt) args =
    let after = text (first_arg args) ++ expand fmt (later_args args) in
    let next = c ∷ expand (d ∷ fmt) args in
    if c == 0 then [] else if c == b'%' && (d == b's') then after else next

take-append : (n : ℕ) (s t : Bytes) → take n (s ++ t) ≡ take n s ++ take (n - length (take n s)) t
take-append zero s t = refl
take-append (suc n) [] t = ap (λ k. take k t) {x = suc n} (omega arith)
take-append (suc n) (c ∷ s) t =
    ap (λ r. c ∷ r) (take-append n s t ∙ ap (λ k. take n s ++ take k t) (omega arith))

put_arg-eq-take : (room : ℕ) (s : Bytes) → put_arg room s ≡ take room (text s)
unfolding put_arg text
put_arg-eq-take zero s = refl
put_arg-eq-take (suc room) [] = refl
put_arg-eq-take (suc room) (c ∷ s) = ground (arith, put_arg-eq-take room s)

take-cons : (n c : ℕ) (s : Bytes) → 0 < n → c ∷ take (n - 1) s ≡ take n (c ∷ s)
take-cons zero c s h = absurd (omega arith)
take-cons (suc n) c s h = ap (λ k. c ∷ take k s) (omega arith)

take-nil : (n : ℕ) → take {A = ℕ} n [] ≡ []
take-nil zero = refl
take-nil (suc n) = refl

snprintf_loop-eq-take :
    (room : ℕ) (fmt : Bytes) (args : List Bytes)
    → snprintf_loop room fmt args ≡ take room (expand fmt args)
unfolding snprintf_loop expand
snprintf_loop-eq-take room [] args = sym (take-nil room)
snprintf_loop-eq-take zero (c ∷ []) args = refl
snprintf_loop-eq-take (suc room) (c ∷ []) args = ground (arith, take-nil room)
snprintf_loop-eq-take zero (c ∷ d ∷ fmt) args = refl
snprintf_loop-eq-take (suc room) (c ∷ d ∷ fmt) args = ground (
  arith,
  put_arg-eq-take (suc room) (first_arg args),
  snprintf_loop-eq-take (suc room - length (put_arg (suc room) (first_arg args))) fmt
      (later_args args),
  snprintf_loop-eq-take (suc room - 1) (d ∷ fmt) args,
  take-append (suc room) (text (first_arg args)) (expand fmt (later_args args)),
  take-cons (suc room) c (expand (d ∷ fmt) args),
)

-- snprintf with a size of n + 1 writes the expanded format cut to n bytes, and a terminator: never
-- more than the size, and all of the expansion where it fits.
pub snprintf-eq-take :
    (n : ℕ) (fmt : Bytes) (args : List Bytes)
    → snprintf (suc n) fmt args ≡ take n (expand fmt args) ++ (0 ∷ [])
unfolding snprintf
snprintf-eq-take n fmt args =
    let size : suc n - 1 ≡ n = omega arith in
    let some_room : (suc n == 0) ≡ false = ground arith in
    rw (some_room, size) (ap (λ r. r ++ (0 ∷ [])) (snprintf_loop-eq-take n fmt args))

-- The format of a key and its value.
pub expand_pair :
    (a b : Bytes) → expand (codes "%s: %s") (a ∷ (b ∷ [])) ≡ text a ++ (b':' ∷ b' ' ∷ text b)
unfolding expand
expand_pair a b = ap (λ r. text a ++ (b':' ∷ b' ' ∷ r)) (append-nil (text b))
