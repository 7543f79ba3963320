-- ===== src/Kernel/Operands.antt =====
-- kernel.c: what the calculator makes of an expression with several operands.
use os_from_scratch_graphic.Prelude.{
  ℕ, zero, suc, Bool, true, false, List, [], ◌∷◌, ◌++◌, if◌then◌else◌,
}
use os_from_scratch_graphic.Prelude.Int.{ℤ, pos, ◌+ℤ◌, ◌-ℤ◌, ◌*ℤ◌}
use os_from_scratch_graphic.Endian.{Bytes}
use os_from_scratch_graphic.Kernel.Calculator.{quotient}
use os_from_scratch_graphic.Kernel.Arithmetic.{AreDigits, number}

-- The keys of the four operators.
pub data Operator : Type 0 where
  plus minus times over : Operator

abbrev pub key : Operator → ℕ
key plus = b'+'
key minus = b'-'
key times = b'*'
key over = b'/'

-- What they mean; a division by 0 leaves the value.
abbrev pub meaning : Operator → ℤ → ℕ → ℤ
meaning plus a n = a +ℤ pos n
meaning minus a n = a -ℤ pos n
meaning times a n = a *ℤ pos n
meaning over a zero = a
meaning over a (suc n) = quotient a (suc n)

-- An operator with its operand, the first character and the others.
pub record Term : Type 0 where
  pub op : Operator
  pub head : ℕ
  pub tail : Bytes

abbrev pub is_empty : Bytes → List Term → Bool
is_empty [] [] = true
is_empty [] (t ∷ ts) = false
is_empty (d ∷ ds) ts = false

-- The text of an expression.
unfoldable pub written : Bytes → List Term → Bytes
written ds [] = ds
written ds (t ∷ ts) = ds ++ (key t.op ∷ t.head ∷ written t.tail ts)

abbrev pub AreTerms : List Term → Type 0
AreTerms [] = Unit
AreTerms (t ∷ ts) = AreDigits t.tail × AreTerms ts

-- The value with the first character of each later operand left out, from the left to the right; where nothing
-- is left at the end, the last operator does nothing.
unfoldable pub shortened : ℤ → List Term → ℤ
shortened a [] = a
shortened a (t ∷ ts) =
    let rest = shortened (meaning t.op a (number 0 t.tail)) ts in
    if is_empty t.tail ts then a else rest
