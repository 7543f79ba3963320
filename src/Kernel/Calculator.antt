-- ===== src/Kernel/Calculator.antt =====
-- kernel.c: the calculator.
--
-- `expr` and `expr_len` are the list of the characters in front of the terminator. The code computes
-- in `int`; a value that leaves its range is undefined in C and is not cut here.
use os_from_scratch_graphic.Prelude.{
  ℕ, zero, suc, ◌+◌, ◌-◌, ◌*◌, ◌/◌, ◌%◌, [], ◌∷◌, ◌++◌, length, drop, ltb, ◌==◌, if◌then◌else◌,
}
use os_from_scratch_graphic.Prelude.Int.{ℤ, pos, negsuc, sub_ℕ, ◌+ℤ◌, ◌-ℤ◌, ◌*ℤ◌}
use os_from_scratch_graphic.Endian.{Bytes}
use os_from_scratch_graphic.Text.{is_digit}

abbrev pub calc_add : Bytes → ℕ → Bytes
calc_add expr c = if ltb (length expr) 63 then expr ++ (c ∷ []) else expr

abbrev pub calc_clear : Bytes
calc_clear = []

-- The inner loop: the number at the front, after `v`, and what follows it.
unfoldable pub read_number : ℕ → Bytes → ℕ × Bytes
read_number v [] = (v, [])
read_number v (c ∷ s) =
    let rest = read_number (v * 10 + (c - b'0')) s in if is_digit c then rest else (v, c ∷ s)

-- `/` of C, towards 0, by a positive number.
abbrev pub quotient : ℤ → ℕ → ℤ
quotient (pos a) n = pos (a / n)
quotient (negsuc a) n = sub_ℕ 0 (suc a / n)

-- The chain of tests on `op`; another operator changes nothing.
unfoldable pub apply_op : ℕ → ℤ → ℕ → ℤ
apply_op op res v =
    if op == b'+'
    then res +ℤ pos v
    else if op == b'-'
    then res -ℤ pos v
    else if op == b'*'
    then res *ℤ pos v
    else if op == b'/'
    then quotient res (if v == 0 then 1 else v)
    else res

abbrev pub next_op : ℕ → Bytes → ℕ
next_op op [] = op
next_op op (c ∷ s) = c

-- The outer loop from `expr[i]` on. A round that finds an operator moves past it, and the `i++` of
-- the `for` passes one character more. Every round passes a character, so as many rounds as there
-- are characters are enough.
unfoldable pub eval_loop : ℕ → ℕ → ℤ → Bytes → ℤ
eval_loop zero op res s = res
eval_loop (suc fuel) op res [] = res
eval_loop (suc fuel) op res (c ∷ s) =
    let (v, after) = read_number 0 (c ∷ s) in
    eval_loop fuel (next_op op after) (apply_op op res v) (drop 2 after)

unfoldable pub calc_result : Bytes → ℤ
calc_result expr = eval_loop (length expr) b'+' (pos 0) expr

-- `while(t>0){ buf[n++]=(t%10)+'0'; t/=10; }`. The buffer has 20 bytes, more than an int has digits.
unfoldable pub digits : ℕ → ℕ → Bytes
digits zero t = []
digits (suc fuel) t =
    let rest = digits fuel (t / 10) in if t == 0 then [] else (t % 10 + b'0') ∷ rest

-- `buf`, the last character first.
unfoldable pub reversed : ℤ → Bytes
reversed (pos t) = if t == 0 then b'0' ∷ [] else digits 20 t
reversed (negsuc t) = digits 20 (suc t) ++ (b'-' ∷ [])

-- `while(n--) calc_add(buf[n]);`
unfoldable pub add_back : Bytes → Bytes → Bytes
add_back expr [] = expr
add_back expr (b ∷ buf) = calc_add (add_back expr buf) b

unfoldable pub calc_eval : Bytes → Bytes
calc_eval expr = add_back calc_clear (reversed (calc_result expr))
