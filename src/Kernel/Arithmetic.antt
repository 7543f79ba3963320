-- ===== src/Kernel/Arithmetic.antt =====
-- kernel.c: what the calculator computes and shows.
use os_from_scratch_graphic.Prelude.{
  ℕ, zero, suc, ◌+◌, ◌-◌, ◌*◌, ◌/◌, ◌%◌, ◌^◌, ◌≡◌, ◌≤◌, ◌<◌, refl, ap, ◌∙◌, true, false, [], ◌∷◌,
  ◌++◌, arith, length, length-append, drop, ltb, ◌==◌, Bool-cases, inl, inr,
}
use os_from_scratch_graphic.Prelude.Int.{ℤ, pos, ◌+ℤ◌}
use os_from_scratch_graphic.Endian.{Bytes}
use os_from_scratch_graphic.Text.{is_digit}
use os_from_scratch_graphic.Kernel.Calculator.{
  calc_add, read_number, apply_op, eval_loop, calc_result, digits, reversed, add_back, calc_eval,
}

-- A run of digits.
abbrev pub AreDigits : Bytes → Type 0
AreDigits [] = Unit
AreDigits (c ∷ s) = (is_digit c ≡ true) × AreDigits s

-- The number that the digits write, after `v`.
abbrev pub number : ℕ → Bytes → ℕ
number v [] = v
number v (c ∷ s) = number (v * 10 + (c - b'0')) s

pub read_number-digits : (s : Bytes) (v : ℕ) → AreDigits s → read_number v s ≡ (number v s, [])
unfolding read_number
read_number-digits [] v h = refl
read_number-digits (c ∷ s) v h =
    rw (h.0, read_number) (read_number-digits s (v * 10 + (c - b'0')) h.1)

pub read_number-stops :
    (s t : Bytes) (op v : ℕ)
    → AreDigits s
    → is_digit op ≡ false
    → read_number v (s ++ (op ∷ t)) ≡ (number v s, op ∷ t)
unfolding read_number
read_number-stops [] t op v h stop = rw (stop, read_number) refl
read_number-stops (c ∷ s) t op v h stop =
    rw (h.0, read_number) (read_number-stops s t op (v * 10 + (c - b'0')) h.1 stop)

AreDigits-snoc : (s : Bytes) (c : ℕ) → AreDigits s → is_digit c ≡ true → AreDigits (s ++ (c ∷ []))
AreDigits-snoc [] c h d = (d, tt)
AreDigits-snoc (a ∷ s) c h d = (h.0, AreDigits-snoc s c h.1 d)

number-snoc : (s : Bytes) (v c : ℕ) → number v (s ++ (c ∷ [])) ≡ number v s * 10 + (c - b'0')
number-snoc [] v c = refl
number-snoc (a ∷ s) v c = number-snoc s (v * 10 + (a - b'0')) c

-- The digits of `t`, in the order in which the code writes them back.
record Writes (t n : ℕ) (s : Bytes) : Type 0 where
  are_digits : AreDigits s
  value : number 0 s ≡ t
  short : length s ≤ n

calc_add-Writes :
    (n t : ℕ) (s : Bytes)
    → n < 60
    → Writes (t / 10) n s
    → Writes t (suc n) (calc_add s (t % 10 + b'0'))
calc_add-Writes n t s b w = rw room (record {
  are_digits = AreDigits-snoc s (t % 10 + b'0') w.are_digits (ground arith);
  value = number-snoc s 0 (t % 10 + b'0') ∙ ground (arith, w.value);
  short = omega (arith, length-append s ((t % 10 + b'0') ∷ []), w.short);
})
  where
    room : ltb (length s) 63 ≡ true
    room = ground (arith, w.short)

add_back-digits : (n t : ℕ) → n ≤ 60 → t < 10 ^ n → Writes t n (add_back [] (digits n t))
unfolding add_back digits
add_back-digits zero t b h = record { are_digits = tt; value = omega arith; short = omega arith }
add_back-digits (suc n) t b h = elim (Bool-cases (t == 0)) [
  | inl z ↦
      rw (z, digits, add_back)
        (record { are_digits = tt; value = ground arith; short = omega arith })
  | inr nz ↦
      rw (nz, digits, add_back)
        (calc_add-Writes n t (add_back [] (digits n (t / 10))) (omega arith)
          (add_back-digits n (t / 10) (omega arith) (omega arith)))
]

add_back-reversed : (t : ℕ) → t < 2 ^ 31 → Writes t 20 (add_back [] (reversed (pos t)))
unfolding reversed add_back
add_back-reversed t h = elim (Bool-cases (t == 0)) [
  | inl z ↦ rw z (record { are_digits = (refl, tt); value = ground arith; short = omega arith })
  | inr nz ↦ rw (nz, reversed) (add_back-digits 20 t (omega arith) (omega arith))
]

pub eval_loop-empty : (f op : ℕ) (res : ℤ) → eval_loop f op res [] ≡ res
unfolding eval_loop
eval_loop-empty zero op res = refl
eval_loop-empty (suc f) op res = refl

pub pos_sum : (n : ℕ) → pos 0 +ℤ pos n ≡ pos n
unfolding ◌+ℤ◌
pos_sum n = ground arith

result-number : (s : Bytes) → AreDigits s → calc_result s ≡ pos (number 0 s)
unfolding calc_result eval_loop apply_op
result-number [] h = refl
result-number (c ∷ s) h =
    rw (read_number-digits (c ∷ s) 0 h, calc_result, eval_loop)
      (eval_loop-empty (length s) b'+' _ ∙ pos_sum (number 0 (c ∷ s)))

-- A result that is not negative is shown in decimal digits, at most 20 of them, which read back as
-- the result; evaluating what is shown gives the same number again.
pub calc_eval-shows :
    (expr : Bytes) (t : ℕ)
    → calc_result expr ≡ pos t
    → t < 2 ^ 31
    → AreDigits (calc_eval expr)
      × (number 0 (calc_eval expr) ≡ t)
      × (calc_result (calc_eval expr) ≡ pos t)
unfolding calc_eval
calc_eval-shows expr t e h =
    rw (e, calc_eval)
      (
        w.are_digits,
        w.value,
        result-number (add_back [] (reversed (pos t))) w.are_digits ∙ ap pos w.value,
      )
  where
    w : Writes t 20 (add_back [] (reversed (pos t)))
    w = add_back-reversed t h

length-read_number : (s : Bytes) (v : ℕ) → length (read_number v s).1 ≤ length s
unfolding read_number
length-read_number [] v = omega arith
length-read_number (c ∷ s) v = ground (arith, length-read_number s (v * 10 + (c - b'0')))

-- A round passes at least one of the characters that are left.
round-passes : (c : ℕ) (s : Bytes) → length (drop 2 (read_number 0 (c ∷ s)).1) ≤ length s
round-passes c s = passed (read_number 0 (c ∷ s)).1 (length-read_number (c ∷ s) 0)
  where
    passed : (t : Bytes) → length t ≤ suc (length s) → length (drop 2 t) ≤ length s
    passed [] h = omega arith
    passed (a ∷ []) h = omega arith
    passed (a ∷ b ∷ t) h = omega arith

-- The evaluation ends: with a round for each character the result no longer depends on the fuel.
pub eval_loop_fuel :
    (f op : ℕ) (res : ℤ) (s : Bytes)
    → length s ≤ f
    → eval_loop f op res s ≡ eval_loop (suc f) op res s
unfolding eval_loop
eval_loop_fuel zero op res [] h = refl
eval_loop_fuel zero op res (c ∷ s) h = absurd (omega arith)
eval_loop_fuel (suc f) op res [] h = refl
eval_loop_fuel (suc f) op res (c ∷ s) h =
    eval_loop_fuel f _ _ (drop 2 (read_number 0 (c ∷ s)).1) (omega (arith, round-passes c s))
