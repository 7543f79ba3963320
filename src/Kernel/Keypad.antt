-- ===== src/Kernel/Keypad.antt =====
-- kernel.c: the loop over the keys of the calculator against the place of a click.
use os_from_scratch_graphic.Prelude.{
  ℕ, zero, suc, ◌+◌, ◌-◌, ◌*◌, ◌/◌, ◌%◌, ◌^◌, ◌≡◌, ◌≢◌, ◌≤◌, ◌<◌, ◌⊎◌, inl, inr, refl, ap, sym, ◌∙◌,
  Bool, Bool-cases, true, false, ◌&&◌, Option, none, some, arith, ltb, if◌then◌else◌,
}
use os_from_scratch_graphic.Prelude.Int.{pos, ◌+ℤ◌}
use os_from_scratch_graphic.Endian.{Bytes, byte}
use os_from_scratch_graphic.Graphics.{Mode}
use os_from_scratch_graphic.Kernel.Cursor.{Cursor}
use os_from_scratch_graphic.Kernel.Keys.{keys, window_x, window_y, press, on_key, press_keys}

-- The number of the key at a place of the window: rows 45 apart and columns 65 apart, of which the last five, and
-- the first row and column of pixels, are no key.
unfoldable pub key_at : ℕ → ℕ → Option ℕ
key_at u v =
    if ltb 0 (u % 65)
      && ltb (u % 65) 60
      && (ltb 0 (v % 45) && ltb (v % 45) 40)
      && (ltb u 260 && ltb v 180)
    then some (v / 45 * 4 + u / 65)
    else none

-- The expression after a click on a key, or beside the keys.
abbrev pub pressed_at : Option ℕ → Bytes → Bytes
pressed_at none expr = expr
pressed_at (some k) expr = press (byte keys k) expr

-- A screen that the window fits on.
pub record IsLarge (d : Mode) : Type 0 where
  pub wide : 300 ≤ d.width
  pub width_int : d.width < 2 ^ 31
  pub high : 350 ≤ d.height
  pub height_int : d.height < 2 ^ 31

-- The window is in the middle.
abbrev pub left_of : Mode → ℕ
left_of d = (d.width - 300) / 2

abbrev pub top_of : Mode → ℕ
top_of d = (d.height - 350) / 2

window_x-eq : (d : Mode) → IsLarge d → window_x d ≡ pos (left_of d)
window_x-eq d r = let wide = r.wide in let small = r.width_int in ground arith

window_y-eq : (d : Mode) → IsLarge d → window_y d ≡ pos (top_of d)
window_y-eq d r = let high = r.high in let small = r.height_int in ground arith

-- The test of the code, for a place `u` and `v` behind the first key.
on_key-eq :
    (d : Mode) (c : Cursor) (u v i : ℕ)
    → IsLarge d
    → c.x ≡ pos (left_of d + 10 + u)
    → c.y ≡ pos (top_of d + 80 + v)
    → on_key d c i
      ≡ ltb (i % 4 * 65) u
        && ltb u (i % 4 * 65 + 60)
        && (ltb (i / 4 * 45) v && ltb v (i / 4 * 45 + 40))
unfolding on_key ◌+ℤ◌
on_key-eq d c u v i r at_x at_y = rw (at_x, at_y, window_x-eq d r, window_y-eq d r) (ground arith)

-- A column and a row of the grid.
in_column : (u c : ℕ) → c * 65 < u → u < c * 65 + 60 → (u / 65 ≡ c) × (u % 65 ≡ u - c * 65)
in_column u c above below = (omega arith, omega arith)

in_row : (v r : ℕ) → r * 45 < v → v < r * 45 + 40 → (v / 45 ≡ r) × (v % 45 ≡ v - r * 45)
in_row v r above below = (omega arith, omega arith)

-- The four tests of the code.
abbrev tests : ℕ → ℕ → ℕ → Bool
tests u v i =
    ltb (i % 4 * 65) u && ltb u (i % 4 * 65 + 60) && (ltb (i / 4 * 45) v && ltb v (i / 4 * 45 + 40))

tests-bounds :
    (u v i : ℕ)
    → tests u v i ≡ true
    → (i % 4 * 65 < u) × (u < i % 4 * 65 + 60) × ((i / 4 * 45 < v) × (v < i / 4 * 45 + 40))
tests-bounds u v i on_it = (ground arith, ground arith, (ground arith, ground arith))

on_key-key_at : (u v i : ℕ) → i < 16 → tests u v i ≡ true → key_at u v ≡ some i
unfolding key_at
on_key-key_at u v i few on_it =
    let (l, r, (t, b)) = tests-bounds u v i on_it in
    let (column, rest) = in_column u (i % 4) l r in
    let (row, rest2) = in_row v (i / 4) t b in ground arith

key_at-on_key : (u v i : ℕ) → key_at u v ≡ some i → tests u v i ≡ true
unfolding key_at
key_at-on_key u v i at = ground arith

key_at-lt : (u v i : ℕ) → key_at u v ≡ some i → i < 16
unfolding key_at
key_at-lt u v i at = ground arith

-- Keys that are not under the cursor do nothing.
press_keys-beside :
    (n : ℕ) (d : Mode) (c : Cursor) (i : ℕ) (expr : Bytes)
    → ((k : ℕ) → i ≤ k → k < i + n → on_key d c k ≡ false)
    → press_keys d c i n expr ≡ expr
unfolding press_keys
press_keys-beside zero d c i expr beside = refl
press_keys-beside (suc n) d c i expr beside =
    rw (beside i (omega arith) (omega arith))
      (press_keys-beside n d c (suc i) expr (λ k l u. beside k (omega arith) (omega arith)))

press_keys-one :
    (n : ℕ) (d : Mode) (c : Cursor) (i j : ℕ) (expr : Bytes)
    → i ≤ j
    → j < i + n
    → on_key d c j ≡ true
    → ((k : ℕ) → k < i + n → k ≢ j → on_key d c k ≡ false)
    → press_keys d c i n expr ≡ press (byte keys j) expr
unfolding press_keys
press_keys-one zero d c i j expr lower upper on_it others = absurd (omega arith)
press_keys-one (suc n) d c i j expr lower upper on_it others = elim (order i j lower) [
  | inl here ↦
      rw (ap (on_key d c) here, on_it, ap (byte keys) here)
        (press_keys-beside n d c (suc i) (press (byte keys j) expr)
          (λ k l u. others k (omega arith) (omega arith)))
  | inr later ↦ rw (others i (omega arith) (omega arith)) (
      press_keys-one n d c (suc i) j expr later (omega arith) on_it (λ k u. others k (omega arith)))
]
  where
    order : (i j : ℕ) → i ≤ j → (i ≡ j) ⊎ (suc i ≤ j)
    order i j lower = omega arith

-- A click at a place right of and below the corner of the first key, given from that corner, presses the key whose
-- cell of the grid it is in, once, and where it is in none or on the edge of a key the expression stays.
pub press_keys-key_at :
    (d : Mode) (c : Cursor) (u v : ℕ) (expr : Bytes)
    → IsLarge d
    → c.x ≡ pos (left_of d + 10 + u)
    → c.y ≡ pos (top_of d + 80 + v)
    → press_keys d c 0 16 expr ≡ pressed_at (key_at u v) expr
press_keys-key_at d c u v expr r at_x at_y = go (key_at u v) refl
  where
    same : (i : ℕ) → on_key d c i ≡ tests u v i
    same i = on_key-eq d c u v i r at_x at_y

    apart : (o : Option ℕ) → key_at u v ≡ o → (k : ℕ) → k < 16 → some k ≢ o → on_key d c k ≡ false
    apart o at k few other = elim (Bool-cases (on_key d c k)) [
      | inl on_it ↦ absurd (other (sym (on_key-key_at u v k few (sym (same k) ∙ on_it)) ∙ at))
      | inr off ↦ off
    ]

    go : (o : Option ℕ) → key_at u v ≡ o → press_keys d c 0 16 expr ≡ pressed_at o expr
    go none at =
        press_keys-beside 16 d c 0 expr (λ k l few. apart none at k few (λ e. ground arith))
    go (some i) at =
        press_keys-one 16 d c 0 i expr (omega arith) (key_at-lt u v i at)
          (same i ∙ key_at-on_key u v i at)
          (λ k few other. apart (some i) at k few (λ e. other (ground arith)))
