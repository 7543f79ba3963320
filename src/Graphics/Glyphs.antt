-- ===== src/Graphics/Glyphs.antt =====
-- graphics.c: what the text functions leave at every pixel.
use os_from_scratch_graphic.Prelude.{
  ℕ, zero, suc, ◌+◌, ◌-◌, ◌/◌, ◌%◌, ◌^◌, ◌<◌, ◌≡◌, refl, ap, ◌∙◌, Bool, true, false, ◌&&◌, arith,
  ltb, leb, ◌==◌, if◌then◌else◌, get_or, [],
}
use os_from_scratch_graphic.Prelude.Int.{ℤ, pos, pos_part, neg_part, ◌+ℤ◌}
use os_from_scratch_graphic.Memory.{Memory}
use os_from_scratch_graphic.Graphics.{Mode, put_pixel, get_pixel, for_below}
use os_from_scratch_graphic.Graphics.Pixels.{
  IsMode, on_screen, in_run, offset, is_at, is_at-run, in_run-shift, get_pixel-put_pixel,
}
use os_from_scratch_graphic.Graphics.Font.{font}
use os_from_scratch_graphic.Graphics.Draw.{is_set, draw_glyph_row, draw_char}

-- One more step of a loop whose step `n` paints what lies at `a + n` if a test holds.
bits_step :
    (a b n : ℕ) (ok : Bool) (row : ℕ → Bool) (c old : ℕ)
    → let rest = if leb a b && ltb b (a + n) && ok && row (b - a) then c else old in
      (if row n then (if (a + n == b) && ok then c else rest) else rest)
      ≡ (if leb a b && ltb b (a + suc n) && ok && row (b - a) then c else old)
bits_step a b n ok row c old = ground (arith, ap row {x = n} {y = b - a})

get_pixel-put_if :
    (d : Mode) (m : Memory) (x y : ℤ) (c u v : ℕ) (b : Bool)
    → IsMode d
    → on_screen d u v ≡ true
    → get_pixel d (if b then put_pixel d m x y c else m) (pos u) (pos v) ≡ (
        if b
        then (if is_at x y u v then c else get_pixel d m (pos u) (pos v))
        else get_pixel d m (pos u) (pos v))
get_pixel-put_if d m x y c u v true ok on = get_pixel-put_pixel d m x y c u v ok on
get_pixel-put_if d m x y c u v false ok on = refl

get_pixel-draw_glyph_row :
    (d : Mode) (m : Memory) (x y : ℤ) (n : ℕ) (row : ℕ → Bool) (c u v : ℕ)
    → IsMode d
    → on_screen d u v ≡ true
    → get_pixel d (draw_glyph_row d m x y n row c) (pos u) (pos v) ≡ (
        if in_run x n u && in_run y 1 v && row (offset x u)
        then c
        else get_pixel d m (pos u) (pos v))
unfolding draw_glyph_row for_below
get_pixel-draw_glyph_row d m x y zero row c u v ok on = ground arith
get_pixel-draw_glyph_row d m x y (suc n) row c u v ok on =
    get_pixel-put_if d (draw_glyph_row d m x y n row c) (x +ℤ pos n) y c u v (row n) ok on
    ∙ rw (is_at-run x y n u v, get_pixel-draw_glyph_row d m x y n row c u v ok on)
        (bits_step (pos_part x) (u + neg_part x) n (in_run y 1 v) row c
          (get_pixel d m (pos u) (pos v)))

-- Glyph rows below each other, the first at `y`.
abbrev lines : Mode → Memory → ℤ → ℤ → ℕ → (ℕ → ℕ → Bool) → ℕ → Memory
lines d m x y h bit c = for_below h (λ i m'. draw_glyph_row d m' x (y +ℤ pos i) 8 (bit i) c) m

lines_step :
    (a b n : ℕ) (ok : Bool) (row : ℕ → Bool) (c old : ℕ)
    → let rest = if ok && (leb a b && ltb b (a + n)) && row (b - a) then c else old in
      (if ok && (a + n == b) && row n then c else rest)
      ≡ (if ok && (leb a b && ltb b (a + suc n)) && row (b - a) then c else old)
lines_step a b n ok row c old = ground (arith, ap row {x = n} {y = b - a})

get_pixel-lines :
    (d : Mode) (m : Memory) (x y : ℤ) (h : ℕ) (bit : ℕ → ℕ → Bool) (c u v : ℕ)
    → IsMode d
    → on_screen d u v ≡ true
    → get_pixel d (lines d m x y h bit c) (pos u) (pos v) ≡ (
        if in_run x 8 u && in_run y h v && bit (offset y v) (offset x u)
        then c
        else get_pixel d m (pos u) (pos v))
unfolding for_below
get_pixel-lines d m x y zero bit c u v ok on = ground arith
get_pixel-lines d m x y (suc n) bit c u v ok on =
    get_pixel-draw_glyph_row d (lines d m x y n bit c) x (y +ℤ pos n) 8 (bit n) c u v ok on
    ∙ rw (in_run-shift y n v, get_pixel-lines d m x y n bit c u v ok on)
        (lines_step (pos_part y) (v + neg_part y) n (in_run x 8 u) (λ i. bit i (offset x u)) c
          (get_pixel d m (pos u) (pos v)))

-- The columns of a row of eight pixels, the leftmost in the top bit: whether what the byte holds from
-- the bit of the column on reaches that bit's weight.
abbrev pub is_painted : ℕ → ℕ → Bool
is_painted row j = leb (2 ^ (7 - j)) (row % 2 ^ (8 - j))

is_painted_lem : (row j : ℕ) → j < 8 → row / 2 ^ (7 - j) % 2 == 1 ≡ is_painted row j
is_painted_lem row zero l = ground arith
is_painted_lem row (suc zero) l = ground arith
is_painted_lem row (suc (suc zero)) l = ground arith
is_painted_lem row (suc (suc (suc zero))) l = ground arith
is_painted_lem row (suc (suc (suc (suc zero)))) l = ground arith
is_painted_lem row (suc (suc (suc (suc (suc zero))))) l = ground arith
is_painted_lem row (suc (suc (suc (suc (suc (suc zero)))))) l = ground arith
is_painted_lem row (suc (suc (suc (suc (suc (suc (suc zero))))))) l = ground arith
is_painted_lem row (suc (suc (suc (suc (suc (suc (suc (suc j)))))))) l = absurd (omega arith)

-- draw_char of an ASCII character paints, in the square of 8 by 8 pixels at its place, the pixels that the rows of
-- the font's glyph have, the leftmost in the top bit, and leaves every other pixel of the screen, also where the
-- square reaches over an edge.
pub get_pixel-draw_char :
    (d : Mode) (m : Memory) (x y : ℤ) (c color u v : ℕ)
    → IsMode d
    → on_screen d u v ≡ true
    → c < 128
    → get_pixel d (draw_char d m x y c color) (pos u) (pos v) ≡ (
        if in_run x 8 u
          && in_run y 8 v
          && is_painted (get_or (get_or font c []) (offset y v) 0) (offset x u)
        then color
        else get_pixel d m (pos u) (pos v))
unfolding draw_char
get_pixel-draw_char d m x y c color u v ok on ascii = ground (
  arith,
  get_pixel-lines d m x y 8 (is_set d c) color u v ok on,
  is_painted_lem (get_or (get_or font c []) (offset y v) 0) (offset x u),
)
