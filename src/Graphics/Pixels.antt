-- ===== src/Graphics/Pixels.antt =====
-- graphics.c: what the drawing functions leave at every pixel.
use os_from_scratch_graphic.Prelude.{
  ℕ, zero, suc, ◌+◌, ◌-◌, ◌*◌, ◌/◌, ◌%◌, ◌^◌, ◌≡◌, ◌≤◌, ◌<◌, refl, ap, ◌∙◌, Bool, true, false, not,
  ◌&&◌, arith, ltb, leb, ◌==◌, if◌then◌else◌,
}
use os_from_scratch_graphic.Prelude.Int.{ℤ, pos, negsuc, pos_part, neg_part, ◌+ℤ◌}
use os_from_scratch_graphic.Memory.{Memory}
use os_from_scratch_graphic.Graphics.{
  Mode, outside, put_pixel, get_pixel, for_below, draw_row, draw_rect,
}

-- A mode of the machine: a row has room for the width, and the last row ends in the address space.
pub record IsMode (d : Mode) : Type 0 where
  pub set_up : 0 < d.addr
  pub row : d.width ≤ d.pitch / 4
  pub whole : d.height * (d.pitch / 4) < 2 ^ 32
  pub wide : d.width < 2 ^ 31
  pub high : d.height < 2 ^ 31

-- Words of different rows lie apart.
rows_apart : (y k p : ℕ) → (y + suc k) * p ≡ y * p + p + k * p
rows_apart y k p = ground arith

later_row : (y k p x x' : ℕ) → x < p → y * p + x < (y + suc k) * p + x'
later_row y k p x x' h = omega (arith, rows_apart y k p)

index_lt : (y y' p x x' : ℕ) → x < p → y < y' → y * p + x < y' * p + x'
index_lt y y' p x x' h l = ground (
  arith,
  later_row y (y' - y - 1) p x x' h,
  ap (λ r. r * p) {x = y + suc (y' - y - 1)} {y = y'} (omega arith),
)

index_bound : (y h p x : ℕ) → x < p → y < h → y * p + x < h * p
index_bound y h p x l r = omega (arith, index_lt y h p x 0 l r)

-- The coordinates of a pixel on the screen.
abbrev pub on_screen : Mode → ℕ → ℕ → Bool
on_screen d u v = ltb u d.width && ltb v d.height

-- The pixel (u, v) is the one at the given coordinates.
abbrev pub is_at : ℤ → ℤ → ℕ → ℕ → Bool
is_at x y u v = (pos_part x == u) && (neg_part x == 0) && (pos_part y == v) && (neg_part y == 0)

same_index :
    (p h x y u v : ℕ)
    → x < p
    → u < p
    → y < h
    → v < h
    → h * p < 2 ^ 32
    → ((v * p + u) % 2 ^ 32 == (y * p + x) % 2 ^ 32) ≡ (x == u) && (y == v)
same_index p h x y u v xp up yh vh whole = ground (
  arith,
  index_lt v y p u x up,
  index_lt y v p x u xp,
  index_bound v h p u up vh,
  index_bound y h p x xp yh,
  ap (λ r. r * p) {x = y} {y = v},
)

-- The screen's bounds are those of its coordinates as signed numbers.
pub outside-pos :
    (d : Mode) (u v : ℕ) → IsMode d → outside d (pos u) (pos v) ≡ not (on_screen d u v)
outside-pos d u v ok = ground (arith, ok.wide, ok.high)

pub get_pixel-put_pixel :
    (d : Mode) (m : Memory) (x y : ℤ) (c u v : ℕ)
    → IsMode d
    → on_screen d u v ≡ true
    → get_pixel d (put_pixel d m x y c) (pos u) (pos v)
      ≡ (if is_at x y u v then c else get_pixel d m (pos u) (pos v))
unfolding get_pixel put_pixel
get_pixel-put_pixel d m (pos x) (pos y) c u v ok on =
    rw (outside-pos d x y ok, outside-pos d u v ok)
      (ground (arith, same_index (d.pitch / 4) d.height x y u v, ok.set_up, ok.row, ok.whole))
get_pixel-put_pixel d m (pos x) (negsuc y) c u v ok on = ground arith
get_pixel-put_pixel d m (negsuc x) (pos y) c u v ok on = ground arith
get_pixel-put_pixel d m (negsuc x) (negsuc y) c u v ok on = ground arith

-- The offset of `u` from the start `x` of a run of `n` coordinates, and whether it lies in the run.
abbrev pub offset : ℤ → ℕ → ℕ
offset x u = u + neg_part x - pos_part x

abbrev pub in_run : ℤ → ℕ → ℕ → Bool
in_run x n u = leb (pos_part x) (u + neg_part x) && ltb (u + neg_part x) (pos_part x + n)

pub is_at-run :
    (x y : ℤ) (n u v : ℕ)
    → is_at (x +ℤ pos n) y u v ≡ (pos_part x + n == u + neg_part x) && in_run y 1 v
unfolding ◌+ℤ◌
is_at-run (pos x) (pos y) n u v = ground arith
is_at-run (pos x) (negsuc y) n u v = ground arith
is_at-run (negsuc x) (pos y) n u v = ground arith
is_at-run (negsuc x) (negsuc y) n u v = ground arith

-- One more step of a loop whose step `n` paints what lies at `a + n`.
run_step :
    (a b n : ℕ) (ok : Bool) (color : ℕ → ℕ) (old : ℕ)
    → (if (a + n == b) && ok
        then color n
        else (if leb a b && ltb b (a + n) && ok then color (b - a) else old))
      ≡ (if leb a b && ltb b (a + suc n) && ok then color (b - a) else old)
run_step a b n false color old = ground arith
run_step a b n true color old = ground (arith, ap color {x = n} {y = b - a})

-- A row paints the pixels of its run, each in its color.
pub get_pixel-draw_row :
    (d : Mode) (m : Memory) (x y : ℤ) (w : ℕ) (color : ℕ → ℕ) (u v : ℕ)
    → IsMode d
    → on_screen d u v ≡ true
    → get_pixel d (draw_row d m x y w color) (pos u) (pos v)
      ≡ (if in_run x w u && in_run y 1 v then color (offset x u) else get_pixel d m (pos u) (pos v))
unfolding draw_row for_below
get_pixel-draw_row d m x y zero color u v ok on = ground arith
get_pixel-draw_row d m x y (suc n) color u v ok on =
    get_pixel-put_pixel d (draw_row d m x y n color) (x +ℤ pos n) y (color n) u v ok on
    ∙ rw (is_at-run x y n u v, get_pixel-draw_row d m x y n color u v ok on)
        (run_step (pos_part x) (u + neg_part x) n (in_run y 1 v) color
          (get_pixel d m (pos u) (pos v)))

rows_step :
    (a b n : ℕ) (ok : ℕ → Bool) (color : ℕ → ℕ) (old : ℕ)
    → (if ok n && (a + n == b)
        then color n
        else (if ok (b - a) && (leb a b && ltb b (a + n)) then color (b - a) else old))
      ≡ (if ok (b - a) && (leb a b && ltb b (a + suc n)) then color (b - a) else old)
rows_step a b n ok color old =
    ground (arith, ap color {x = n} {y = b - a}, ap ok {x = n} {y = b - a})

pub in_run-shift : (y : ℤ) (n v : ℕ) → in_run (y +ℤ pos n) 1 v ≡ (pos_part y + n == v + neg_part y)
unfolding ◌+ℤ◌
in_run-shift (pos y) n v = ground arith
in_run-shift (negsuc y) n v = ground arith

-- Rows below each other, the first at `y`, with the length of each and the color of each pixel.
abbrev pub rows : Mode → Memory → ℤ → ℤ → (ℕ → ℕ) → ℕ → (ℕ → ℕ → ℕ) → Memory
rows d m x y w h color = for_below h (λ i m'. draw_row d m' x (y +ℤ pos i) (w i) (color i)) m

pub get_pixel-rows :
    (d : Mode) (m : Memory) (x y : ℤ) (w : ℕ → ℕ) (h : ℕ) (color : ℕ → ℕ → ℕ) (u v : ℕ)
    → IsMode d
    → on_screen d u v ≡ true
    → get_pixel d (rows d m x y w h color) (pos u) (pos v) ≡ (
        if in_run x (w (offset y v)) u && in_run y h v
        then color (offset y v) (offset x u)
        else get_pixel d m (pos u) (pos v))
unfolding for_below
get_pixel-rows d m x y w zero color u v ok on = ground arith
get_pixel-rows d m x y w (suc n) color u v ok on =
    get_pixel-draw_row d (rows d m x y w n color) x (y +ℤ pos n) (w n) (color n) u v ok on
    ∙ rw (in_run-shift y n v, get_pixel-rows d m x y w n color u v ok on)
        (rows_step (pos_part y) (v + neg_part y) n (λ i. in_run x (w i) u)
          (λ i. color i (offset x u)) (get_pixel d m (pos u) (pos v)))

-- draw_rect paints every pixel of the screen that lies in the rectangle, also in a rectangle that
-- reaches over an edge, and no other.
pub get_pixel-draw_rect :
    (d : Mode) (m : Memory) (x y w h : ℤ) (c u v : ℕ)
    → IsMode d
    → on_screen d u v ≡ true
    → get_pixel d (draw_rect d m x y w h c) (pos u) (pos v) ≡ (
        if in_run x (pos_part w) u && in_run y (pos_part h) v
        then c
        else get_pixel d m (pos u) (pos v))
unfolding draw_rect
get_pixel-draw_rect d m x y w h c u v ok on =
    get_pixel-rows d m x y (λ i. pos_part w) (pos_part h) (λ i j. c) u v ok on

-- A loop depends on its body only through what the body does.
pub for_below-cong :
    (n : ℕ) (f g : ℕ → Memory → Memory) (m : Memory)
    → ((i : ℕ) (m' : Memory) → f i m' ≡ g i m')
    → for_below n f m ≡ for_below n g m
unfolding for_below
for_below-cong zero f g m e = refl
for_below-cong (suc n) f g m e = e n (for_below n f m) ∙ ap (g n) (for_below-cong n f g m e)
