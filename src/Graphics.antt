-- ===== src/Graphics.antt =====
-- graphics.c: pixels of the linear framebuffer.
--
-- The framebuffer is a memory of 32-bit words, counted from `framebuffer_addr`. An `int` coordinate
-- is an integer; a sum of coordinates is taken not to leave the range of an int.
mod Tests
pub mod Pixels
pub mod Font
pub mod Draw
pub mod Glyphs
use os_from_scratch_graphic.Prelude.{
  ℕ, zero, suc, ◌+◌, ◌-◌, ◌*◌, ◌/◌, ◌%◌, ◌^◌, Bool, not, ◌||◌, ltb, ◌==◌, bit_xor, if◌then◌else◌,
}
use os_from_scratch_graphic.Prelude.Int.{ℤ, pos, negsuc, pos_part, ltb_ℤ, ◌+ℤ◌}
use os_from_scratch_graphic.Memory.{Memory, poke}

-- The globals that `init_graphics` sets. `off_font` is none of them: a char from 128 on is negative,
-- and `font[(int)c]` then reads what the linker has put in front of the table; it is given by the
-- character and the row.
pub record Mode : Type 0 where
  pub addr : ℕ
  pub width : ℕ
  pub height : ℕ
  pub pitch : ℕ
  pub off_font : ℕ → ℕ → ℕ

-- `(int)` of a u32.
abbrev pub int_of : ℕ → ℤ
int_of n = if ltb n (2 ^ 31) then pos n else negsuc (2 ^ 32 - 1 - n)

-- `x<0 || y<0 || x >= (int)framebuffer_width || y >= (int)framebuffer_height`
abbrev pub outside : Mode → ℤ → ℤ → Bool
outside d x y =
    ltb_ℤ x (pos 0)
    || ltb_ℤ y (pos 0)
    || not (ltb_ℤ x (int_of d.width))
    || not (ltb_ℤ y (int_of d.height))

-- `y*(framebuffer_pitch/4) + x` for coordinates that are not negative.
abbrev pub pixel_index : Mode → ℤ → ℤ → ℕ
pixel_index d x y = (pos_part y * (d.pitch / 4) + pos_part x) % 2 ^ 32

unfoldable pub put_pixel : Mode → Memory → ℤ → ℤ → ℕ → Memory
put_pixel d m x y c =
    if d.addr == 0 then m else if outside d x y then m else poke m (pixel_index d x y) c

unfoldable pub get_pixel : Mode → Memory → ℤ → ℤ → ℕ
get_pixel d m x y = if d.addr == 0 then 0 else if outside d x y then 0 else m (pixel_index d x y)

unfoldable pub xor_pixel : Mode → Memory → ℤ → ℤ → ℕ → Memory
xor_pixel d m x y color =
    if d.addr == 0
    then m
    else if outside d x y
    then m
    else poke m (pixel_index d x y) (bit_xor (m (pixel_index d x y)) color)

-- `for (i = 0; i < n; i++)` over a body that changes the framebuffer.
unfoldable pub for_below : ℕ → (ℕ → Memory → Memory) → Memory → Memory
for_below zero body m = m
for_below (suc n) body m = body n (for_below n body m)

-- One row: `for(int j=x;j<x+w;j++) put_pixel(j,i,c);`, with the color of each pixel.
unfoldable pub draw_row : Mode → Memory → ℤ → ℤ → ℕ → (ℕ → ℕ) → Memory
draw_row d m x y w color = for_below w (λ j m'. put_pixel d m' (x +ℤ pos j) y (color j)) m

-- A width or height that is not positive draws nothing.
unfoldable pub draw_rect : Mode → Memory → ℤ → ℤ → ℤ → ℤ → ℕ → Memory
draw_rect d m x y w h c =
    for_below (pos_part h) (λ i m'. draw_row d m' x (y +ℤ pos i) (pos_part w) (λ j. c)) m

-- `xor_cursor`: a square of 6 by 6 pixels.
unfoldable pub xor_cursor : Mode → Memory → ℤ → ℤ → Memory
xor_cursor d m x y =
    for_below 6
      (λ dy m'. for_below 6 (λ dx m''. xor_pixel d m'' (x +ℤ pos dx) (y +ℤ pos dy) 0x00ffffff) m') m
