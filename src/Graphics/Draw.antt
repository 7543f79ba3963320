-- ===== src/Graphics/Draw.antt =====
-- graphics.c: the framebuffer that the boot loader set up, and text.
use os_from_scratch_graphic.Prelude.{
  ℕ, zero, suc, ◌+◌, ◌-◌, ◌*◌, ◌/◌, ◌%◌, ◌^◌, Bool, Option, none, some, [], ◌∷◌, get_or, ltb, ◌==◌,
  if◌then◌else◌,
}
use os_from_scratch_graphic.Prelude.Int.{ℤ, pos, ◌+ℤ◌}
use os_from_scratch_graphic.Endian.{Bytes}
use os_from_scratch_graphic.Memory.{Memory}
use os_from_scratch_graphic.Graphics.{Mode, put_pixel, for_below}
use os_from_scratch_graphic.Graphics.Font.{font}

-- A u32 of the memory.
abbrev pub u32_at : Memory → ℕ → ℕ
u32_at m a = m a + m (a + 1) * 256 + m (a + 2) * 2 ^ 16 + m (a + 3) * 2 ^ 24

-- The fields of a multiboot_tag_framebuffer: the address is the low half of a u64.
abbrev pub mode_at : Mode → Memory → ℕ → Mode
mode_at d m tag = record d {
  addr = u32_at m (tag + 8);
  pitch = u32_at m (tag + 16);
  width = u32_at m (tag + 20);
  height = u32_at m (tag + 24);
}

-- `(u8*)tag+((tag->size+7)&~7)`
abbrev pub next_tag : Memory → ℕ → ℕ
next_tag m tag = (tag + (u32_at m (tag + 4) + 7) % 2 ^ 32 / 8 * 8) % 2 ^ 32

-- The search from a tag on; `none` is a search that has not ended.
unfoldable pub find_framebuffer : ℕ → Memory → Mode → ℕ → Option Mode
find_framebuffer zero m d tag = none
find_framebuffer (suc fuel) m d tag =
    let rest = find_framebuffer fuel m d (next_tag m tag) in
    if u32_at m tag == 0 then some d else if u32_at m tag == 8 then some (mode_at d m tag) else rest

-- The tags begin behind the eight bytes of multiboot_info_t.
unfoldable pub init_graphics : ℕ → Memory → Mode → ℕ → Option Mode
init_graphics fuel m d info = find_framebuffer fuel m d (info + 8)

-- `font[(int)c]`: a char from 128 on is negative, and reads what lies in front of the table.
abbrev pub glyph_row : Mode → ℕ → ℕ → ℕ
glyph_row d c i = if ltb c 128 then get_or (get_or font c []) i 0 else d.off_font c i

-- `(glyph[i] >> (7-j)) & 1`
abbrev pub is_set : Mode → ℕ → ℕ → ℕ → Bool
is_set d c i j = glyph_row d c i / 2 ^ (7 - j) % 2 == 1

-- One row of a glyph.
unfoldable pub draw_glyph_row : Mode → Memory → ℤ → ℤ → ℕ → (ℕ → Bool) → ℕ → Memory
draw_glyph_row d m x y n row color =
    for_below n (λ j m'. if row j then put_pixel d m' (x +ℤ pos j) y color else m') m

unfoldable pub draw_char : Mode → Memory → ℤ → ℤ → ℕ → ℕ → Memory
draw_char d m x y c color =
    for_below 8 (λ i m'. draw_glyph_row d m' x (y +ℤ pos i) 8 (is_set d c i) color) m

-- `for(int i=0;s[i];i++)`, from the character of number `i` on.
unfoldable pub draw_from : Mode → Memory → ℤ → ℤ → ℕ → Bytes → ℕ → Memory
draw_from d m x y i [] color = m
draw_from d m x y i (c ∷ s) color =
    let rest = draw_from d (draw_char d m (x +ℤ pos (i * 8)) y c color) x y (suc i) s color in
    if c == 0 then m else rest

unfoldable pub draw_string : Mode → Memory → ℤ → ℤ → Bytes → ℕ → Memory
draw_string d m x y s color = draw_from d m x y 0 s color
