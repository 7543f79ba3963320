-- ===== src/Graphics/Tests.antt =====
-- graphics.c on a screen of 32 by 16 pixels.
use os_from_scratch_graphic.Prelude.{◌≡◌, refl, arith, ◌&&◌, get_or, [], if◌then◌else◌}
use os_from_scratch_graphic.Prelude.Int.{pos, negsuc}
use os_from_scratch_graphic.Memory.{Memory}
use os_from_scratch_graphic.Graphics.{Mode, get_pixel}
use os_from_scratch_graphic.Graphics.Pixels.{IsMode, in_run, offset}
use os_from_scratch_graphic.Graphics.Draw.{draw_char}
use os_from_scratch_graphic.Graphics.Font.{font}
use os_from_scratch_graphic.Graphics.Glyphs.{is_painted, get_pixel-draw_char}

abbrev small : Mode
small = record { addr = 0xfd000000; width = 32; height = 16; pitch = 128; off_font = λ c i. 0 }

small-IsMode : IsMode small
small-IsMode = record {
  set_up = omega arith;
  row = omega arith;
  whole = omega arith;
  wide = omega arith;
  high = omega arith;
}

abbrev white : Memory
white q = 0xffffff

-- An A over the left edge: its third column is the first of the screen.
get_pixel-draw_char_example :
    get_pixel small (draw_char small white (negsuc 1) (pos 0) b'A' 5) (pos 0) (pos 1) ≡ (
      if in_run (negsuc 1) 8 0
        && in_run (pos 0) 8 1
        && is_painted (get_or (get_or font b'A' []) (offset (pos 0) 1) 0) (offset (negsuc 1) 0)
      then 5
      else get_pixel small white (pos 0) (pos 1))
get_pixel-draw_char_example =
    get_pixel-draw_char small white (negsuc 1) (pos 0) b'A' 5 0 1 small-IsMode refl (omega arith)
