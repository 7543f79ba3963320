-- ===== src/Kernel/Cursor.antt =====
-- kernel.c: the software cursor, which keeps the pixels under it.
use os_from_scratch_graphic.Prelude.{ℕ, suc, Bool, true, false, ◌&&◌, ltb, if◌then◌else◌}
use os_from_scratch_graphic.Prelude.Int.{ℤ, pos, ltb_ℤ, ◌+ℤ◌, ◌-ℤ◌}
use os_from_scratch_graphic.Memory.{Memory}
use os_from_scratch_graphic.Graphics.{Mode, int_of, outside, put_pixel, get_pixel, for_below}

-- The framebuffer, and `cursor_under`, `cur_saved`, `cur_x` and `cur_y`.
pub record Cursor : Type 0 where
  pub screen : Memory
  pub under : ℕ → ℕ → ℕ
  pub saved : Bool
  pub x : ℤ
  pub y : ℤ

-- CUR_W and CUR_H
abbrev pub cursor_size : ℕ
cursor_size = 8

abbrev pub clampi : ℤ → ℤ → ℤ → ℤ
clampi v lo hi = if ltb_ℤ v lo then lo else if ltb_ℤ hi v then hi else v

-- `if(px>=0 && ...) put_pixel(px,py,col);`
abbrev pub put_guarded : Mode → Memory → ℤ → ℤ → ℕ → Memory
put_guarded d m px py col = if outside d px py then m else put_pixel d m px py col

-- Each of the 64 cells is written once, with what is on the screen at its place.
unfoldable pub cursor_save_under : Mode → Cursor → ℤ → ℤ → Cursor
cursor_save_under d c x y = record c {
  under = λ j i.
      if ltb j cursor_size && ltb i cursor_size
      then (if outside d (x +ℤ pos i) (y +ℤ pos j)
          then 0
          else get_pixel d c.screen (x +ℤ pos i) (y +ℤ pos j))
      else c.under j i;
  saved = true;
}

unfoldable pub cursor_restore_under : Mode → Cursor → Cursor
cursor_restore_under d c =
    let screen =
      for_below cursor_size
        (λ j m.
          for_below cursor_size
            (λ i m'. put_guarded d m' (c.x +ℤ pos i) (c.y +ℤ pos j) (c.under j i)) m)
        c.screen in
    if c.saved then record c { screen = screen; saved = false } else c

-- An arrow: row `j` has the pixels 0 to `j`.
unfoldable pub cursor_draw_shape : Mode → Memory → ℤ → ℤ → ℕ → Memory
cursor_draw_shape d m x y col =
    for_below cursor_size
      (λ j m'. for_below (suc j) (λ i m''. put_guarded d m'' (x +ℤ pos i) (y +ℤ pos j) col) m') m

unfoldable pub cursor_move_to : Mode → Cursor → ℤ → ℤ → Cursor
cursor_move_to d c x y =
    let cur_x = clampi x (pos 0) (int_of d.width -ℤ pos 1) in
    let cur_y = clampi y (pos 0) (int_of d.height -ℤ pos 1) in
    let c1 = record (cursor_restore_under d c) { x = cur_x; y = cur_y } in
    let c2 = cursor_save_under d c1 cur_x cur_y in
    record c2 { screen = cursor_draw_shape d c2.screen cur_x cur_y 0x000000 }
