-- ===== src/Kernel/Keys.antt =====
-- kernel.c: the window of the calculator.
--
-- A round of the loop without a packet of the mouse only draws the same display again, and is left out.
use os_from_scratch_graphic.Prelude.{
  ℕ, zero, suc, ◌+◌, ◌*◌, ◌/◌, ◌%◌, Option, none, some, List, [], ◌∷◌, Bool, not, ◌==◌,
  if◌then◌else◌,
}
use os_from_scratch_graphic.Prelude.Int.{ℤ, pos, ◌+ℤ◌, ◌-ℤ◌}
use os_from_scratch_graphic.Endian.{Bytes, byte}
use os_from_scratch_graphic.Memory.{Memory}
use os_from_scratch_graphic.Text.Literals.{codes}
use os_from_scratch_graphic.Graphics.{Mode, draw_rect}
use os_from_scratch_graphic.Graphics.Draw.{draw_string}
use os_from_scratch_graphic.Kernel.Cursor.{Cursor, cursor_move_to, cursor_restore_under}
use os_from_scratch_graphic.Kernel.Calculator.{calc_add, calc_clear, calc_eval}
use os_from_scratch_graphic.Kernel.Mouse.{Movement, draw_rounded}
use os_from_scratch_graphic.Kernel.Desktop.{left_button, follow_mouse, within, centered, fill}

abbrev pub draw_key : Mode → Memory → ℤ → ℤ → ℕ → Memory
draw_key d m x y c =
    draw_string d (draw_rect d m x y (pos 60) (pos 40) 0xaaaaaa) (x +ℤ pos 25) (y +ℤ pos 13)
      (c ∷ []) 0x000000

-- The window: 300 wide, 350 high.
abbrev pub window_x : Mode → ℤ
window_x d = centered d.width 300

abbrev pub window_y : Mode → ℤ
window_y d = centered d.height 350

abbrev pub keys : Bytes
keys = codes "789/456*123-0.=+C"

-- The key of number `idx`, which is row * 4 + column.
abbrev pub key_x : Mode → ℕ → ℤ
key_x d idx = window_x d +ℤ pos (10 + idx % 4 * 65)

abbrev pub key_y : Mode → ℕ → ℤ
key_y d idx = window_y d +ℤ pos (80 + idx / 4 * 45)

unfoldable pub draw_keys : Mode → Memory → ℕ → ℕ → Memory
draw_keys d m idx zero = m
draw_keys d m idx (suc n) =
    draw_keys d (draw_key d m (key_x d idx) (key_y d idx) (byte keys idx)) (suc idx) n

abbrev pub close_x : Mode → ℤ
close_x d = window_x d +ℤ pos 300 -ℤ pos 30

abbrev pub close_y : Mode → ℤ
close_y d = window_y d +ℤ pos 10

unfoldable pub draw_calculator : Mode → Memory → Memory
draw_calculator d m =
    let wx = window_x d in
    let wy = window_y d in
    let m1 = draw_rounded d (fill d m 0x87ceeb) wx wy (pos 300) (pos 350) (pos 15) 0xbbbbbb in
    let m2 = draw_rect d m1 (wx +ℤ pos 10) (wy +ℤ pos 10) (pos 280) (pos 60) 0xffffff in
    let m3 = draw_rect d m2 (close_x d) (close_y d) (pos 20) (pos 20) 0xff0000 in
    let m4 = draw_string d m3 (close_x d +ℤ pos 5) (close_y d +ℤ pos 2) (codes "X") 0xffffff in
    draw_keys d m4 0 16

-- The display of the expression.
unfoldable pub draw_display : Mode → Memory → Bytes → Memory
draw_display d m expr =
    let m1 =
      draw_rect d m (window_x d +ℤ pos 12) (window_y d +ℤ pos 12) (pos 276) (pos 56) 0xffffff in
    draw_string d m1 (window_x d +ℤ pos 20) (window_y d +ℤ pos 32) expr 0x000000

unfoldable pub press : ℕ → Bytes → Bytes
press k expr =
    if k == b'C' then calc_clear else if k == b'=' then calc_eval expr else calc_add expr k

-- The cursor is on the key of number `idx`.
unfoldable pub on_key : Mode → Cursor → ℕ → Bool
on_key d c idx =
    within c (key_x d idx) (key_x d idx +ℤ pos 60) (key_y d idx) (key_y d idx +ℤ pos 40)

-- The two loops over the keys, from number `idx` on with `n` left.
unfoldable pub press_keys : Mode → Cursor → ℕ → ℕ → Bytes → Bytes
press_keys d c idx zero expr = expr
press_keys d c idx (suc n) expr =
    press_keys d c (suc idx) n (if on_key d c idx then press (byte keys idx) expr else expr)

-- The cursor, the expression and the movements left when the window is closed; none is a loop that has not ended.
unfoldable pub calculator_loop :
    Mode → Cursor → Bytes → List Movement → Option (Cursor × Bytes × List Movement)
calculator_loop d c expr [] = none
calculator_loop d c expr (v ∷ vs) =
    let c1 = follow_mouse d (record c { screen = draw_display d c.screen expr }) v in
    let pressed = calculator_loop d c1 (press_keys d c1 0 16 expr) vs in
    let rest = calculator_loop d c1 expr vs in
    if not (left_button v)
    then rest
    else if within c1 (close_x d) (close_x d +ℤ pos 20) (close_y d) (close_y d +ℤ pos 20)
    then some (cursor_restore_under d c1, expr, vs)
    else pressed

unfoldable pub calculator_ui :
    Mode → Cursor → Bytes → List Movement → Option (Cursor × Bytes × List Movement)
calculator_ui d c expr vs =
    let c1 = record c { screen = draw_calculator d c.screen } in
    calculator_loop d (cursor_move_to d c1 c.x c.y) expr vs
