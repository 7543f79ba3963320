-- ===== src/Kernel/Desktop.antt =====
-- kernel.c: the welcome screen, and the desktop with its start menu.
--
-- The loops take the movements that the packets of the mouse give. The poll of the card in each of their rounds
-- changes only the state of the network, and is left out.
use os_from_scratch_graphic.Prelude.{
  ℕ, suc, ◌+◌, ◌-◌, ◌/◌, ◌%◌, ◌^◌, Bool, true, false, not, ◌&&◌, Option, none, some, List, [], ◌∷◌,
  ◌++◌, length, ◌==◌, bit_and, if◌then◌else◌,
}
use os_from_scratch_graphic.Prelude.Int.{ℤ, pos, negsuc, ltb_ℤ, ◌+ℤ◌, ◌-ℤ◌}
use os_from_scratch_graphic.Endian.{Bytes}
use os_from_scratch_graphic.Memory.{Memory}
use os_from_scratch_graphic.Text.Literals.{codes}
use os_from_scratch_graphic.Graphics.{Mode, int_of, draw_rect}
use os_from_scratch_graphic.Graphics.Draw.{draw_string}
use os_from_scratch_graphic.Syscalls.{console_puts, from_last, exit_digits}
use os_from_scratch_graphic.Syscalls.Run.{Kernel, elf32_load_and_run}
use os_from_scratch_graphic.Kernel.Cursor.{Cursor, cursor_move_to, cursor_restore_under}
use os_from_scratch_graphic.Kernel.Mouse.{Decoder, Movement, mouse_read_packet, draw_rounded}

-- The movements that a loop sees when the ports of the mouse give these pairs of status and data.
unfoldable pub movements : Decoder → List (ℕ × ℕ) → List Movement
movements k [] = []
movements k ((status, data_byte) ∷ ps) =
    let (moved, k1) = mouse_read_packet status data_byte k in
    let rest = movements k1 ps in elim moved [ none ↦ rest | some v ↦ v ∷ rest ]

-- `btn & 1`
abbrev pub left_button : Movement → Bool
left_button v = not (bit_and v.buttons 1 == 0)

-- `cursor_move_to(cur_x+dx, cur_y+dy);`
abbrev pub follow_mouse : Mode → Cursor → Movement → Cursor
follow_mouse d c v = cursor_move_to d c (c.x +ℤ v.dx) (c.y +ℤ v.dy)

-- `cur_x>l && cur_x<r && cur_y>t && cur_y<b`
abbrev pub within : Cursor → ℤ → ℤ → ℤ → ℤ → Bool
within c l r t b = ltb_ℤ l c.x && ltb_ℤ c.x r && (ltb_ℤ t c.y && ltb_ℤ c.y b)

-- `(framebuffer_width-n)/2`, which C computes without a sign, and `framebuffer_height-n`.
abbrev pub centered : ℕ → ℕ → ℤ
centered size n = int_of ((size + 2 ^ 32 - n) % 2 ^ 32 / 2)

abbrev pub from_bottom : Mode → ℕ → ℤ
from_bottom d n = int_of ((d.height + 2 ^ 32 - n) % 2 ^ 32)

-- The whole screen in one color.
abbrev pub fill : Mode → Memory → ℕ → Memory
fill d m color = draw_rect d m (pos 0) (pos 0) (int_of d.width) (int_of d.height) color

-- nx and ny, where the button "Next" is.
abbrev pub next_x : Mode → ℤ
next_x d = centered d.width 400 +ℤ pos 400 -ℤ pos 120

abbrev pub next_y : Mode → ℤ
next_y d = centered d.height 200 +ℤ pos 200 -ℤ pos 70

unfoldable pub draw_welcome : Mode → Memory → Memory
draw_welcome d m =
    let bx = centered d.width 400 in
    let by = centered d.height 200 in
    let m1 = draw_rounded d (fill d m 0xffffff) bx by (pos 400) (pos 200) (pos 20) 0xcccccc in
    let m2 = draw_string d m1 (bx +ℤ pos 80) (by +ℤ pos 90) (codes "Welcome To MyOS!") 0xff0000 in
    let m3 = draw_rounded d m2 (next_x d) (next_y d) (pos 100) (pos 50) (pos 15) 0x8888ff in
    draw_string d m3 (next_x d +ℤ pos 25) (next_y d +ℤ pos 15) (codes "Next") 0xffffff

-- The cursor and the movements left when the screen is left; none is a loop that has not ended.
unfoldable pub welcome_loop : Mode → Cursor → List Movement → Option (Cursor × List Movement)
welcome_loop d c [] = none
welcome_loop d c (v ∷ vs) =
    let c1 = follow_mouse d c v in
    let rest = welcome_loop d c1 vs in
    if left_button v && within c1 (next_x d) (next_x d +ℤ pos 100) (next_y d) (next_y d +ℤ pos 50)
    then some (cursor_restore_under d c1, vs)
    else rest

unfoldable pub show_welcome : Mode → Cursor → List Movement → Option (Cursor × List Movement)
show_welcome d c vs =
    let c1 = record c { screen = draw_welcome d c.screen } in
    welcome_loop d (cursor_move_to d c1 (int_of (d.width / 2)) (int_of (d.height / 2))) vs

-- The cursor with the framebuffer, and the memory and the console of the programs.
pub record Session : Type 0 where
  pub cursor : Cursor
  pub kernel : Kernel

abbrev pub with_screen : Session → Memory → Session
with_screen s m = record s { cursor = record (s.cursor) { screen = m } }

-- A line on the console, which draws on the framebuffer.
abbrev pub say : Session → Bytes → Session
say s text =
    let k = console_puts (record (s.kernel.system) { screen = s.cursor.screen }) text in
    with_screen (record s { kernel = record (s.kernel) { system = k } }) k.screen

-- `numbuf`. An int has ten digits at most; the most negative one is its own negation, and so has none.
unfoldable pub rc_text : ℤ → Bytes
rc_text (pos v) = if v == 0 then b'0' ∷ [] else from_last (exit_digits 10 v)
rc_text (negsuc v) = b'-' ∷ from_last (exit_digits 10 (if v == 2 ^ 31 - 1 then 0 else suc v))

-- sm_x, sm_y, sm_w, sm_h and sb_x, sb_y, sb_w, sb_h.
abbrev pub menu_y : Mode → ℤ
menu_y d = int_of d.height -ℤ pos 40 -ℤ pos 180

abbrev pub button_y : Mode → ℤ
button_y d = int_of d.height -ℤ pos 40 +ℤ pos 6

unfoldable pub draw_start_menu : Mode → Memory → Memory
draw_start_menu d m =
    let y = menu_y d in
    let m1 = draw_rect d m (pos 0) y (pos 220) (pos 180) 0xdddddd in
    let m2 = draw_string d m1 (pos 16) (y +ℤ pos 20) (codes "Calculator") 0x000000 in
    let m3 = draw_string d m2 (pos 16) (y +ℤ pos 50) (codes "Browser") 0x000000 in
    let m4 = draw_string d m3 (pos 16) (y +ℤ pos 80) (codes "Notes (dummy)") 0x666666 in
    let m5 = draw_string d m4 (pos 16) (y +ℤ pos 50) (codes "Browser (Posts)") 0x000000 in
    let m6 = draw_string d m5 (pos 16) (y +ℤ pos 80) (codes "JSON Viewer (Users)") 0x000000 in
    let m7 = draw_string d m6 (pos 16) (y +ℤ pos 110) (codes "Paint (dummy)") 0x666666 in
    draw_string d m7 (pos 16) (y +ℤ pos 140) (codes "Run embedded hello") 0x000000

-- The bar and the start button.
unfoldable pub draw_taskbar : Mode → Memory → Memory
draw_taskbar d m =
    let m1 = draw_rect d m (pos 0) (from_bottom d 40) (int_of d.width) (pos 40) 0x333333 in
    let m2 = draw_rect d m1 (pos 8) (button_y d) (pos 28) (pos 28) 0x8888ff in
    draw_string d m2 (pos 8 +ℤ pos 6) (button_y d +ℤ pos 8) (codes "S") 0xffffff

unfoldable pub clear_start_menu : Mode → Memory → Memory
clear_start_menu d m =
    draw_taskbar d (draw_rect d m (pos 0) (menu_y d) (pos 220) (pos 180) 0x87ceeb)

abbrev pub cleared : Mode → Session → Session
cleared d s = with_screen s (clear_start_menu d s.cursor.screen)

-- What the rounds of the desktop keep.
pub record Desk : Type 0 where
  pub session : Session
  pub start_open : Bool

pub data Outcome : Type 0 where
  waits : Desk → Outcome
  returns : ℕ → Session → Outcome

-- One line of the menu: the 20 rows behind an offset.
unfoldable pub on_line : Mode → Cursor → ℕ → Bool
on_line d c top = within c (pos 16) (pos 180) (menu_y d +ℤ pos top) (menu_y d +ℤ pos (top + 20))

unfoldable pub on_button : Mode → Cursor → Bool
on_button d c = within c (pos 8) (pos 36) (button_y d) (button_y d +ℤ pos 28)

unfoldable pub on_menu : Mode → Cursor → Bool
on_menu d c = within c (pos 0) (pos 220) (menu_y d) (menu_y d +ℤ pos 180)

-- A click that is not in the menu closes it.
abbrev pub close_outside : Mode → Session → Outcome
close_outside d s =
    if on_menu d s.cursor
    then waits (record { session = s; start_open = true })
    else waits (record { session = cleared d s; start_open = false })

-- The machine of the programs: `run` is the processor, `stub` and `table` are the addresses that init_syscalls uses,
-- and `hello` is the embedded program, where there is one.
module _ (run : ℕ → Kernel → ℤ × Kernel) (stub table : ℕ) (hello : Option Bytes) where
  abbrev pub no_program : Session → Session
  no_program s = say s (
      codes "No embedded program present. Run make userprog and embed-userprog first." ++ (10 ∷ []))

  unfoldable pub run_image : Session → Bytes → Session
  run_image s image =
      let s1 = say s (codes "Running embedded program..." ++ (10 ∷ [])) in
      let k = record (s1.kernel) {
        system = record (s1.kernel.system) { screen = s1.cursor.screen };
      } in
      let (rc, k1) = elf32_load_and_run run stub table image (length image) k in
      let s2 = with_screen (record s1 { kernel = k1 }) k1.system.screen in
      say (say (say s2 (codes "User program exited with code: ")) (rc_text rc)) (10 ∷ [])

  unfoldable pub run_hello : Session → Session
  run_hello s = elim hello [
    | none ↦ no_program s
    | some [] ↦ no_program s
    | some (b ∷ image) ↦ run_image s (b ∷ image)
  ]

  -- `if(start_open)`
  unfoldable pub menu_click : Mode → Session → Outcome
  menu_click d s =
      let c = s.cursor in
      if on_line d c 16
      then returns 1 (cleared d s)
      else if on_line d c 46
      then returns 2 (cleared d s)
      else if on_line d c 76
      then returns 3 (cleared d s)
      else close_outside d (if on_line d c 136 then run_hello (cleared d s) else s)

  -- The left button is down.
  unfoldable pub desktop_click : Mode → Desk → Outcome
  desktop_click d k =
      let s = k.session in
      if on_button d s.cursor
      then (if k.start_open
          then waits (record { session = cleared d s; start_open = false })
          else waits (record {
            session = with_screen s (draw_start_menu d s.cursor.screen);
            start_open = true;
          }))
      else if k.start_open
      then menu_click d s
      else waits k

  -- The application that is chosen, the session and the movements left; none is a loop that has not ended.
  unfoldable pub desktop_loop : Mode → Desk → List Movement → Option (ℕ × Session × List Movement)
  desktop_loop d k [] = none
  desktop_loop d k (v ∷ vs) =
      let moved = record k {
        session = record (k.session) { cursor = follow_mouse d k.session.cursor v };
      } in
      if left_button v
      then (elim (desktop_click d moved) [
        | waits k1 ↦ desktop_loop d k1 vs
        | returns app s ↦ some (app, s, vs)
      ])
      else desktop_loop d moved vs

  unfoldable pub draw_desktop : Mode → Bool → Memory → Memory
  draw_desktop d ready m =
      let m1 = fill d m 0x87ceeb in
      let m2 =
        if ready
        then draw_string d m1 (pos 20) (pos 20) (codes "NIC: 10.0.2.15 OK") 0x00aa00
        else draw_string d m1 (pos 20) (pos 20) (codes "NIC: NOT READY") 0xff0000 in
      draw_taskbar d m2

  unfoldable pub show_desktop :
      Mode → Bool → Session → List Movement → Option (ℕ × Session × List Movement)
  show_desktop d ready s vs =
      let c = record (s.cursor) { screen = draw_desktop d ready s.cursor.screen } in
      desktop_loop d
        (record { session = record s { cursor = cursor_move_to d c c.x c.y }; start_open = false })
        vs
