-- ===== src/Kernel/WindowTests.antt =====
-- kernel.c: clicks on the desktop and on the keys of the calculator, a page, and the tokens of an object.
use os_from_scratch_graphic.Prelude.{
  ℕ, ◌+◌, ◌≡◌, refl, true, false, none, some, List, [], ◌∷◌, arith,
}
use os_from_scratch_graphic.Prelude.Int.{ℤ, pos, negsuc, ◌+ℤ◌, ◌-ℤ◌}
use os_from_scratch_graphic.Endian.{Bytes}
use os_from_scratch_graphic.Memory.{Memory}
use os_from_scratch_graphic.Text.Literals.{codes}
use os_from_scratch_graphic.Graphics.{Mode}
use os_from_scratch_graphic.Exec.Sample.{space}
use os_from_scratch_graphic.Syscalls.Run.{Kernel}
use os_from_scratch_graphic.Kernel.Cursor.{Cursor}
use os_from_scratch_graphic.Kernel.Mouse.{Movement}
use os_from_scratch_graphic.Kernel.Desktop.{Session, desktop_loop}
use os_from_scratch_graphic.Kernel.Menu.{
  IsRoomy, choice, clicks, target_at, menu_step, in_button, in_line, in_menu,
}
use os_from_scratch_graphic.Kernel.Choice.{chosen, desktop_loop-choice}
use os_from_scratch_graphic.Kernel.Keys.{press, press_keys}
use os_from_scratch_graphic.Kernel.Keypad.{IsLarge, key_at, press_keys-key_at}
use os_from_scratch_graphic.Kernel.Browser.{page_lines, trim}
use os_from_scratch_graphic.Kernel.Page.{text_of_lines, page_lines-text}
use os_from_scratch_graphic.Kernel.Viewer.{Token, pair_lines}
use os_from_scratch_graphic.Kernel.Tokens.{shown_pair, pair_lines-neighbours}

-- 320 by 240, where the menu fits, and 400 by 400, where the calculator does.
abbrev low : Mode
low = record { addr = 0xfd000000; width = 320; height = 240; pitch = 1280; off_font = λ c i. 0 }

low-IsRoomy : IsRoomy low
low-IsRoomy = record {
  wide = omega arith;
  width_int = omega arith;
  high = omega arith;
  height_int = omega arith;
}

abbrev large : Mode
large = record { addr = 0xfd000000; width = 400; height = 400; pitch = 1600; off_font = λ c i. 0 }

large-IsLarge : IsLarge large
large-IsLarge = record {
  wide = omega arith;
  width_int = omega arith;
  high = omega arith;
  height_int = omega arith;
}

abbrev blank : Memory
blank q = 0

abbrev cursor : ℕ → ℕ → Cursor
cursor x y = record { screen = blank; under = λ j i. 0; saved = false; x = pos x; y = pos y }

abbrev session : Session
session = record {
  cursor = cursor 160 120;
  kernel = record {
    space = space;
    system = record {
      user_exited = false;
      user_exit_code = pos 0;
      cons_y = 6;
      idt = [];
      idtp = (0, 0);
      mode = low;
      screen = blank;
    };
  };
}

-- To the start button and to the first line of the menu, each with a click.
abbrev clicked : List Movement
clicked =
    record { dx = negsuc 139; dy = pos 100; buttons = 1 }
    ∷ (record { dx = pos 30; dy = negsuc 174; buttons = 9 } ∷ [])

abbrev halted : ℕ → Kernel → ℤ × Kernel
halted p k = (pos 0, k)

desktop_loop-choice_example :
    chosen (
      desktop_loop halted 0x1000 0x2000 none low
        (record { session = session; start_open = false })
        clicked)
    ≡ some 1
unfolding choice clicks target_at menu_step in_button in_line in_menu ◌+ℤ◌ ◌-ℤ◌
desktop_loop-choice_example =
    desktop_loop-choice halted 0x1000 0x2000 none clicked low session false low-IsRoomy

-- The second key of the second row, 5.
press_keys-key_at_example : press_keys large (cursor 155 160) 0 16 [] ≡ b'5' ∷ []
unfolding key_at press
press_keys-key_at_example =
    press_keys-key_at large (cursor 155 160) 95 55 [] large-IsLarge refl refl

-- Three lines where there is room for two.
page_lines-text_example :
    page_lines 2 (text_of_lines (codes "  a" ∷ ([] ∷ (codes "b" ∷ []))))
    ≡ (codes "a" ∷ ([] ∷ []), b'b' ∷ (10 ∷ []))
unfolding trim
page_lines-text_example =
    page_lines-text (codes "  a" ∷ ([] ∷ (codes "b" ∷ []))) 2
      (((refl, (refl, (refl, tt))), omega arith, (tt, omega arith, ((refl, tt), omega arith, tt))))

abbrev object : Bytes
object = codes "{\"a\":\"b\",\"c\":\"d\"}"

abbrev string_at : ℕ → Token
string_at p = record { is_string = true; start = p; end = p + 1 }

abbrev array : Token
array = record { is_string = false; start = 16; end = 16 }

-- a and b, b and c, c and d, and not the array behind them.
pair_lines-neighbours_example :
    pair_lines 33 object
      (string_at 2)
      (string_at 6 ∷ (string_at 10 ∷ (string_at 14 ∷ (array ∷ []))))
    ≡ shown_pair object (string_at 2, string_at 6)
      ∷ (shown_pair object (string_at 6, string_at 10)
          ∷ (shown_pair object (string_at 10, string_at 14) ∷ []))
pair_lines-neighbours_example =
    pair_lines-neighbours (string_at 6 ∷ (string_at 10 ∷ (string_at 14 ∷ (array ∷ [])))) 33 object
      (string_at 2)
