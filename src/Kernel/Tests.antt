-- ===== src/Kernel/Tests.antt =====
-- kernel.c: the cursor on a small screen, and the calculator.
use os_from_scratch_graphic.Prelude.{some, ◌≡◌, refl, false, arith, List, [], ◌∷◌, ◌++◌}
use os_from_scratch_graphic.Prelude.Int.{ℤ, pos, ◌+ℤ◌, ◌*ℤ◌}
use os_from_scratch_graphic.Memory.{Memory}
use os_from_scratch_graphic.Endian.{Bytes}
use os_from_scratch_graphic.Graphics.{Mode}
use os_from_scratch_graphic.Graphics.Pixels.{IsMode}
use os_from_scratch_graphic.Kernel.Cursor.{Cursor}
use os_from_scratch_graphic.Kernel.Trail.{background, moves, background-moves}
use os_from_scratch_graphic.Kernel.Calculator.{read_number, apply_op, eval_loop, calc_result}
use os_from_scratch_graphic.Text.Literals.{codes}
use os_from_scratch_graphic.Kernel.Url.{parse_url}
use os_from_scratch_graphic.Kernel.Link.{parse_url-parts}
use os_from_scratch_graphic.Kernel.Operands.{Term, plus, times, over, shortened}

abbrev small : Mode
small = record { addr = 0xfd000000; width = 32; height = 16; pitch = 128; off_font = λ c i. 0 }

small-IsMode : IsMode small
small-IsMode = record {
  set_up = omega arith;
  row = omega arith;
  whole = omega arith;
  wide = omega arith;
  high = omega arith;
}

-- The color of each word is its index.
abbrev stripes : Memory
stripes q = q

abbrev start : Cursor
start = record { screen = stripes; under = λ j i. 0; saved = false; x = pos 0; y = pos 0 }

-- Two places that overlap, and one in the corner of the screen.
abbrev path : List (ℤ × ℤ)
path = (pos 3, pos 2) ∷ (pos 5, pos 4) ∷ (pos 90, pos 90) ∷ []

background-moves_example :
    background small (moves small start path) 6 5 ≡ background small start 6 5
background-moves_example = background-moves path small start 6 5 small-IsMode refl

-- "12*3*40"
abbrev product : Bytes
product = b'1' ∷ b'2' ∷ b'*' ∷ b'3' ∷ b'*' ∷ b'4' ∷ b'0' ∷ []

-- The digit behind each operator is lost: 12, times nothing, which is 0.
calc_result-product : calc_result product ≡ pos 0
unfolding calc_result eval_loop read_number apply_op ◌+ℤ◌ ◌*ℤ◌
calc_result-product = refl

-- "12+034", which shows 46.
abbrev padded : Bytes
padded = b'1' ∷ b'2' ∷ b'+' ∷ b'0' ∷ b'3' ∷ b'4' ∷ []

calc_result-padded : calc_result padded ≡ pos 46
unfolding calc_result eval_loop read_number apply_op ◌+ℤ◌
calc_result-padded = refl

-- 12*3+48/05: nothing is left of the 3.
abbrev terms : List Term
terms =
    record { op = times; head = b'3'; tail = [] }
    ∷ record { op = plus; head = b'4'; tail = b'8' ∷ [] }
    ∷ record { op = over; head = b'0'; tail = b'5' ∷ [] }
    ∷ []

shortened-terms : shortened (pos 12) terms ≡ pos 1
unfolding shortened ◌+ℤ◌ ◌*ℤ◌
shortened-terms = refl

-- "http://h:8080/i"
parse_url-parts_example :
    parse_url (codes "http://" ++ (codes "h" ++ (b':' ∷ codes "8080" ++ (b'/' ∷ codes "i")))) 64
    ≡ some (record { host = codes "h" ++ (0 ∷ []); path = b'/' ∷ codes "i"; port = 8080 })
parse_url-parts_example =
    parse_url-parts (codes "h") (codes "8080") (codes "i") 64 (refl, tt) (omega arith)
      (refl, (refl, (refl, (refl, tt)))) (omega arith)
