-- ===== src/Kernel/Menu.antt =====
-- kernel.c: a machine of the start menu, and where its clicks are on the screen.
use os_from_scratch_graphic.Prelude.{
  ℕ, ◌+◌, ◌-◌, ◌≡◌, ◌≤◌, ◌<◌, refl, Bool, true, false, not, ◌&&◌, Option, none, some, List, [], ◌∷◌,
  arith, ltb, ◌^◌, if◌then◌else◌,
}
use os_from_scratch_graphic.Prelude.Int.{ℤ, pos, negsuc, pos_part, ◌+ℤ◌, ◌-ℤ◌}
use os_from_scratch_graphic.Graphics.{Mode, int_of}
use os_from_scratch_graphic.Kernel.Cursor.{Cursor, clampi}
use os_from_scratch_graphic.Kernel.Mouse.{Movement}
use os_from_scratch_graphic.Kernel.Desktop.{
  Outcome, waits, returns, left_button, menu_y, button_y, on_line, on_button, on_menu,
}

-- What a click of the left button hits.
pub data Target : Type 0 where
  start_button hello_line menu elsewhere : Target
  application : ℕ → Target

-- Strictly between.
abbrev pub between : ℕ → ℕ → ℕ → Bool
between l x r = ltb l x && ltb x r

-- The lines for a screen that is `h` high: the menu ends 40 above the bottom and is 180 high.
unfoldable pub in_line : ℕ → ℕ → ℕ → ℕ → Bool
in_line h x y top = between 16 x 180 && between (h - 220 + top) y (h - 200 + top)

unfoldable pub in_button : ℕ → ℕ → ℕ → Bool
in_button h x y = between 8 x 36 && between (h - 34) y (h - 6)

unfoldable pub in_menu : ℕ → ℕ → ℕ → Bool
in_menu h x y = between 0 x 220 && between (h - 220) y (h - 40)

unfoldable pub target_at : ℕ → ℕ → ℕ → Target
target_at h x y =
    if in_button h x y
    then start_button
    else if in_line h x y 16
    then application 1
    else if in_line h x y 46
    then application 2
    else if in_line h x y 76
    then application 3
    else if in_line h x y 136
    then hello_line
    else if in_menu h x y
    then menu
    else elsewhere

-- The menu: the application that a click chooses, and whether it is open afterwards.
unfoldable pub menu_step : Bool → Target → Option ℕ × Bool
menu_step opened start_button = (none, not opened)
menu_step false _ = (none, false)
menu_step true (application n) = (some n, false)
menu_step true hello_line = (none, true)
menu_step true menu = (none, true)
menu_step true elsewhere = (none, false)

-- A run of clicks, up to the first choice.
unfoldable pub choice : Bool → List Target → Option ℕ
choice opened [] = none
choice opened (t ∷ ts) =
    let r = menu_step opened t in
    let rest = choice r.1 ts in elim r.0 [ none ↦ rest | some n ↦ some n ]

-- The place of the cursor after a movement: it stays on the screen.
abbrev pub moved_to : Mode → ℤ → ℤ → Movement → ℤ × ℤ
moved_to d x y v = (
  clampi (x +ℤ v.dx) (pos 0) (int_of d.width -ℤ pos 1),
  clampi (y +ℤ v.dy) (pos 0) (int_of d.height -ℤ pos 1),
)

-- What the movements with the left button down hit.
unfoldable pub clicks : Mode → ℤ → ℤ → List Movement → List Target
clicks d x y [] = []
clicks d x y (v ∷ vs) =
    let p = moved_to d x y v in
    let rest = clicks d p.0 p.1 vs in
    if left_button v then target_at d.height (pos_part p.0) (pos_part p.1) ∷ rest else rest

-- A screen that the menu fits on.
pub record IsRoomy (d : Mode) : Type 0 where
  pub wide : 0 < d.width
  pub width_int : d.width < 2 ^ 31
  pub high : 220 ≤ d.height
  pub height_int : d.height < 2 ^ 31

menu_y-eq : (d : Mode) → IsRoomy d → menu_y d ≡ pos (d.height - 220)
unfolding ◌-ℤ◌
menu_y-eq d r = let high = r.high in let small = r.height_int in ground arith

button_y-eq : (d : Mode) → IsRoomy d → button_y d ≡ pos (d.height - 34)
unfolding ◌-ℤ◌ ◌+ℤ◌
button_y-eq d r = let high = r.high in let small = r.height_int in ground arith

last_pixel : (n : ℕ) → 0 < n → n < 2 ^ 31 → int_of n -ℤ pos 1 ≡ pos (n - 1)
unfolding ◌-ℤ◌
last_pixel n some_pixel small = ground arith

clampi-pos : (v : ℤ) (n : ℕ) → clampi v (pos 0) (pos n) ≡ pos (pos_part (clampi v (pos 0) (pos n)))
clampi-pos (pos k) n = ground arith
clampi-pos (negsuc k) n = ground arith

pub clamped-pos :
    (v : ℤ) (n : ℕ)
    → 0 < n
    → n < 2 ^ 31
    → clampi v (pos 0) (int_of n -ℤ pos 1) ≡ pos (pos_part (clampi v (pos 0) (int_of n -ℤ pos 1)))
clamped-pos v n some_pixel small = rw (last_pixel n some_pixel small) (clampi-pos v (n - 1))

-- What an outcome shows, and the place of the cursor in it.
abbrev pub shown : Outcome → Option ℕ × Bool
shown (waits k) = (none, k.start_open)
shown (returns n s) = (some n, false)

abbrev pub place : Outcome → ℤ × ℤ
place (waits k) = (k.session.cursor.x, k.session.cursor.y)
place (returns n s) = (s.cursor.x, s.cursor.y)

-- The tests of the code on a screen that is roomy, for a cursor at a place that is not negative.
pub record IsPlaced (d : Mode) (c : Cursor) (x y : ℕ) : Type 0 where
  pub button : on_button d c ≡ in_button d.height x y
  pub line : (top : ℕ) → on_line d c top ≡ in_line d.height x y top
  pub whole : on_menu d c ≡ in_menu d.height x y

pub IsPlaced-roomy :
    (d : Mode) (c : Cursor) (x y : ℕ) → IsRoomy d → c.x ≡ pos x → c.y ≡ pos y → IsPlaced d c x y
unfolding ◌+ℤ◌ on_button on_line on_menu in_button in_line in_menu
IsPlaced-roomy d c x y r at_x at_y = record {
  button = rw (at_x, at_y, button_y-eq d r) (let high = r.high in ground arith);
  line = λ top. rw (at_x, at_y, menu_y-eq d r) (let high = r.high in ground arith);
  whole = rw (at_x, at_y, menu_y-eq d r) (let high = r.high in ground arith);
}

pub on_menu-place : (d : Mode) (c e : Cursor) → c.x ≡ e.x → c.y ≡ e.y → on_menu d c ≡ on_menu d e
unfolding on_menu
on_menu-place d c e at_x at_y = rw (at_x, at_y, on_menu) refl

pub line-in_menu : (h x y : ℕ) → 220 ≤ h → in_line h x y 136 ≡ true → in_menu h x y ≡ true
unfolding in_line in_menu
line-in_menu h x y high on_it = ground arith

-- Off the button, nothing happens while the menu is closed.
pub closed-target :
    (h x y : ℕ)
    → in_button h x y ≡ false
    → (none, false)
      ≡ menu_step false (
          if in_line h x y 16
          then application 1
          else if in_line h x y 46
          then application 2
          else if in_line h x y 76
          then application 3
          else if in_line h x y 136
          then hello_line
          else if in_menu h x y
          then menu
          else elsewhere)
unfolding menu_step
closed-target h x y other = ground arith
