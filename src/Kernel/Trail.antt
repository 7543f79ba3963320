-- ===== src/Kernel/Trail.antt =====
-- kernel.c: the cursor leaves no trail.
use os_from_scratch_graphic.Prelude.{
  ℕ, suc, ◌+◌, ◌-◌, ◌≡◌, ◌<◌, refl, ap, ◌∙◌, Bool, true, ◌&&◌, List, [], ◌∷◌, arith, if◌then◌else◌,
}
use os_from_scratch_graphic.Prelude.Int.{ℤ, pos, negsuc, ◌+ℤ◌}
use os_from_scratch_graphic.Memory.{Memory}
use os_from_scratch_graphic.Graphics.{Mode, put_pixel, get_pixel, for_below, draw_row}
use os_from_scratch_graphic.Graphics.Pixels.{
  IsMode, on_screen, in_run, offset, rows, get_pixel-rows, for_below-cong, outside-pos,
}
use os_from_scratch_graphic.Kernel.Cursor.{
  Cursor, cursor_size, put_guarded, cursor_save_under, cursor_restore_under, cursor_draw_shape,
  cursor_move_to,
}

-- The test in front of put_pixel repeats the one inside.
put_guarded-eq :
    (d : Mode) (m : Memory) (x y : ℤ) (c : ℕ) → put_guarded d m x y c ≡ put_pixel d m x y c
unfolding put_pixel
put_guarded-eq d m x y c = ground arith

guarded-rows :
    (d : Mode) (m : Memory) (x y : ℤ) (w : ℕ → ℕ) (h : ℕ) (color : ℕ → ℕ → ℕ)
    → for_below h
        (λ j m'.
          for_below (w j) (λ i m''. put_guarded d m'' (x +ℤ pos i) (y +ℤ pos j) (color j i)) m')
        m
      ≡ rows d m x y w h color
unfolding draw_row
guarded-rows d m x y w h color = for_below-cong h _ _ m λ j m'.
    for_below-cong (w j) _ _ m' λ i m''. put_guarded-eq d m'' (x +ℤ pos i) (y +ℤ pos j) (color j i)

-- What the screen shows without the cursor.
abbrev pub background : Mode → Cursor → ℕ → ℕ → ℕ
background d c u v = get_pixel d (cursor_restore_under d c).screen (pos u) (pos v)

-- The pixel lies in the square of the cursor at the given corner.
abbrev pub covered : ℤ → ℤ → ℕ → ℕ → Bool
covered x y u v = in_run x cursor_size u && in_run y cursor_size v

background-saved :
    (d : Mode) (c : Cursor) (u v : ℕ)
    → IsMode d
    → on_screen d u v ≡ true
    → c.saved ≡ true
    → background d c u v ≡ (
        if covered c.x c.y u v
        then c.under (offset c.y v) (offset c.x u)
        else get_pixel d c.screen (pos u) (pos v))
unfolding cursor_restore_under
background-saved d c u v ok on saved =
    rw (saved, cursor_restore_under)
      (ap (λ m. get_pixel d m (pos u) (pos v))
          (guarded-rows d c.screen c.x c.y (λ j. cursor_size) cursor_size c.under)
        ∙ get_pixel-rows d c.screen c.x c.y (λ j. cursor_size) cursor_size c.under u v ok on)

-- The arrow covers its own pixels and no other.
pub get_pixel-cursor_draw_shape :
    (d : Mode) (m : Memory) (x y : ℤ) (col u v : ℕ)
    → IsMode d
    → on_screen d u v ≡ true
    → get_pixel d (cursor_draw_shape d m x y col) (pos u) (pos v) ≡ (
        if in_run x (suc (offset y v)) u && in_run y cursor_size v
        then col
        else get_pixel d m (pos u) (pos v))
unfolding cursor_draw_shape
get_pixel-cursor_draw_shape d m x y col u v ok on =
    ap (λ m'. get_pixel d m' (pos u) (pos v)) (guarded-rows d m x y suc cursor_size (λ j i. col))
    ∙ get_pixel-rows d m x y suc cursor_size (λ j i. col) u v ok on

at_offset : (x : ℤ) (n u : ℕ) → in_run x n u ≡ true → x +ℤ pos (offset x u) ≡ pos u
unfolding ◌+ℤ◌
at_offset (pos x) n u h = ground (arith, ap pos {x = x + (u - x)} {y = u})
at_offset (negsuc x) n u h = ground arith

offset-lt : (x : ℤ) (n u : ℕ) → in_run x n u ≡ true → offset x u < n
offset-lt x n u h = ground arith

-- The saved pixels are those of the screen.
under-cursor_save_under :
    (d : Mode) (c : Cursor) (x y : ℤ) (u v : ℕ)
    → IsMode d
    → on_screen d u v ≡ true
    → covered x y u v ≡ true
    → (cursor_save_under d c x y).under (offset y v) (offset x u)
      ≡ get_pixel d c.screen (pos u) (pos v)
unfolding cursor_save_under
under-cursor_save_under d c x y u v ok on cov =
    rw (at_offset x cursor_size u across, at_offset y cursor_size v down, outside-pos d u v ok, on)
      (ground (arith, offset-lt x cursor_size u across, offset-lt y cursor_size v down))
  where
    across : in_run x cursor_size u ≡ true
    across = ground arith

    down : in_run y cursor_size v ≡ true
    down = ground arith

-- A cursor that is drawn at a corner, over the pixels that it has saved.
abbrev placed : Mode → Cursor → ℤ → ℤ → Cursor
placed d c x y =
    let s = cursor_save_under d (record c { x = x; y = y }) x y in
    record s { screen = cursor_draw_shape d s.screen x y 0 }

background-placed :
    (d : Mode) (c : Cursor) (x y : ℤ) (u v : ℕ)
    → IsMode d
    → on_screen d u v ≡ true
    → background d (placed d c x y) u v ≡ get_pixel d c.screen (pos u) (pos v)
unfolding cursor_save_under
background-placed d c x y u v ok on =
    background-saved d (placed d c x y) u v ok on refl
    ∙ ground (
      arith,
      under-cursor_save_under d (record c { x = x; y = y }) x y u v ok on,
      get_pixel-cursor_draw_shape d c.screen x y 0 u v ok on,
    )

-- A move of the cursor, wherever it goes, leaves what the screen shows without the cursor.
pub background-cursor_move_to :
    (d : Mode) (c : Cursor) (x y : ℤ) (u v : ℕ)
    → IsMode d
    → on_screen d u v ≡ true
    → background d (cursor_move_to d c x y) u v ≡ background d c u v
unfolding cursor_move_to
background-cursor_move_to d c x y u v ok on =
    background-placed d (cursor_restore_under d c) _ _ u v ok on

-- A sequence of moves.
abbrev pub moves : Mode → Cursor → List (ℤ × ℤ) → Cursor
moves d c [] = c
moves d c ((x, y) ∷ ps) = moves d (cursor_move_to d c x y) ps

-- However often the cursor moves, and wherever to, each pixel of the screen shows without the cursor
-- what it showed before: the cursor leaves no trail.
pub background-moves :
    (ps : List (ℤ × ℤ)) (d : Mode) (c : Cursor) (u v : ℕ)
    → IsMode d
    → on_screen d u v ≡ true
    → background d (moves d c ps) u v ≡ background d c u v
background-moves [] d c u v ok on = refl
background-moves ((x, y) ∷ ps) d c u v ok on =
    background-moves ps d (cursor_move_to d c x y) u v ok on
    ∙ background-cursor_move_to d c x y u v ok on
