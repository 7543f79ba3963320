-- ===== src/Kernel/Choice.antt =====
-- kernel.c: the desktop against the machine of its start menu.
use os_from_scratch_graphic.Prelude.{
  ℕ, ◌≡◌, ◌≤◌, inl, inr, refl, ap, ◌∙◌, Bool, Bool-cases, true, false, Option, none, some, List, [],
  ◌∷◌, arith, if◌then◌else◌,
}
use os_from_scratch_graphic.Prelude.Int.{ℤ, pos_part, ◌+ℤ◌}
use os_from_scratch_graphic.Endian.{Bytes}
use os_from_scratch_graphic.Graphics.{Mode}
use os_from_scratch_graphic.Syscalls.Run.{Kernel}
use os_from_scratch_graphic.Kernel.Cursor.{
  Cursor, cursor_move_to, cursor_save_under, cursor_restore_under,
}
use os_from_scratch_graphic.Kernel.Mouse.{Movement}
use os_from_scratch_graphic.Kernel.Desktop.{
  Session, Outcome, waits, returns, left_button, follow_mouse, cleared, on_line, on_button, on_menu,
  close_outside, run_hello, run_image, menu_click, desktop_click, desktop_loop,
}
use os_from_scratch_graphic.Kernel.Menu.{
  IsPlaced, IsPlaced-roomy, IsRoomy, choice, clamped-pos, clicks, closed-target, elsewhere,
  hello_line, in_button, in_line, in_menu, line-in_menu, menu, menu_step, moved_to, on_menu-place,
  place, shown, target_at,
}

-- The application with which the rounds end.
abbrev pub chosen : Option (ℕ × Session × List Movement) → Option ℕ
chosen none = none
chosen (some (app, s, vs)) = some app

module _ (run : ℕ → Kernel → ℤ × Kernel) (stub table : ℕ) (hello : Option Bytes) where
  -- Running the program leaves the cursor where it is.
  run_hello-place :
      (s : Session)
      → ((run_hello run stub table hello s).cursor.x ≡ s.cursor.x)
        × ((run_hello run stub table hello s).cursor.y ≡ s.cursor.y)
  unfolding run_hello run_image
  run_hello-place s =
      elim hello
        as (λ h.
          ((run_hello run stub table h s).cursor.x ≡ s.cursor.x)
          × ((run_hello run stub table h s).cursor.y ≡ s.cursor.y)) [
            | none ↦ (refl, refl)
            | some [] ↦ (refl, refl)
            | some (b ∷ image) ↦ (refl, refl)
          ]

  close_outside-shown :
      (d : Mode) (s : Session) (h x y : ℕ)
      → on_menu d s.cursor ≡ in_menu h x y
      → shown (close_outside d s) ≡ menu_step true (if in_menu h x y then menu else elsewhere)
  unfolding menu_step
  close_outside-shown d s h x y whole = elim (Bool-cases (in_menu h x y)) [
    | inl inside ↦ rw (whole, inside) refl
    | inr outside ↦ rw (whole, outside) refl
  ]

  -- Below the applications: the line of the program, and the rest.
  last_line :
      (d : Mode) (s : Session) (x y : ℕ)
      → 220 ≤ d.height
      → IsPlaced d s.cursor x y
      → shown (
          close_outside d
            (if on_line d s.cursor 136 then run_hello run stub table hello (cleared d s) else s))
        ≡ menu_step true (
            if in_line d.height x y 136
            then hello_line
            else (if in_menu d.height x y then menu else elsewhere))
  unfolding menu_step
  last_line d s x y high t = elim (Bool-cases (in_line d.height x y 136)) [
    | inl program ↦
        rw (t.line 136, program)
          (close_outside-shown d after d.height x y (
              on_menu-place d after.cursor s.cursor (run_hello-place (cleared d s)).0
                (run_hello-place (cleared d s)).1
              ∙ t.whole)
            ∙ rw (line-in_menu d.height x y high program) refl)
    | inr no_line ↦ rw (t.line 136, no_line) (close_outside-shown d s d.height x y t.whole)
  ]
    where
      after : Session
      after = run_hello run stub table hello (cleared d s)

  menu_click-shown :
      (d : Mode) (s : Session) (x y : ℕ)
      → 220 ≤ d.height
      → IsPlaced d s.cursor x y
      → in_button d.height x y ≡ false
      → shown (menu_click run stub table hello d s) ≡ menu_step true (target_at d.height x y)
  unfolding menu_click target_at menu_step
  menu_click-shown d s x y high t other = elim (Bool-cases (in_line d.height x y 16)) [
    | inl one ↦ rw (t.line 16, other, one) refl
    | inr not1 ↦ elim (Bool-cases (in_line d.height x y 46)) [
      | inl two ↦ rw (t.line 16, t.line 46, other, not1, two) refl
      | inr not2 ↦ elim (Bool-cases (in_line d.height x y 76)) [
        | inl three ↦ rw (t.line 16, t.line 46, t.line 76, other, not1, not2, three) refl
        | inr not3 ↦
            rw (t.line 16, t.line 46, t.line 76, other, not1, not2, not3) (last_line d s x y high t)
      ]
    ]
  ]

  desktop_click-shown :
      (d : Mode) (s : Session) (opened : Bool) (x y : ℕ)
      → 220 ≤ d.height
      → IsPlaced d s.cursor x y
      → shown (desktop_click run stub table hello d (record { session = s; start_open = opened }))
        ≡ menu_step opened (target_at d.height x y)
  unfolding desktop_click target_at menu_step
  desktop_click-shown d s true x y high t = elim (Bool-cases (in_button d.height x y)) [
    | inl button ↦ rw (t.button, button) refl
    | inr other ↦
        rw (t.button, other) (menu_click-shown d s x y high t other ∙ rw (other, target_at) refl)
  ]
  desktop_click-shown d s false x y high t = elim (Bool-cases (in_button d.height x y)) [
    | inl button ↦ rw (t.button, button) refl
    | inr other ↦ rw (t.button, other) (closed-target d.height x y other)
  ]

  close_outside-place :
      (d : Mode) (s : Session) → place (close_outside d s) ≡ (s.cursor.x, s.cursor.y)
  close_outside-place d s = elim (Bool-cases (on_menu d s.cursor)) [
    | inl inside ↦ rw inside refl
    | inr outside ↦ rw outside refl
  ]

  last_line-place :
      (d : Mode) (s : Session) (program : Bool)
      → place
          (close_outside d (if program then run_hello run stub table hello (cleared d s) else s))
        ≡ (s.cursor.x, s.cursor.y)
  last_line-place d s true =
      close_outside-place d (run_hello run stub table hello (cleared d s))
      ∙ rw ((run_hello-place (cleared d s)).0, (run_hello-place (cleared d s)).1) refl
  last_line-place d s false = close_outside-place d s

  menu_click-place :
      (d : Mode) (s : Session)
      → place (menu_click run stub table hello d s) ≡ (s.cursor.x, s.cursor.y)
  unfolding menu_click
  menu_click-place d s = elim (Bool-cases (on_line d s.cursor 16)) [
    | inl one ↦ rw one refl
    | inr not1 ↦ elim (Bool-cases (on_line d s.cursor 46)) [
      | inl two ↦ rw (not1, two) refl
      | inr not2 ↦ elim (Bool-cases (on_line d s.cursor 76)) [
        | inl three ↦ rw (not1, not2, three) refl
        | inr not3 ↦ rw (not1, not2, not3) (last_line-place d s (on_line d s.cursor 136))
      ]
    ]
  ]

  desktop_click-place :
      (d : Mode) (s : Session) (opened : Bool)
      → place (desktop_click run stub table hello d (record { session = s; start_open = opened }))
        ≡ (s.cursor.x, s.cursor.y)
  unfolding desktop_click
  desktop_click-place d s true = elim (Bool-cases (on_button d s.cursor)) [
    | inl button ↦ rw button refl
    | inr other ↦ rw other (menu_click-place d s)
  ]
  desktop_click-place d s false = elim (Bool-cases (on_button d s.cursor)) [
    | inl button ↦ rw button refl
    | inr other ↦ rw other refl
  ]

  -- The rounds behind a click, for an outcome and what it shows.
  desktop_loop-outcome :
      (d : Mode) (vs : List Movement)
      → ((s : Session) (opened : Bool)
          → chosen
              (desktop_loop run stub table hello d (record { session = s; start_open = opened }) vs)
            ≡ choice opened (clicks d s.cursor.x s.cursor.y vs))
      → (o : Outcome) (x y : ℤ) (r : Option ℕ × Bool) → shown o ≡ r
      → place o ≡ (x, y)
      → chosen (elim o [
        | waits k1 ↦ desktop_loop run stub table hello d k1 vs
        | returns app s ↦ some (app, s, vs)
      ])
        ≡ (let rest = choice r.1 (clicks d x y vs) in elim r.0 [ none ↦ rest | some n ↦ some n ])
  desktop_loop-outcome d vs again (waits k) x y r shows at =
      again k.session k.start_open
      ∙ (ap (λ (p : ℤ × ℤ). choice k.start_open (clicks d p.0 p.1 vs)) at
          ∙ ap
              (λ (q : Option ℕ × Bool).
                let rest = choice q.1 (clicks d x y vs) in
                elim q.0 as (λ z. Option ℕ) [ none ↦ rest | some n ↦ some n ])
              shows)
  desktop_loop-outcome d vs again (returns app s) x y r shows at =
      ap
        (λ (q : Option ℕ × Bool).
          let rest = choice q.1 (clicks d x y vs) in
          elim q.0 as (λ z. Option ℕ) [ none ↦ rest | some n ↦ some n ])
        shows

  follow_mouse-moved_to :
      (d : Mode) (c : Cursor) (v : Movement)
      → ((follow_mouse d c v).x, (follow_mouse d c v).y) ≡ moved_to d c.x c.y v
  unfolding cursor_move_to cursor_save_under cursor_restore_under
  follow_mouse-moved_to d c v = refl

  -- After a movement the place of the cursor is not negative.
  moved_to-IsPlaced :
      (d : Mode) (c : Cursor) (v : Movement)
      → IsRoomy d
      → let p = moved_to d c.x c.y v in
        IsPlaced d (follow_mouse d c v) (pos_part p.0) (pos_part p.1)
  moved_to-IsPlaced d c v r =
      IsPlaced-roomy d (follow_mouse d c v) _ _ r
        (ap (λ p. p.0) (follow_mouse-moved_to d c v)
          ∙ clamped-pos (c.x +ℤ v.dx) d.width r.wide r.width_int)
        (ap (λ p. p.1) (follow_mouse-moved_to d c v)
          ∙ clamped-pos (c.y +ℤ v.dy) d.height (omega (arith, r.high)) r.height_int)

  -- On a screen that is wide and high enough, for any movements of the mouse, the desktop returns the application
  -- that the machine of the menu chooses for the clicks of the left button, and none where it chooses none: the start
  -- button opens and closes the menu, a line of it chooses while it is open, the line of the program leaves it open, and a click
  -- elsewhere closes it.
  pub desktop_loop-choice :
      (vs : List Movement) (d : Mode) (s : Session) (opened : Bool)
      → IsRoomy d
      → chosen
          (desktop_loop run stub table hello d (record { session = s; start_open = opened }) vs)
        ≡ choice opened (clicks d s.cursor.x s.cursor.y vs)
  unfolding desktop_loop choice clicks
  desktop_loop-choice [] d s opened r = refl
  desktop_loop-choice (v ∷ vs) d s opened r = elim (Bool-cases (left_button v)) [
    | inl pressed ↦ rw pressed (
        desktop_loop-outcome d vs (λ s' o. desktop_loop-choice vs d s' o r)
          (desktop_click run stub table hello d (record { session = after; start_open = opened })) _
          _ _ (desktop_click-shown d after opened _ _ r.high (moved_to-IsPlaced d s.cursor v r))
          (desktop_click-place d after opened ∙ follow_mouse-moved_to d s.cursor v))
    | inr released ↦ rw released (
        desktop_loop-choice vs d after opened r
        ∙ ap (λ (p : ℤ × ℤ). choice opened (clicks d p.0 p.1 vs))
            (follow_mouse-moved_to d s.cursor v))
  ]
    where
      after : Session
      after = record s { cursor = follow_mouse d s.cursor v }
