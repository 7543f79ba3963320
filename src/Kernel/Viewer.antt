-- ===== src/Kernel/Viewer.antt =====
-- kernel.c: the frames of the two windows, and the pairs that the viewer of JSON shows.
use os_from_scratch_graphic.Prelude.{
  ℕ, zero, suc, ◌+◌, ◌-◌, ◌/◌, Bool, ◌&&◌, Option, none, some, List, [], ◌∷◌, ◌++◌, drop, ltb,
  if◌then◌else◌,
}
use os_from_scratch_graphic.Prelude.Int.{ℤ, pos, ◌+ℤ◌, ◌-ℤ◌}
use os_from_scratch_graphic.Endian.{Bytes, load_bytes}
use os_from_scratch_graphic.Memory.{Memory}
use os_from_scratch_graphic.Text.{snprintf}
use os_from_scratch_graphic.Text.Literals.{codes}
use os_from_scratch_graphic.Graphics.{Mode, draw_rect}
use os_from_scratch_graphic.Graphics.Draw.{draw_string}
use os_from_scratch_graphic.Dns.Query.{Stack}
use os_from_scratch_graphic.Http.Client.{World, Reply}
use os_from_scratch_graphic.Kernel.Cursor.{Cursor, cursor_move_to, cursor_restore_under}
use os_from_scratch_graphic.Kernel.Mouse.{Movement, draw_rounded}
use os_from_scratch_graphic.Kernel.Desktop.{left_button, follow_mouse, within, fill}
use os_from_scratch_graphic.Kernel.Browser.{
  Fetch, fetch, fetch_or_tls, got_nothing, text_of, window_x, window_y, draw_lines, draw_page,
  failed_text,
}

-- The window with its title and the button that closes it.
unfoldable pub draw_window : Mode → Memory → Bytes → Memory
draw_window d m title =
    let wx = window_x d in
    let wy = window_y d in
    let m1 = draw_rounded d (fill d m 0x87ceeb) wx wy (pos 600) (pos 400) (pos 12) 0xcccccc in
    let m2 = draw_rect d m1 wx wy (pos 600) (pos 30) 0x1e90ff in
    let m3 = draw_string d m2 (wx +ℤ pos 10) (wy +ℤ pos 8) title 0xffffff in
    let m4 = draw_rect d m3 (wx +ℤ pos 600 -ℤ pos 26) (wy +ℤ pos 5) (pos 20) (pos 20) 0xff0000 in
    draw_string d m4 (wx +ℤ pos 600 -ℤ pos 26 +ℤ pos 5) (wy +ℤ pos 5 +ℤ pos 2) (codes "X") 0xffffff

abbrev pub on_close : Mode → Cursor → Bool
on_close d c =
    let x = window_x d +ℤ pos 600 -ℤ pos 26 in
    let y = window_y d +ℤ pos 5 in within c x (x +ℤ pos 20) y (y +ℤ pos 20)

-- The cursor and the movements left when the window is closed; none is a loop that has not ended.
unfoldable pub await_close : Mode → Cursor → List Movement → Option (Cursor × List Movement)
await_close d c [] = none
await_close d c (v ∷ vs) =
    let c1 = follow_mouse d c v in
    let rest = await_close d c1 vs in
    if left_button v && on_close d c1 then some (cursor_restore_under d c1, vs) else rest

-- The content areas: 318 rows behind 70 of the browser, and 350 rows behind 38 of the viewer, of the 400.
abbrev pub browser_rows : ℕ
browser_rows = 400 - (30 + 8 + 24 + 8 + 12)

abbrev pub viewer_rows : ℕ
viewer_rows = 400 - (30 + 8 + 12)

abbrev pub browser_y : Mode → ℤ
browser_y d = window_y d +ℤ pos 38 +ℤ pos 32

abbrev pub viewer_y : Mode → ℤ
viewer_y d = window_y d +ℤ pos 38

abbrev pub url : Bytes
url = codes "http://jsonplaceholder.typicode.com/posts/2"

-- The empty content, before the fetch.
unfoldable pub draw_fetching : Mode → Memory → ℤ → ℕ → Memory
draw_fetching d m y h =
    let x = window_x d +ℤ pos 10 in
    draw_string d (draw_rect d m x y (pos 580) (pos h) 0xffffff) (x +ℤ pos 6) (y +ℤ pos 8)
      (codes "Fetching...") 0x000000

unfoldable pub draw_address : Mode → Memory → Memory
draw_address d m =
    let x = window_x d +ℤ pos 10 in
    let y = window_y d +ℤ pos 38 in
    draw_string d (draw_rect d m x y (pos 580) (pos 24) 0xdddddd) (x +ℤ pos 6) (y +ℤ pos 5)
      (url ++ (0 ∷ [])) 0x000000

-- jsmntok_t, of which the viewer reads whether it is a string and the two ends.
pub record Token : Type 0 where
  pub is_string : Bool
  pub start : ℕ
  pub end : ℕ

-- At most 63 bytes of the text of a token.
abbrev pub token_text : Bytes → Token → Bytes
token_text bodybuf t =
    let n = t.end - t.start in
    load_bytes (if ltb 63 n then 63 else n) (drop t.start bodybuf) ++ (0 ∷ [])

abbrev pub pair_line : Bytes → Token → Token → Bytes
pair_line bodybuf k v =
    snprintf 128 (codes "%s: %s") (token_text bodybuf k ∷ (token_text bodybuf v ∷ []))

-- `for (int i = 1; i < r; i++)`, for the token in front of the others and the lines left.
unfoldable pub pair_lines : ℕ → Bytes → Token → List Token → List Bytes
pair_lines room bodybuf k [] = []
pair_lines zero bodybuf k (v ∷ ts) = []
pair_lines (suc room) bodybuf k (v ∷ ts) =
    let shown = pair_line bodybuf k v ∷ pair_lines room bodybuf v ts in
    let rest = pair_lines (suc room) bodybuf v ts in
    if v.is_string && k.is_string then shown else rest

abbrev pub tokens_lines : ℕ → Bytes → List Token → List Bytes
tokens_lines room bodybuf [] = []
tokens_lines room bodybuf (t ∷ ts) = pair_lines room bodybuf t ts

-- From `jsmn_parse` on, on the empty content.
abbrev pub draw_parsed : Mode → Memory → Bytes → Option (List Token) → Memory
draw_parsed d m bodybuf none =
    draw_string d m (window_x d +ℤ pos 16) (viewer_y d +ℤ pos 8) (codes "Failed to parse JSON")
      0xff0000
draw_parsed d m bodybuf (some ts) =
    draw_lines d m (window_x d +ℤ pos 16) (viewer_y d +ℤ pos 8) 0
      (tokens_lines ((viewer_rows - 16) / 10) bodybuf ts)

-- The result of the fetch in the viewer; `jsmn_parse` gives at most 128 tokens of the text, or none for an error.
unfoldable pub draw_tokens : (Bytes → Option (List Token)) → Mode → Memory → Fetch → Memory
draw_tokens jsmn_parse d m f =
    let m1 =
      draw_rect d m (window_x d +ℤ pos 10) (viewer_y d) (pos 580) (pos viewer_rows) 0xffffff in
    if got_nothing f.got
    then draw_string d m1 (window_x d +ℤ pos 16) (viewer_y d +ℤ pos 8) failed_text 0xff0000
    else draw_parsed d m1 f.bodybuf (jsmn_parse (text_of f.bodybuf))

-- A window that is open: the network behind the fetch, and what the loop leaves.
abbrev pub Closed : Type 0
Closed = World × Option (Cursor × List Movement)

-- From the result on: the page is drawn, and the loop waits for the button.
abbrev pub show_result :
    (Memory → Fetch → Memory) → Mode → Cursor → List Movement → World × Fetch → Closed
show_result draw d c vs (w, f) =
    (w, await_close d (cursor_move_to d (record c { screen = draw c.screen f }) c.x c.y) vs)

module _ (dns_arrive http_arrive : ℕ → Stack → Stack) where
  -- None is an exchange that has not ended.
  unfoldable pub browser_ui :
      (World → ℕ → Bytes → Bytes → World × Reply)
      → ℕ
      → Mode
      → World
      → Cursor
      → List Movement
      → Option Closed
  browser_ui tls fuel d w c vs =
      let m = draw_address d (draw_window d c.screen (codes "TBHCR Browser")) in
      let c1 =
        cursor_move_to d (record c { screen = draw_fetching d m (browser_y d) browser_rows }) c.x
          c.y in
      elim (fetch_or_tls dns_arrive http_arrive tls fuel w (url ++ (0 ∷ []))) [
        | none ↦ none
        | some r ↦
            some (show_result (λ m1 f. draw_page d m1 (browser_y d) browser_rows f) d c1 vs r)
      ]

  unfoldable pub json_viewer_ui :
      (Bytes → Option (List Token)) → ℕ → Mode → World → Cursor → List Movement → Option Closed
  json_viewer_ui jsmn_parse fuel d w c vs =
      let m = draw_window d c.screen (codes "JSON Viewer") in
      let c1 =
        cursor_move_to d (record c { screen = draw_fetching d m (viewer_y d) viewer_rows }) c.x
          c.y in
      elim (fetch dns_arrive http_arrive fuel w
        (codes "http://jsonplaceholder.typicode.com/users/1" ++ (0 ∷ []))) [
          | none ↦ none
          | some r ↦ some (show_result (draw_tokens jsmn_parse d) d c1 vs r)
        ]
