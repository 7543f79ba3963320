-- ===== src/Kernel/Browser.antt =====
-- kernel.c: the windows of the browser and of the viewer of JSON, from the fetch to the lines on the screen.
--
-- The polls of the card in dns_resolve and in the exchange are the two parameters of their models. The call of the TLS
-- library, and jsmn, which the repository has a copy of, are parameters.
use os_from_scratch_graphic.Prelude.{
  ℕ, zero, suc, ◌-◌, ◌*◌, ◌/◌, Bool, true, false, not, ◌&&◌, ◌||◌, Option, none, some, List, [],
  ◌∷◌, ◌++◌, ◌==◌, if◌then◌else◌,
}
use os_from_scratch_graphic.Prelude.Int.{ℤ, pos, negsuc, ltb_ℤ, ◌+ℤ◌, ◌-ℤ◌}
use os_from_scratch_graphic.Endian.{Bytes}
use os_from_scratch_graphic.Memory.{Memory}
use os_from_scratch_graphic.Text.{snprintf}
use os_from_scratch_graphic.Text.Literals.{codes}
use os_from_scratch_graphic.Syscalls.{from_last, exit_digits}
use os_from_scratch_graphic.Graphics.{Mode, draw_rect}
use os_from_scratch_graphic.Graphics.Draw.{draw_string}
use os_from_scratch_graphic.Dns.Query.{Stack}
use os_from_scratch_graphic.Dns.Wait.{dns_resolve}
use os_from_scratch_graphic.Http.Client.{World, Reply, http_get_by_ip_port}
use os_from_scratch_graphic.Kernel.Url.{Url, parse_url}
use os_from_scratch_graphic.Kernel.Desktop.{centered}

-- `strlen` and `memcpy` of a host: its bytes in front of the terminator.
unfoldable pub text_of : Bytes → Bytes
text_of [] = []
text_of (c ∷ s) = let rest = text_of s in if c == 0 then [] else c ∷ rest

-- The digits of a port, from the end of a buffer that has room for five.
unfoldable pub port_text : ℕ → Bytes
port_text port = if port == 0 then b'0' ∷ [] else from_last (exit_digits 5 port)

-- host_port with its terminator.
unfoldable pub host_port : Bytes → ℕ → Bytes
host_port host port = text_of host ++ (b':' ∷ (port_text port ++ (0 ∷ [])))

-- dns_ok, resolved_ip, got and bodybuf.
pub record Fetch : Type 0 where
  pub dns_ok : Bool
  pub resolved_ip : ℕ
  pub got : ℤ
  pub bodybuf : Bytes

-- `got <= 0`
abbrev pub got_nothing : ℤ → Bool
got_nothing n = not (ltb_ℤ (pos 0) n)

abbrev pub no_fetch : Fetch
no_fetch = record { dns_ok = false; resolved_ip = 0; got = pos 0; bodybuf = [] }

module _ (dns_arrive http_arrive : ℕ → Stack → Stack) where
  -- `if (dns_ok)`: none is an exchange that has not ended.
  unfoldable pub fetch_page : ℕ → World → Url → ℕ → Option (World × Fetch)
  fetch_page fuel w u ip =
      elim (http_get_by_ip_port http_arrive fuel w ip u.port (host_port u.host u.port) u.path
        8192) [
          | none ↦ none
          | some (w1, r) ↦
              some (w1, record { dns_ok = true; resolved_ip = ip; got = r.ret; bodybuf = r.out })
        ]

  -- The fetch of the viewer.
  unfoldable pub fetch : ℕ → World → Bytes → Option (World × Fetch)
  fetch fuel w url = elim (parse_url url 128) [
    | none ↦ some (w, no_fetch)
    | some u ↦
        let (answer, stack) = dns_resolve dns_arrive w.stack u.host in
        let w1 = record w { stack = stack } in
        elim answer [ none ↦ some (w1, no_fetch) | some ip ↦ fetch_page fuel w1 u ip ]
  ]

  -- The one of the browser, which tries TLS where HTTP gave nothing.
  unfoldable pub fetch_or_tls :
      (World → ℕ → Bytes → Bytes → World × Reply) → ℕ → World → Bytes → Option (World × Fetch)
  fetch_or_tls tls fuel w url = elim (fetch fuel w url) [
    | none ↦ none
    | some (w1, f) ↦ elim (parse_url url 128) [
      | none ↦ some (w1, f)
      | some u ↦
          let (w2, r) = tls w1 f.resolved_ip u.host u.path in
          some (
            if got_nothing f.got && not (f.resolved_ip == 0)
            then (w2, if got_nothing r.ret then f else record f { got = r.ret; bodybuf = r.out })
            else (w1, f))
    ]
  ]

-- `tls_http_get_by_ip` of tls_stub.c.
abbrev pub tls_stub : World → ℕ → Bytes → Bytes → World × Reply
tls_stub w ip host_header path = (w, record { ret = negsuc 0; out = [] })

-- `while (*p && *p != '\n' && ti < (int)sizeof(tmp)-1)`, with the room left in `tmp`: the line, and the text behind it.
unfoldable pub read_line : ℕ → Bytes → Bytes × Bytes
read_line room [] = ([], [])
read_line zero (c ∷ s) = ([], c ∷ s)
read_line (suc room) (c ∷ s) =
    let (l, rest) = read_line room s in if c == 0 || c == 10 then ([], c ∷ s) else (c ∷ l, rest)

-- `if (*p == '\n') p++;`
unfoldable pub skip_newline : Bytes → Bytes
skip_newline [] = []
skip_newline (c ∷ s) = if c == 10 then s else c ∷ s

-- `while (tmp[start] == ' ' && start < ti) start++;`
unfoldable pub trim : Bytes → Bytes
trim [] = []
trim (c ∷ s) = let rest = trim s in if c == b' ' then rest else c ∷ s

-- `*p` is 0.
abbrev pub is_end : Bytes → Bool
is_end [] = true
is_end (c ∷ s) = c == 0

-- `while (line < max_lines && *p)`, with the lines left: the lines of the page, and the text that did not fit.
unfoldable pub page_lines : ℕ → Bytes → List Bytes × Bytes
page_lines zero p = ([], p)
page_lines (suc n) p =
    let (l, after) = read_line 127 p in
    let (ls, rest) = page_lines n (skip_newline after) in
    if is_end p then ([], p) else (trim l ∷ ls, rest)

-- The lines from number `i` on, ten rows apart.
unfoldable pub draw_lines : Mode → Memory → ℤ → ℤ → ℕ → List Bytes → Memory
draw_lines d m x y i [] = m
draw_lines d m x y i (l ∷ ls) =
    draw_lines d (draw_string d m x (y +ℤ pos (i * 10)) l 0x000000) x y (suc i) ls

-- The window: 600 wide, 400 high, and its content behind the title and, in the browser, behind the address.
abbrev pub window_x : Mode → ℤ
window_x d = centered d.width 600

abbrev pub window_y : Mode → ℤ
window_y d = centered d.height 400

-- "Fetch failed! ...", in which snprintf knows neither %d nor %u.
abbrev pub failed_text : Bytes
failed_text = snprintf 128 (codes "Fetch failed! dns_ok=%d, resolved_ip=%u, got=%d") []

-- The result in the content area, whose rows start at `y` and which is `h` high.
unfoldable pub draw_page : Mode → Memory → ℤ → ℕ → Fetch → Memory
draw_page d m y h f =
    let x = window_x d +ℤ pos 10 in
    let m1 = draw_rect d m x y (pos 580) (pos h) 0xffffff in
    let (ls, rest) = page_lines ((h - 16) / 10) f.bodybuf in
    let m2 = draw_lines d m1 (x +ℤ pos 6) (y +ℤ pos 8) 0 ls in
    if got_nothing f.got
    then draw_string d m1 (x +ℤ pos 6) (y +ℤ pos 8) failed_text 0xff0000
    else if is_end rest
    then m2
    else draw_string d m2 (x +ℤ pos 6) (y +ℤ pos h -ℤ pos 18) (codes "...(truncated)") 0x555555
