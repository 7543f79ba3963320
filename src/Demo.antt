-- ===== src/Demo.antt =====
-- net_demo.c: the datagram that the demonstration sends, and the titles it shows of one that arrives.
use os_from_scratch_graphic.Prelude.{
  ℕ, zero, suc, ◌+◌, ◌*◌, ◌^◌, ◌||◌, Option, none, some, [], ◌∷◌, ◌++◌, length, drop, ltb, ◌==◌,
  if◌then◌else◌,
}
use os_from_scratch_graphic.Prelude.Int.{pos}
use os_from_scratch_graphic.Endian.{Bytes, load_bytes}
use os_from_scratch_graphic.Memory.{Memory}
use os_from_scratch_graphic.Text.{strchr, strstr}
use os_from_scratch_graphic.Text.Literals.{codes}
use os_from_scratch_graphic.Graphics.{Mode}
use os_from_scratch_graphic.Graphics.Draw.{draw_string}
use os_from_scratch_graphic.Net.State.{Net}
use os_from_scratch_graphic.Net.Send.{net_send_udp_ipv4}

-- `while (*p == '"' || *p == ' ' || *p == ':') p++;`
unfoldable pub skip_marks : Bytes → Bytes
skip_marks [] = []
skip_marks (c ∷ s) =
    let rest = skip_marks s in if c == b'"' || c == b' ' || c == b':' then rest else c ∷ s

-- `while (*p && *p!='"' && i<63) title[i++] = *p++;`, with the room that is left.
unfoldable pub copy_title : ℕ → Bytes → Bytes
copy_title zero s = []
copy_title (suc room) [] = []
copy_title (suc room) (c ∷ s) =
    let rest = copy_title room s in if c == 0 || c == b'"' then [] else c ∷ rest

-- One title: its text, and the text behind it; none where no colon follows.
unfoldable pub next_title : Bytes → ℕ → Option (Bytes × Bytes)
next_title p k = elim (strchr (drop k p) b':') [
  | none ↦ none
  | some i ↦
      let q = skip_marks (drop (i + 1) (drop k p)) in
      some (copy_title 63 q, drop (length (copy_title 63 q)) q)
]

-- The loop, on a line of the screen. Each title moves on by 20 lines, so 13 rounds bring it to its end.
unfoldable pub show_titles : ℕ → Mode → Memory → Bytes → ℕ → Memory
show_titles zero d m p y = m
show_titles (suc rounds) d m p y = elim (strstr p (codes "\"title\"" ++ (0 ∷ []))) [
  | none ↦ m
  | some k ↦ elim (next_title p k) [
    | none ↦ m
    | some (title, rest) ↦
        let shown = draw_string d m (pos 50) (pos y) (title ++ (0 ∷ [])) 0x000000 in
        let more = show_titles rounds d shown rest (y + 20) in
        if ltb 350 (y + 20) then shown else more
  ]
]

abbrev pub title_rounds : ℕ
title_rounds = 13

-- udp_on_datagram, with the sender left out, which it does not read.
unfoldable pub udp_on_datagram : Mode → Memory → Bytes → ℕ → Memory
udp_on_datagram d m data_bytes len =
    let n = if ltb 1000 len then 1000 else len in
    show_titles title_rounds d m (load_bytes n data_bytes ++ (0 ∷ [])) 100

unfoldable pub ip4 : ℕ → ℕ → ℕ → ℕ → ℕ
ip4 a b c d = a * 2 ^ 24 + b * 2 ^ 16 + c * 2 ^ 8 + d

abbrev pub demo_json : Bytes
demo_json = codes "{\"hello\":\"tbhcr\",\"from\":\"MyOS\"}"

unfoldable pub net_demo_send_json : Net → Net
net_demo_send_json n =
    net_send_udp_ipv4 n (ip4 192 168 31 235) 6000 6001 demo_json (length demo_json)
