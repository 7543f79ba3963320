-- ===== src/Http/Redirect.antt =====
-- http.c: what the client does with the bytes that a server has sent.
use os_from_scratch_graphic.Prelude.{
  ℕ, zero, suc, ◌+◌, ◌-◌, Bool, ◌||◌, ◌&&◌, Option, none, some, [], ◌∷◌, ◌++◌, drop, ltb, leb, ◌==◌,
  if◌then◌else◌,
}
use os_from_scratch_graphic.Endian.{Bytes, byte, load_bytes}
use os_from_scratch_graphic.Text.{strlen, strchr, strstr, strcmp, strncmp, copy_name}
use os_from_scratch_graphic.Text.Literals.{codes}
use os_from_scratch_graphic.Dns.Cache.{is_zero}
use os_from_scratch_graphic.Http.Parse.{parse_ipv4_literal, parse_http_status}

-- What is asked for: the address, and the buffers of 128 and 1024 bytes with the host and the path.
pub record Target : Type 0 where
  pub ip : ℕ
  pub hostbuf : Bytes
  pub pathbuf : Bytes

-- How one round of the redirect loop ends: a return with a negative number, `continue` with the next
-- target, or the bytes written to `out`, of which all but the terminator are counted.
pub data Outcome : Type 0 where
  failed : ℕ → Outcome
  follow : Target → Outcome
  body : Bytes → Outcome

-- `while (*loc == ' ' || *loc == '\t') loc++;`
unfoldable pub skip_blanks : Bytes → Bytes
skip_blanks [] = []
skip_blanks (c ∷ s) = let rest = skip_blanks s in if c == b' ' || c == 9 then rest else c ∷ s

-- The copy loops: at most `cap` bytes, up to the end of the text or a byte of the given kind.
unfoldable pub copy_until : (ℕ → Bool) → ℕ → Bytes → Bytes
copy_until stop zero s = []
copy_until stop (suc cap) [] = []
copy_until stop (suc cap) (c ∷ s) =
    let rest = copy_until stop cap s in if c == 0 || stop c then [] else c ∷ rest

-- Where such a loop leaves the pointer.
unfoldable pub skip_until : (ℕ → Bool) → ℕ → Bytes → Bytes
skip_until stop zero s = s
skip_until stop (suc cap) [] = []
skip_until stop (suc cap) (c ∷ s) =
    let rest = skip_until stop cap s in if c == 0 || stop c then c ∷ s else rest

abbrev pub is_line_end : ℕ → Bool
is_line_end c = (c == 13) || (c == 10)

abbrev pub is_host_end : ℕ → Bool
is_host_end c = (c == b'/') || (c == b':')

-- `char *loc = strstr(raw, "Location:"); if (!loc) loc = strstr(raw, "location:");`
unfoldable pub find_location : Bytes → Option ℕ
find_location raw = elim (strstr raw (codes "Location:")) [
  | some k ↦ some k
  | none ↦ strstr raw (codes "location:")
]

-- The value of the header, from its colon on, in `locbuf[1024]`.
unfoldable pub location_value : Bytes → Option Bytes
location_value loc = elim (strchr loc b':') [
  | none ↦ none
  | some k ↦ some (copy_until is_line_end 1023 (skip_blanks (drop (k + 1) loc)))
]

-- An absolute `http://host...`, with the text behind the scheme.
unfoldable pub follow_absolute : Target → Bytes → Outcome
follow_absolute t p =
    let newhost = copy_until is_host_end 127 p in
    let rest = skip_until is_host_end 127 p in
    let newpath = if byte rest 0 == 0 then codes "/" else rest in
    elim (parse_ipv4_literal newhost) [
      | some newip ↦ follow (record {
        ip = newip;
        hostbuf = copy_name t.hostbuf newhost;
        pathbuf = copy_name t.pathbuf newpath;
      })
      | none ↦
          if is_zero (strcmp newhost t.hostbuf)
          then follow (record t { pathbuf = copy_name t.pathbuf newpath })
          else failed 13
    ]

unfoldable pub follow_location : Target → Bytes → Outcome
follow_location t locbuf =
    if is_zero (strncmp locbuf (codes "https://") 8)
    then failed 11
    else if is_zero (strncmp locbuf (codes "http://") 7)
    then follow_absolute t (drop 7 locbuf)
    else if byte locbuf 0 == b'/'
    then follow (record t { pathbuf = copy_name t.pathbuf locbuf })
    else failed 14

-- The text behind the empty line, or all of it.
unfoldable pub body_start : Bytes → Bytes
body_start raw = elim (strstr raw (13 ∷ 10 ∷ 13 ∷ 10 ∷ [])) [
  | none ↦ raw
  | some k ↦ drop (k + 4) raw
]

-- At most `out_cap - 1` bytes of the body, and a terminator.
unfoldable pub copy_body : Bytes → ℕ → Bytes
copy_body b out_cap =
    let n = if ltb (out_cap - 1) (strlen b) then out_cap - 1 else strlen b in
    load_bytes n b ++ (0 ∷ [])

-- A redirect: the header found at an offset, and where it leads.
abbrev pub redirect : Target → Bytes → Option ℕ → Outcome
redirect t raw none = failed 12
redirect t raw (some k) = elim (location_value (drop k raw)) [
  | none ↦ failed 12
  | some locbuf ↦ follow_location t locbuf
]

-- A round from the status test on, for the bytes that were received, with their terminator.
unfoldable pub handle_response : Target → Bytes → ℕ → Outcome
handle_response t raw out_cap =
    let status = parse_http_status raw in
    if leb 300 status && ltb status 400
    then redirect t raw (find_location raw)
    else body (copy_body (body_start raw) out_cap)
