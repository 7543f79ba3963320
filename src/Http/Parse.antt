-- ===== src/Http/Parse.antt =====
-- http.c: dotted addresses and status lines. A pointer into a text is the text from there on.
use os_from_scratch_graphic.Prelude.{
  ℕ, zero, suc, ◌+◌, ◌-◌, ◌*◌, ◌%◌, ◌^◌, not, ◌||◌, Option, none, some, List, [], ◌∷◌, drop, ltb,
  ◌==◌, if◌then◌else◌,
}
use os_from_scratch_graphic.Endian.{Bytes, byte}
use os_from_scratch_graphic.Text.{is_digit, atoi, strncmp}
use os_from_scratch_graphic.Text.Literals.{codes}
use os_from_scratch_graphic.Dns.Cache.{is_zero}

-- `while (*cur >= '0' && *cur <= '9')` of parse_ipv4_literal: the value, an `unsigned`, and where the
-- digits end.
unfoldable pub read_octet : ℕ → Bytes → ℕ × Bytes
read_octet v [] = (v, [])
read_octet v (c ∷ s) =
    let rest = read_octet ((v * 10 + (c - b'0')) % 2 ^ 32) s in
    if is_digit c then rest else (v, c ∷ s)

-- `parts[p++] = val;` in front of the parts read later.
abbrev pub with_part : ℕ → Option (List ℕ) → Option (List ℕ)
with_part v none = none
with_part v (some parts) = some (v ∷ parts)

-- `while (*cur && p < 4)` with `n` parts still to be read; `none` is a return of 0, also the one
-- after the loop for fewer than four parts.
unfoldable pub read_parts : ℕ → Bytes → Option (List ℕ)
read_parts zero cur = some []
read_parts (suc n) cur =
    let (v, after) = read_octet 0 cur in
    let rest = read_parts n (drop 1 after) in
    if not (is_digit (byte cur 0))
    then none
    else if ltb 255 v
    then none
    else if byte after 0 == b'.'
    then with_part v rest
    else if n == 0
    then some (v ∷ [])
    else none

-- `(parts[0]<<24)|(parts[1]<<16)|(parts[2]<<8)|parts[3]`; each part is below 256.
abbrev pub join_parts : List ℕ → ℕ
join_parts (a ∷ b ∷ c ∷ d ∷ ps) = a * 2 ^ 24 + b * 2 ^ 16 + c * 2 ^ 8 + d
join_parts _ = 0

-- `parse_ipv4_literal`: the address that goes out through `out` if the call returns 1.
unfoldable pub parse_ipv4_literal : Bytes → Option ℕ
parse_ipv4_literal s = elim (read_parts 4 s) [ none ↦ none | some parts ↦ some (join_parts parts) ]

-- `while (*p && *p != ' ') p++;`
unfoldable pub skip_to_space : Bytes → Bytes
skip_to_space [] = []
skip_to_space (c ∷ s) = let rest = skip_to_space s in if c == 0 || c == b' ' then c ∷ s else rest

-- `parse_http_status`. The digits are read by the loop of atoi; a status too large for an int, which
-- C leaves undefined, wraps.
unfoldable pub parse_http_status : Bytes → ℕ
parse_http_status raw =
    let p = skip_to_space (drop 5 raw) in
    if not (is_zero (strncmp raw (codes "HTTP/") 5))
    then 0
    else if byte p 0 == 0
    then 0
    else atoi (drop 1 p)
