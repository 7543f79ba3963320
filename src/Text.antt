-- ===== src/Text.antt =====
-- The text functions of string.c.
--
-- A `char *` is the list of the bytes from its address on. The text ends at the first zero byte;
-- the end of the list stands for a terminator too. A pointer into a text is its offset. A `char` is
-- kept as its unsigned byte: the code compares chars for equality, or with ASCII digits, which
-- bytes above 127 fail as negative chars do.
mod Tests
pub mod Compare
pub mod Search
pub mod Copy
pub mod Format
pub mod Literals
use os_from_scratch_graphic.Prelude.{
  ℕ, zero, suc, ◌+◌, ◌-◌, ◌*◌, ◌%◌, ◌^◌, Bool, true, false, not, ◌&&◌, ◌||◌, ◌++◌, Option, none,
  some, List, [], ◌∷◌, leb, ltb, ◌==◌, if◌then◌else◌, set, length,
}
use os_from_scratch_graphic.Prelude.Int.{ℤ, pos, sub_ℕ}
use os_from_scratch_graphic.Endian.{Bytes, byte}

unfoldable pub strlen : Bytes → ℕ
strlen [] = 0
strlen (c ∷ s) = if c == 0 then 0 else suc (strlen s)

-- The offset of the first `c`; the terminator is not found.
unfoldable pub strchr : Bytes → ℕ → Option ℕ
strchr [] c = none
strchr (a ∷ s) c =
    let rest = strchr s c in
    if a == 0
    then none
    else if a == c % 256
    then some 0
    else elim rest [ none ↦ none | some i ↦ some (suc i) ]

-- `while (*h && *n && *h == *n) { h++; n++; }`, then `!*n`.
unfoldable pub starts_with : Bytes → Bytes → Bool
starts_with h [] = true
starts_with [] (b ∷ n) = b == 0
starts_with (a ∷ h) (b ∷ n) =
    let rest = starts_with h n in if not (a == 0) && not (b == 0) && (a == b) then rest else b == 0

-- `for (; *haystack; haystack++)`
unfoldable pub strstr_loop : Bytes → Bytes → Option ℕ
strstr_loop [] needle = none
strstr_loop (a ∷ h) needle =
    let rest = strstr_loop h needle in
    if a == 0
    then none
    else if starts_with (a ∷ h) needle
    then some 0
    else elim rest [ none ↦ none | some i ↦ some (suc i) ]

unfoldable pub strstr : Bytes → Bytes → Option ℕ
unfolding strstr_loop starts_with
strstr haystack needle = if byte needle 0 == 0 then some 0 else strstr_loop haystack needle

abbrev pub is_digit : ℕ → Bool
is_digit c = leb b'0' c && leb c b'9'

-- The bit pattern of the `int`: a number too large wraps.
unfoldable pub atoi_loop : ℕ → Bytes → ℕ
atoi_loop n [] = n
atoi_loop n (c ∷ s) =
    let rest = atoi_loop ((n * 10 + (c - b'0')) % 2 ^ 32) s in if is_digit c then rest else n

unfoldable pub atoi : Bytes → ℕ
unfolding atoi_loop
atoi s = atoi_loop 0 s

-- `(unsigned char)*a - (unsigned char)*b` where the loop stops.
unfoldable pub strcmp : Bytes → Bytes → ℤ
strcmp [] [] = pos 0
strcmp [] (b ∷ t) = sub_ℕ 0 b
strcmp (a ∷ s) [] = sub_ℕ a 0
strcmp (a ∷ s) (b ∷ t) =
    let rest = strcmp s t in if not (a == 0) && not (b == 0) && (a == b) then rest else sub_ℕ a b

unfoldable pub strncmp : Bytes → Bytes → ℕ → ℤ
strncmp s t zero = pos 0
strncmp [] [] (suc n) = pos 0
strncmp [] (b ∷ t) (suc n) = sub_ℕ 0 b
strncmp (a ∷ s) [] (suc n) = sub_ℕ a 0
strncmp (a ∷ s) (b ∷ t) (suc n) =
    let rest = strncmp s t n in if not (a == 0) && not (b == 0) && (a == b) then rest else sub_ℕ a b

-- The buffer `dst` after the call. A write past its end is lost.
unfoldable pub strncpy : Bytes → Bytes → ℕ → Bytes
strncpy dst src zero = dst
strncpy [] src (suc n) = []
strncpy (d ∷ dst) src (suc zero) = 0 ∷ dst
strncpy (d ∷ dst) [] (suc (suc n)) = 0 ∷ dst
strncpy (d ∷ dst) (c ∷ src) (suc (suc n)) =
    let rest = strncpy dst src (suc n) in if c == 0 then 0 ∷ dst else c ∷ rest

-- `strncpy(dst, src, sizeof(dst)-1); dst[sizeof(dst)-1] = 0;`, as http.c and dns.c fill a buffer.
unfoldable pub copy_name : Bytes → Bytes → Bytes
unfolding strncpy
copy_name dst src = set (strncpy dst src (length dst - 1)) (length dst - 1) 0

-- The loop that copies one `%s` argument, `while (*s && i < size-1) buf[i++] = *s++;`: what it
-- writes where `room` bytes are left.
unfoldable pub put_arg : ℕ → Bytes → Bytes
put_arg zero s = []
put_arg (suc room) [] = []
put_arg (suc room) (c ∷ s) = let rest = put_arg room s in if c == 0 then [] else c ∷ rest

-- `va_arg`. An argument that is not there reads as the empty text.
abbrev pub first_arg : List Bytes → Bytes
first_arg [] = []
first_arg (a ∷ args) = a

abbrev pub later_args : List Bytes → List Bytes
later_args [] = []
later_args (a ∷ args) = args

-- The loop over the format with `room = size-1-i` bytes left: what it appends to the buffer. Only
-- `%s` is read as a conversion; any other `%` is copied.
unfoldable pub snprintf_loop : ℕ → Bytes → List Bytes → Bytes
unfolding put_arg
snprintf_loop room [] args = []
snprintf_loop room (c ∷ []) args = if room == 0 || c == 0 then [] else c ∷ []
snprintf_loop room (c ∷ d ∷ fmt) args =
    let out = put_arg room (first_arg args) in
    let after = out ++ snprintf_loop (room - length out) fmt (later_args args) in
    let next = c ∷ snprintf_loop (room - 1) (d ∷ fmt) args in
    if room == 0 || c == 0 then [] else if c == b'%' && (d == b's') then after else next

-- The bytes written to the buffer, the terminator included; the call returns their number less one.
unfoldable pub snprintf : ℕ → Bytes → List Bytes → Bytes
unfolding snprintf_loop
snprintf size fmt args = if size == 0 then [] else snprintf_loop (size - 1) fmt args ++ (0 ∷ [])
