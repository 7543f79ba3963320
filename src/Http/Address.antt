-- ===== src/Http/Address.antt =====
-- http.c: which addresses parse_ipv4_literal reads.
use os_from_scratch_graphic.Prelude.{
  ℕ, suc, ◌+◌, ◌-◌, ◌*◌, ◌%◌, ◌^◌, ◌≡◌, ◌≤◌, ◌<◌, refl, ap, ◌∙◌, true, false, some, [], ◌∷◌, ◌++◌,
  arith, length, ltb, ◌==◌,
}
use os_from_scratch_graphic.Endian.{Bytes, byte}
use os_from_scratch_graphic.Text.{is_digit}
use os_from_scratch_graphic.Kernel.Arithmetic.{AreDigits, number}
use os_from_scratch_graphic.Http.Parse.{read_octet, with_part, read_parts, parse_ipv4_literal}

-- A part of an address: at least one digit, for a number of at most 255.
pub record IsOctet (s : Bytes) (n : ℕ) : Type 0 where
  pub are_digits : AreDigits s
  pub some_digit : 0 < length s
  pub value : number 0 s ≡ n
  pub small : n ≤ 255

le-number : (s : Bytes) (v : ℕ) → v ≤ number v s
le-number [] v = omega arith
le-number (c ∷ s) v = omega (arith, le-number s (v * 10 + (c - b'0')))

-- Digits are read up to the first other byte; a number of at most 255 does not wrap on the way.
read_octet-digits :
    (s rest : Bytes) (v : ℕ)
    → AreDigits s
    → number v s ≤ 255
    → is_digit (byte rest 0) ≡ false
    → read_octet v (s ++ rest) ≡ (number v s, rest)
unfolding read_octet
read_octet-digits [] [] v h small stop = refl
read_octet-digits [] (c ∷ rest) v h small stop = rw (stop, read_octet) refl
read_octet-digits (c ∷ s) rest v h small stop =
    rw (h.0, fits, read_octet) (read_octet-digits s rest (v * 10 + (c - b'0')) h.1 small stop)
  where
    fits : (v * 10 + (c - b'0')) % 2 ^ 32 ≡ v * 10 + (c - b'0')
    fits = omega (arith, le-number s (v * 10 + (c - b'0')))

first-digit : (s rest : Bytes) (n : ℕ) → IsOctet s n → is_digit (byte (s ++ rest) 0) ≡ true
first-digit [] rest n o = absurd (omega (arith, o.some_digit))
first-digit (c ∷ s) rest n o = o.are_digits.0

read-octet :
    (s rest : Bytes) (n : ℕ)
    → IsOctet s n
    → is_digit (byte rest 0) ≡ false
    → read_octet 0 (s ++ rest) ≡ (n, rest)
read-octet s rest n o stop =
    read_octet-digits s rest 0 o.are_digits (omega (arith, o.value, o.small)) stop
    ∙ ap (λ k. (k, rest)) o.value

-- One part, with a dot and more behind it.
read_parts-dot :
    (k : ℕ) (s rest : Bytes) (n : ℕ)
    → IsOctet s n
    → read_parts (suc k) (s ++ (b'.' ∷ rest)) ≡ with_part n (read_parts k rest)
unfolding read_parts
read_parts-dot k s rest n o =
    rw (first-digit s (b'.' ∷ rest) n o, read-octet s (b'.' ∷ rest) n o refl, within, read_parts)
      refl
  where
    within : ltb 255 n ≡ false
    within = ground (arith, o.small)

-- The last part, with no dot behind it.
read_parts-last :
    (s rest : Bytes) (n : ℕ)
    → IsOctet s n
    → is_digit (byte rest 0) ≡ false
    → (byte rest 0 == b'.') ≡ false
    → read_parts 1 (s ++ rest) ≡ some (n ∷ [])
unfolding read_parts
read_parts-last s rest n o stop dot =
    rw (first-digit s rest n o, read-octet s rest n o stop, within, dot, read_parts) refl
  where
    within : ltb 255 n ≡ false
    within = ground (arith, o.small)

-- An address of four decimal numbers of at most 255 is read as that address, whatever follows it,
-- but a digit or a dot.
pub parse_ipv4_literal-octets :
    (s1 s2 s3 s4 rest : Bytes) (a b c d : ℕ)
    → IsOctet s1 a
    → IsOctet s2 b
    → IsOctet s3 c
    → IsOctet s4 d
    → is_digit (byte rest 0) ≡ false
    → (byte rest 0 == b'.') ≡ false
    → parse_ipv4_literal (s1 ++ (b'.' ∷ s2 ++ (b'.' ∷ s3 ++ (b'.' ∷ s4 ++ rest))))
      ≡ some (a * 2 ^ 24 + b * 2 ^ 16 + c * 2 ^ 8 + d)
unfolding parse_ipv4_literal
parse_ipv4_literal-octets s1 s2 s3 s4 rest a b c d o1 o2 o3 o4 stop dot =
    rw
      (
        read_parts-dot 3 s1 (s2 ++ (b'.' ∷ s3 ++ (b'.' ∷ s4 ++ rest))) a o1,
        read_parts-dot 2 s2 (s3 ++ (b'.' ∷ s4 ++ rest)) b o2,
        read_parts-dot 1 s3 (s4 ++ rest) c o3,
        read_parts-last s4 rest d o4 stop dot,
        parse_ipv4_literal,
      )
      refl
