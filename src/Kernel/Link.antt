-- ===== src/Kernel/Link.antt =====
-- kernel.c: addresses that parse_url reads.
use os_from_scratch_graphic.Prelude.{
  ℕ, suc, ◌+◌, ◌-◌, ◌*◌, ◌%◌, ◌^◌, ◌≡◌, ◌≤◌, ◌<◌, refl, ap, ◌∙◌, false, ◌||◌, some, [], ◌∷◌, ◌++◌,
  arith, length, take, leb, ◌==◌,
}
use os_from_scratch_graphic.Endian.{Bytes}
use os_from_scratch_graphic.Endian.Layout.{drop-append}
use os_from_scratch_graphic.Text.{strncmp}
use os_from_scratch_graphic.Text.Literals.{codes}
use os_from_scratch_graphic.Kernel.Arithmetic.{AreDigits, number}
use os_from_scratch_graphic.Kernel.Url.{host_len, read_port, port_of, parse_url}

-- A name of a host: no byte of it ends the host.
abbrev pub IsHost : Bytes → Type 0
IsHost [] = Unit
IsHost (c ∷ s) = (c == 0 || c == b':' || c == b'/' ≡ false) × IsHost s

host_len-IsHost : (h s : Bytes) → IsHost h → host_len (h ++ (b':' ∷ s)) ≡ length h
unfolding host_len
host_len-IsHost [] s ok = refl
host_len-IsHost (c ∷ h) s ok = rw (ok.0, host_len) (ap suc (host_len-IsHost h s ok.1))

take-append : (p s : Bytes) → take (length p) (p ++ s) ≡ p
take-append [] s = refl
take-append (b ∷ p) s = ap (λ r. b ∷ r) (take-append p s)

number-lower : (ds : Bytes) (v : ℕ) → v ≤ number v ds
number-lower [] v = omega arith
number-lower (c ∷ ds) v = omega (arith, number-lower ds (v * 10 + (c - b'0')))

-- A port that fits a uint16_t is read as it is written.
read_port-digits :
    (ds s : Bytes) (v : ℕ)
    → AreDigits ds
    → number v ds < 2 ^ 16
    → read_port v (ds ++ (b'/' ∷ s)) ≡ (number v ds, b'/' ∷ s)
unfolding read_port
read_port-digits [] s v digits small = refl
read_port-digits (c ∷ ds) s v digits small =
    rw (digits.0, read_port)
      (ap (λ k. read_port k (ds ++ (b'/' ∷ s))) {x = (v * 10 + (c - b'0')) % 2 ^ 16}
          {y = v * 10 + (c - b'0')} (omega (arith, number-lower ds (v * 10 + (c - b'0'))))
        ∙ read_port-digits ds s (v * 10 + (c - b'0')) digits.1 small)

-- An address `http://host:port/path` is taken apart into the host, which is shorter than its buffer, the port, which
-- fits 16 bits, and the path with its first slash.
pub parse_url-parts :
    (h ds s : Bytes) (size : ℕ)
    → IsHost h
    → length h < size
    → AreDigits ds
    → number 0 ds < 2 ^ 16
    → parse_url (codes "http://" ++ (h ++ (b':' ∷ ds ++ (b'/' ∷ s)))) size
      ≡ some (record { host = h ++ (0 ∷ []); path = b'/' ∷ s; port = number 0 ds })
unfolding parse_url port_of strncmp
parse_url-parts h ds s size ok short digits small =
    rw
      (
        host_len-IsHost h (ds ++ (b'/' ∷ s)) ok,
        drop-append h (b':' ∷ ds ++ (b'/' ∷ s)) (length h) refl,
        read_port-digits ds s 0 digits small,
        take-append h (b':' ∷ ds ++ (b'/' ∷ s)),
        fits,
      )
      refl
  where
    fits : leb size (length h) ≡ false
    fits = ground arith
