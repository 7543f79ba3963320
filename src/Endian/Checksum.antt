-- ===== src/Endian/Checksum.antt =====
-- endian.h: the Internet checksum as one's complement arithmetic, and why a receiver accepts it.
use os_from_scratch_graphic.Prelude.{
  ℕ, zero, suc, ◌+◌, ◌-◌, ◌*◌, ◌%◌, ◌^◌, ◌<◌, ◌≤◌, ◌≡◌, ◌∙◌, ap, ◌⊎◌, [], ◌∷◌, ◌++◌, length, arith,
}
use os_from_scratch_graphic.Endian.{Bytes, sum_words, fold, fold_rounds, ip_checksum, le16}

-- The sum of the words, with no wrap and no fold.
pub words : Bytes → ℕ
words [] = 0
words (b ∷ []) = b
words (b ∷ c ∷ m) = b + c * 256 + words m

abbrev pub AreBytes : Bytes → Type 0
AreBytes [] = Unit
AreBytes (b ∷ m) = (b < 256) × AreBytes m

words-le : (m : Bytes) → AreBytes m → words m ≤ 65535 * length m
unfolding words
words-le [] h = omega arith
words-le (b ∷ []) h = omega arith
words-le (b ∷ c ∷ m) h = omega (arith, words-le m h.1.1)

-- No uint32_t sum wraps while the whole sum fits.
sum_words-eq-words : (m : Bytes) (s : ℕ) → s + words m < 2 ^ 32 → sum_words m s ≡ s + words m
unfolding sum_words words
sum_words-eq-words [] s h = omega arith
sum_words-eq-words (b ∷ []) s h = omega arith
sum_words-eq-words (b ∷ c ∷ m) s h =
    omega (arith, sum_words-eq-words m ((s + (b + c * 256)) % 2 ^ 32) (omega arith))

words-append : (k : ℕ) (p m : Bytes) → length p ≡ 2 * k → words (p ++ m) ≡ words p + words m
unfolding words
words-append k [] m h = omega arith
words-append k (b ∷ []) m h = absurd (omega arith)
words-append zero (b ∷ c ∷ p) m h = absurd (omega arith)
words-append (suc k) (b ∷ c ∷ p) m h = omega (arith, words-append k p m (omega arith))

-- Two rounds leave a uint16_t that is the sum modulo 65535, and is 0 only for a sum of 0.
pub record IsFolded (sum out : ℕ) : Type 0 where
  pub small : out < 2 ^ 16
  pub residue : out % 65535 ≡ sum % 65535
  pub pos : (sum ≡ 0) ⊎ (0 < out)
  pub zero : (0 < sum) ⊎ (out ≡ 0)

pub fold-IsFolded : (sum : ℕ) → sum < 2 ^ 32 → IsFolded sum (fold fold_rounds sum)
unfolding fold
fold-IsFolded sum h = record {
  small = ground arith;
  residue = ground arith;
  pos = ground arith;
  zero = ground arith;
}

AreBytes-append : (p m : Bytes) → AreBytes p → AreBytes m → AreBytes (p ++ m)
AreBytes-append [] m hp hm = hm
AreBytes-append (b ∷ p) m hp hm = (hp.0, AreBytes-append p m hp.1 hm)

-- The checksum of a block whose words sum to `s`.
pub checksum_of : ℕ → ℕ
checksum_of s = 2 ^ 16 - 1 - fold fold_rounds s

pub checksum_of-lt : (s : ℕ) → checksum_of s < 2 ^ 16
unfolding checksum_of
checksum_of-lt s = omega arith

pub ip_checksum-eq : (m : Bytes) → words m < 2 ^ 32 → ip_checksum m ≡ checksum_of (words m)
unfolding ip_checksum checksum_of
ip_checksum-eq m h = rw whole (omega (arith, (fold-IsFolded (words m) h).small))
  where
    whole : sum_words m 0 ≡ words m
    whole = omega (arith, sum_words-eq-words m 0 (omega arith))

-- Adding the checksum of `s` to `s` makes a sum whose checksum is 0.
checksum_of-cancel : (s : ℕ) → s + 65535 < 2 ^ 32 → checksum_of (s + checksum_of s) ≡ 0
unfolding checksum_of
checksum_of-cancel s h = cancel (fold-IsFolded s (omega arith)) (fold-IsFolded _ (omega arith))
  where
    cancel :
        IsFolded s (fold fold_rounds s)
        → IsFolded
            (s + (65535 - fold fold_rounds s))
            (fold fold_rounds (s + (65535 - fold fold_rounds s)))
        → 65535 - fold fold_rounds (s + (65535 - fold fold_rounds s)) ≡ 0
    cancel a b = omega arith

words-le16 : (c : ℕ) (m : Bytes) → c < 2 ^ 16 → words (le16 c ++ m) ≡ c + words m
unfolding words
words-le16 c m h = omega arith

words-zeros : (m : Bytes) → words (0 ∷ 0 ∷ m) ≡ words m
unfolding words
words-zeros m = omega arith

-- A block of bytes shorter than 2 ^ 16, with the checksum of the block written over two zero bytes
-- at an even offset, has checksum 0: what the receiver computes to accept it.
pub ip_checksum_verifies :
    (k : ℕ) (p m : Bytes)
    → length p ≡ 2 * k
    → AreBytes p
    → AreBytes m
    → length p + length m + 1 < 2 ^ 16
    → ip_checksum (p ++ (le16 (ip_checksum (p ++ (0 ∷ 0 ∷ m))) ++ m)) ≡ 0
ip_checksum_verifies k p m even hp hm short =
    ip_checksum-eq (p ++ (le16 c ++ m))
      (omega (arith, total, bounds, sent, checksum_of-lt (words p + words m)))
    ∙ (ap checksum_of (omega (arith, total, sent))
        ∙ checksum_of-cancel (words p + words m) (omega (arith, bounds)))
  where
    bounds : (words p ≤ 65535 * length p) × (words m ≤ 65535 * length m)
    bounds = (words-le p hp, words-le m hm)

    c : ℕ
    c = ip_checksum (p ++ (0 ∷ 0 ∷ m))

    sent : c ≡ checksum_of (words p + words m)
    sent =
        ip_checksum-eq (p ++ (0 ∷ 0 ∷ m))
          (omega (arith, bounds, words-append k p (0 ∷ 0 ∷ m) even, words-zeros m))
        ∙ ap checksum_of (omega (arith, words-append k p (0 ∷ 0 ∷ m) even, words-zeros m))

    total : words (p ++ (le16 c ++ m)) ≡ words p + c + words m
    total = omega (
      arith,
      words-append k p (le16 c ++ m) even,
      words-le16 c m (omega (arith, sent, checksum_of-lt (words p + words m))),
    )
