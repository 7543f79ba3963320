-- ===== src/Endian.antt =====
-- endian.h: the byte order helpers and the Internet checksum, over words as native numbers.
--
-- A uint16_t or uint32_t is a number below 2 ^ 16 or 2 ^ 32. A shift is `/` or `*` by a power of
-- two, a mask of low ones is `%`, and an `|` of fields that share no bit is `+`. The machine is a
-- little-endian x86, so a word lies in memory as `le16` or `le32` writes it.
mod Tests
pub mod Words
pub mod Checksum
pub mod Layout
use os_from_scratch_graphic.Prelude.{
  ℕ, zero, suc, ◌+◌, ◌-◌, ◌*◌, ◌/◌, ◌%◌, ◌^◌, List, [], ◌∷◌, get_or, ◌==◌, if◌then◌else◌,
}

-- A run of memory, byte by byte from its first address.
abbrev pub Bytes : Type 0
Bytes = List ℕ

-- The byte at offset `i`. What lies past the modelled memory reads as 0.
abbrev pub byte : Bytes → ℕ → ℕ
byte m i = get_or m i 0

-- `(uint16_t)((x << 8) | (x >> 8))`
unfoldable pub htons : ℕ → ℕ
htons x = (x * 256 + x / 256) % 2 ^ 16

unfoldable pub ntohs : ℕ → ℕ
unfolding htons
ntohs x = htons x

-- The four masked bytes, each shifted to its new place.
unfoldable pub htonl : ℕ → ℕ
htonl x = x % 256 * 2 ^ 24 + x / 256 % 256 * 2 ^ 16 + x / 2 ^ 16 % 256 * 2 ^ 8 + x / 2 ^ 24 % 256

unfoldable pub ntohl : ℕ → ℕ
unfolding htonl
ntohl x = htonl x

-- How a word is stored at an address, lowest byte first, and how it is loaded from one.
abbrev pub le16 : ℕ → Bytes
le16 x = x % 256 ∷ x / 256 % 256 ∷ []

abbrev pub le32 : ℕ → Bytes
le32 x = x % 256 ∷ x / 256 % 256 ∷ x / 2 ^ 16 % 256 ∷ x / 2 ^ 24 % 256 ∷ []

abbrev pub load16 : Bytes → ℕ → ℕ
load16 m i = byte m i + byte m (i + 1) * 256

abbrev pub load32 : Bytes → ℕ → ℕ
load32 m i = byte m i + byte m (i + 1) * 256 + byte m (i + 2) * 2 ^ 16 + byte m (i + 3) * 2 ^ 24

-- `memcpy` of `n` bytes out of the memory at an address.
abbrev pub load_bytes : ℕ → Bytes → Bytes
load_bytes zero m = []
load_bytes (suc n) [] = 0 ∷ load_bytes n []
load_bytes (suc n) (b ∷ m) = b ∷ load_bytes n m

-- `while (len > 1) { sum += *w++; len -= 2; } if (len == 1) sum += *(const uint8_t*)w;`
-- over the `len` bytes of the list, in a uint32_t.
unfoldable pub sum_words : Bytes → ℕ → ℕ
sum_words [] sum = sum
sum_words (b ∷ []) sum = (sum + b) % 2 ^ 32
sum_words (b ∷ c ∷ m) sum = sum_words m ((sum + (b + c * 256)) % 2 ^ 32)

-- `while (sum >> 16) sum = (sum & 0xFFFF) + (sum >> 16);` with at most `fuel` rounds.
unfoldable pub fold : ℕ → ℕ → ℕ
fold zero sum = sum
fold (suc fuel) sum =
    let rest = fold fuel (sum % 2 ^ 16 + sum / 2 ^ 16) in if sum / 2 ^ 16 == 0 then sum else rest

-- A uint32_t takes two rounds at most (`fold-IsFolded` in Endian/Checksum).
abbrev pub fold_rounds : ℕ
fold_rounds = 2

-- `(uint16_t)~sum`, the checksum of the bytes.
unfoldable pub ip_checksum : Bytes → ℕ
unfolding sum_words fold
ip_checksum m = 2 ^ 16 - 1 - fold fold_rounds (sum_words m 0) % 2 ^ 16
