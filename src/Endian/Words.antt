-- ===== src/Endian/Words.antt =====
-- endian.h: what the byte order helpers do to words and to the bytes that lie in memory.
use os_from_scratch_graphic.Prelude.{ℕ, ◌/◌, ◌%◌, ◌^◌, ◌<◌, ◌≡◌, ◌∷◌, [], ◌++◌, arith}
use os_from_scratch_graphic.Endian.{Bytes, htons, ntohs, htonl, ntohl, le16, le32, load16, load32}

-- Network byte order: the highest byte comes first.
abbrev pub be16 : ℕ → Bytes
be16 x = x / 256 % 256 ∷ x % 256 ∷ []

abbrev pub be32 : ℕ → Bytes
be32 x = x / 2 ^ 24 % 256 ∷ x / 2 ^ 16 % 256 ∷ x / 256 % 256 ∷ x % 256 ∷ []

pub htons-lt : (x : ℕ) → htons x < 2 ^ 16
unfolding htons
htons-lt x = omega arith

pub ntohs-htons : (x : ℕ) → x < 2 ^ 16 → ntohs (htons x) ≡ x
unfolding ntohs
ntohs-htons x h = omega arith

pub ntohl-htonl : (x : ℕ) → x < 2 ^ 32 → ntohl (htonl x) ≡ x
unfolding ntohl
ntohl-htonl x h = omega arith

pub le16-htons : (x : ℕ) → x < 2 ^ 16 → le16 (htons x) ≡ be16 x
unfolding htons
le16-htons x h = ground arith

pub le32-htonl : (x : ℕ) → x < 2 ^ 32 → le32 (htonl x) ≡ be32 x
unfolding htonl
le32-htonl x h = ground arith

pub load16-le16 : (x : ℕ) (m : Bytes) → x < 2 ^ 16 → load16 (le16 x ++ m) 0 ≡ x
load16-le16 x m h = omega arith

pub load32-le32 : (x : ℕ) (m : Bytes) → x < 2 ^ 32 → load32 (le32 x ++ m) 0 ≡ x
load32-le32 x m h = omega arith
