-- ===== src/Endian/Layout.antt =====
-- Reads from memory that was written as a sequence of runs.
use os_from_scratch_graphic.Prelude.{
  ℕ, zero, suc, ◌+◌, ◌<◌, ◌≡◌, refl, ap, [], ◌∷◌, ◌++◌, arith, length, drop,
}
use os_from_scratch_graphic.Endian.{Bytes, byte, load_bytes}

pub byte-append_right : (p m : Bytes) (i j : ℕ) → j ≡ length p + i → byte (p ++ m) j ≡ byte m i
byte-append_right [] m i j h = ap (byte m) (omega arith)
byte-append_right (b ∷ p) m i zero h = absurd (omega arith)
byte-append_right (b ∷ p) m i (suc j) h = byte-append_right p m i j (omega arith)

pub byte-append_left : (p m : Bytes) (j : ℕ) → j < length p → byte (p ++ m) j ≡ byte p j
byte-append_left [] m j h = absurd (omega arith)
byte-append_left (b ∷ p) m zero h = refl
byte-append_left (b ∷ p) m (suc j) h = byte-append_left p m j (omega arith)

pub drop-append : (p m : Bytes) (k : ℕ) → k ≡ length p → drop k (p ++ m) ≡ m
drop-append [] m zero h = refl
drop-append [] m (suc k) h = absurd (omega arith)
drop-append (b ∷ p) m zero h = absurd (omega arith)
drop-append (b ∷ p) m (suc k) h = drop-append p m k (omega arith)

pub length-load_bytes : (n : ℕ) (m : Bytes) → length (load_bytes n m) ≡ n
length-load_bytes zero m = refl
length-load_bytes (suc n) [] = ap suc (length-load_bytes n [])
length-load_bytes (suc n) (b ∷ m) = ap suc (length-load_bytes n m)

-- A run of exactly the bytes that are there.
pub load_bytes-append : (p m : Bytes) (k : ℕ) → k ≡ length p → load_bytes k (p ++ m) ≡ p
load_bytes-append [] m zero h = refl
load_bytes-append [] m (suc k) h = absurd (omega arith)
load_bytes-append (b ∷ p) m zero h = absurd (omega arith)
load_bytes-append (b ∷ p) m (suc k) h = ap (λ r. b ∷ r) (load_bytes-append p m k (omega arith))
