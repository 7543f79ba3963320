-- ===== src/Tcp/Buffer.antt =====
-- tcp.c: the receive buffer is a bounded queue of bytes.
use os_from_scratch_graphic.Prelude.{
  ℕ, zero, suc, ◌+◌, ◌-◌, ◌≡◌, ◌<◌, ◌≤◌, ◌⊎◌, refl, ap, [], ◌∷◌, ◌++◌, arith, length, min, ltb,
  ◌==◌, if◌then◌else◌, Bool-cases, inl, inr,
}
use os_from_scratch_graphic.Endian.{Bytes, byte, load_bytes}
use os_from_scratch_graphic.Endian.Layout.{length-load_bytes}
use os_from_scratch_graphic.Memory.{Memory, poke, memmove}
use os_from_scratch_graphic.Memory.Copies.{in_run, memmove_lem}
use os_from_scratch_graphic.Tcp.State.{Host}
use os_from_scratch_graphic.Tcp.Api.{bytes_from, tcp_recv}
use os_from_scratch_graphic.Tcp.Rx.{write_bytes, rx_data_into_buf}

-- The bytes that were received and not yet read.
abbrev pub contents : Host → Bytes
contents h = bytes_from h.rb 0 h.sock.rx_len

pub length-bytes_from : (m : Memory) (p n : ℕ) → length (bytes_from m p n) ≡ n
length-bytes_from m p zero = refl
length-bytes_from m p (suc n) = ap suc (length-bytes_from m (p + 1) n)

pub length-contents : (h : Host) → length (contents h) ≡ h.sock.rx_len
length-contents h = length-bytes_from h.rb 0 h.sock.rx_len

pub bytes_from-cong :
    (m m' : Memory) (n p q : ℕ)
    → ((i : ℕ) → i < n → m (p + i) ≡ m' (q + i))
    → bytes_from m p n ≡ bytes_from m' q n
bytes_from-cong m m' zero p q h = refl
bytes_from-cong m m' (suc n) p q h = ground (
  arith,
  h 0 (omega arith),
  bytes_from-cong m m' n (p + 1) (q + 1) (λ i l. ground (arith, h (i + 1) (omega arith))),
)

bytes_from-add :
    (m : Memory) (a b p : ℕ) → bytes_from m p a ++ bytes_from m (p + a) b ≡ bytes_from m p (a + b)
bytes_from-add m zero b p = ground arith
bytes_from-add m (suc a) b p =
    let sum : suc a + b ≡ suc (a + b) = omega arith in
    let from : p + suc a ≡ p + 1 + a = omega arith in
    rw (sum, from) (ap (λ l. m p ∷ l) (bytes_from-add m a b (p + 1)))

byte-later : (b : ℕ) (bs : Bytes) (k : ℕ) → 0 < k → byte (b ∷ bs) k ≡ byte bs (k - 1)
byte-later b bs zero h = absurd (omega arith)
byte-later b bs (suc k) h = ap (byte bs) (omega arith)

pub write_bytes_lem :
    (bs : Bytes) (m : Memory) (p q : ℕ)
    → write_bytes m p bs q ≡ (if in_run p (length bs) q then byte bs (q - p) else m q)
write_bytes_lem [] m p q = ground arith
write_bytes_lem (b ∷ bs) m p q =
    ground (
      arith,
      write_bytes_lem bs (poke m p b) (p + 1) q,
      byte-later b bs (q - p),
      byte-first (q - p),
    )
  where
    byte-first : (k : ℕ) → k ≡ 0 → byte (b ∷ bs) k ≡ b
    byte-first zero h = refl
    byte-first (suc k) h = absurd (omega arith)

-- What lies outside the run that is written stays.
pub outside_run :
    (bs : Bytes) (m : Memory) (p q : ℕ) → (q < p) ⊎ (p + length bs ≤ q) → write_bytes m p bs q ≡ m q
outside_run bs m p q (inl below) = ground (arith, write_bytes_lem bs m p q)
outside_run bs m p q (inr above) = ground (arith, write_bytes_lem bs m p q)

pub bytes_from-write_bytes :
    (bs : Bytes) (m : Memory) (p : ℕ) → bytes_from (write_bytes m p bs) p (length bs) ≡ bs
bytes_from-write_bytes [] m p = refl
bytes_from-write_bytes (b ∷ bs) m p = ground (
  arith,
  write_bytes_lem bs (poke m p b) (p + 1) p,
  bytes_from-write_bytes bs (poke m p b) (p + 1),
)

bytes_from-below :
    (bs : Bytes) (m : Memory) (p n : ℕ)
    → bytes_from (write_bytes m (p + n) bs) p n ≡ bytes_from m p n
bytes_from-below bs m p n =
    bytes_from-cong (write_bytes m (p + n) bs) m n p p
      λ i l. ground (arith, write_bytes_lem bs m (p + n) (p + i))

bytes_from-append :
    (m : Memory) (n : ℕ) (bs : Bytes)
    → bytes_from (write_bytes m n bs) 0 (n + length bs) ≡ bytes_from m 0 n ++ bs
bytes_from-append m n bs =
    let start : 0 + n ≡ n = omega arith in
    ground (
      arith,
      bytes_from-add (write_bytes m n bs) n (length bs) 0,
      bytes_from-below bs m 0 n,
      bytes_from-write_bytes bs m n,
      start,
    )

-- Received data goes behind what waits to be read: as many bytes of it as there is room for, in
-- order; the rest is dropped.
pub contents-rx_data_into_buf :
    (h : Host) (pl : Bytes) (len : ℕ)
    → contents (rx_data_into_buf h pl len)
      ≡ contents h ++ load_bytes (min len (h.sock.rx_cap - h.sock.rx_len)) pl
unfolding rx_data_into_buf
contents-rx_data_into_buf h pl len = ground (
  arith,
  bytes_from-append h.rb h.sock.rx_len (load_bytes (min len (h.sock.rx_cap - h.sock.rx_len)) pl),
  length-load_bytes (min len (h.sock.rx_cap - h.sock.rx_len)) pl,
)

shifted : (m : Memory) (n k : ℕ) → bytes_from (memmove m 0 n k) 0 k ≡ bytes_from m n k
shifted m n k = bytes_from-cong (memmove m 0 n k) m k 0 n λ i l.
    ground
      (arith, memmove_lem m 0 n k (0 + i), ap m {x = n + (0 + i - 0)} {y = n + i} (omega arith))

-- tcp_recv hands out the oldest bytes, as many as are asked for and there are, and leaves the
-- others in order for the next call.
pub tcp_recv-contents :
    (h : Host) (maxlen : ℕ)
    → let (out, h') = tcp_recv h maxlen in
      (out ++ contents h' ≡ contents h) × (length out ≡ min maxlen h.sock.rx_len)
unfolding tcp_recv
tcp_recv-contents h maxlen = elim (Bool-cases (h.sock.rx_len == 0)) [
  | inl e ↦ ground arith
  | inr e ↦ ground (
    arith,
    length-bytes_from h.rb 0 n,
    shifted h.rb n (h.sock.rx_len - n),
    bytes_from-add h.rb n (h.sock.rx_len - n) 0,
  )
]
  where
    n : ℕ
    n = if ltb h.sock.rx_len maxlen then h.sock.rx_len else maxlen
