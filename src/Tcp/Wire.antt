-- ===== src/Tcp/Wire.antt =====
-- tcp.c: the checksum of the segments that go out.
use os_from_scratch_graphic.Prelude.{ℕ, zero, suc, ◌≡◌, ◌<◌, ◌≤◌, refl, [], ◌∷◌, ◌++◌, arith}
use os_from_scratch_graphic.Endian.{Bytes, load_bytes, ip_checksum}
use os_from_scratch_graphic.Endian.Checksum.{AreBytes, ip_checksum_verifies}
use os_from_scratch_graphic.Endian.Layout.{length-load_bytes}
use os_from_scratch_graphic.Tcp.State.{Socket}
use os_from_scratch_graphic.Tcp.Segment.{csum16, header_front, pseudo, tcp_segment}

-- The copy of the checksum in tcp.c is the one of endian.h.
pub csum16-eq : (m : Bytes) → csum16 m ≡ ip_checksum m
unfolding csum16 ip_checksum
csum16-eq m = refl

AreBytes-load_bytes : (n : ℕ) (m : Bytes) → AreBytes m → AreBytes (load_bytes n m)
AreBytes-load_bytes zero m h = tt
AreBytes-load_bytes (suc n) [] h = (omega arith, AreBytes-load_bytes n [] tt)
AreBytes-load_bytes (suc n) (b ∷ m) h = (h.0, AreBytes-load_bytes n m h.1)

-- Every segment with a payload of at most 1460 bytes carries a checksum that its receiver accepts:
-- summed behind the pseudo header by the same routine it gives 0.
pub tcp_segment_verifies :
    (s : Socket) (flags : ℕ) (payload : Bytes) (plen : ℕ)
    → flags < 256
    → AreBytes payload
    → plen ≤ 1460
    → csum16 (pseudo s plen ++ tcp_segment s flags payload plen) ≡ 0
unfolding tcp_segment
tcp_segment_verifies s flags payload plen h bytes short =
    rw (csum16-eq, csum16-eq)
      (ip_checksum_verifies 14 (pseudo s plen ++ header_front s flags)
        (0 ∷ 0 ∷ load_bytes plen payload) refl (omega arith)
        (omega arith, (omega arith, AreBytes-load_bytes plen payload bytes))
        (omega (arith, length-load_bytes plen payload)))
