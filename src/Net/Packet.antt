-- ===== src/Net/Packet.antt =====
-- net.c: the frames that go out, as a receiver reads them.
use os_from_scratch_graphic.Prelude.{ℕ, ◌+◌, ◌%◌, ◌^◌, ◌≡◌, ◌<◌, refl, [], ◌∷◌, ◌++◌, arith}
use os_from_scratch_graphic.Endian.{Bytes, le16, le32, htons, htonl, ip_checksum}
use os_from_scratch_graphic.Endian.Checksum.{ip_checksum_verifies}
use os_from_scratch_graphic.Net.State.{NetIf}
use os_from_scratch_graphic.Net.Send.{sealed_header}

-- The header's own checksum verifies: summed by the receiver's routine it gives 0.
pub sealed_header_verifies :
    (netif : NetIf) (dst_ip proto len : ℕ)
    → proto < 256
    → ip_checksum (sealed_header netif dst_ip proto len) ≡ 0
sealed_header_verifies netif dst_ip proto len h =
    ip_checksum_verifies 5 front back refl (omega arith) (omega arith) (omega arith)
  where
    front : Bytes
    front =
        0x45 ∷ 0 ∷ le16 (htons ((20 + len) % 2 ^ 16))
        ++ (le16 (htons 1) ++ (0 ∷ 0 ∷ 64 ∷ proto ∷ []))

    back : Bytes
    back = le32 (htonl netif.ip) ++ le32 (htonl dst_ip)
