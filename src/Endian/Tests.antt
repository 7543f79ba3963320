-- ===== src/Endian/Tests.antt =====
-- endian.h on concrete blocks.
use os_from_scratch_graphic.Prelude.{◌≡◌, refl, [], ◌∷◌}
use os_from_scratch_graphic.Endian.{Bytes, htons, htonl}

-- The first bytes of an IPv4 header, and the addresses at its end.
abbrev front : Bytes
front = 0x45 ∷ 0 ∷ 0 ∷ 0x28 ∷ 0 ∷ 1 ∷ 0 ∷ 0 ∷ 0x40 ∷ 6 ∷ []

abbrev back : Bytes
back = 10 ∷ 0 ∷ 2 ∷ 15 ∷ 10 ∷ 0 ∷ 2 ∷ 3 ∷ []

htons_swaps : htons 0x0806 ≡ 0x0608
unfolding htons
htons_swaps = refl

htonl_swaps : htonl 0x0a00_020f ≡ 0x0f02_000a
unfolding htonl
htonl_swaps = refl
