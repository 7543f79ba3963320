-- ===== src/Memory/Tests.antt =====
-- string.c: copies between overlapping runs.
use os_from_scratch_graphic.Prelude.{◌≡◌, refl}
use os_from_scratch_graphic.Memory.{Memory, memset, memmove}
use os_from_scratch_graphic.Memory.Copies.{memset_lem}

-- The byte at each address is the address.
abbrev counting : Memory
counting q = q

memmove_up : memmove counting 2 0 4 5 ≡ 3
unfolding memmove
memmove_up = refl

memset-counting : memset counting 4 0x1ff 3 6 ≡ 0xff
memset-counting = memset_lem counting 4 0x1ff 3 6
