-- ===== src/Alloc/Tests.antt =====
-- kmalloc_stub.c: the blocks of the network card's driver.
use os_from_scratch_graphic.Prelude.{ℕ, ◌≡◌, refl, List, [], ◌∷◌, arith}
use os_from_scratch_graphic.Alloc.{heap_start, kmalloc, rand, srand}
use os_from_scratch_graphic.Alloc.Blocks.{blocks, AreApart, blocks-AreApart}

abbrev sizes : List ℕ
sizes = 9708 ∷ 1792 ∷ 1 ∷ []

blocks-AreApart_example :
    AreApart heap_start (blocks heap_start sizes).0 (blocks heap_start sizes).1
blocks-AreApart_example = blocks-AreApart sizes heap_start refl (omega arith) (omega arith)

second_block : (kmalloc (kmalloc heap_start 9708).1 1792).0 ≡ 0x010025f0
unfolding kmalloc
second_block = refl

first_number : (rand (srand 0)).0 ≡ 16838
unfolding rand srand
first_number = refl
