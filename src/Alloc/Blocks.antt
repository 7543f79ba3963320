-- ===== src/Alloc/Blocks.antt =====
-- kmalloc_stub.c: the blocks that a sequence of calls hands out.
use os_from_scratch_graphic.Prelude.{ℕ, ◌+◌, ◌-◌, ◌%◌, ◌^◌, ◌≡◌, ◌≤◌, ◌<◌, List, [], ◌∷◌, arith}
use os_from_scratch_graphic.Alloc.{rounded, kmalloc}

-- The blocks for a list of sizes, each with its size, first to last, and the heap behind them.
unfoldable pub blocks : ℕ → List ℕ → List (ℕ × ℕ) × ℕ
blocks heap [] = ([], heap)
blocks heap (sz ∷ sizes) =
    let (p, heap') = kmalloc heap sz in
    let (rest, end) = blocks heap' sizes in ((p, sz) ∷ rest, end)

-- What the sizes take up, each rounded to 16.
abbrev pub total : List ℕ → ℕ
total [] = 0
total (sz ∷ sizes) = rounded sz + total sizes

-- Every block starts at a multiple of 16 and ends before the next one starts, the last one before
-- the end of the heap.
abbrev pub AreApart : ℕ → List (ℕ × ℕ) → ℕ → Type 0
AreApart from [] end = from ≤ end
AreApart from ((p, sz) ∷ rest) end = (from ≤ p) × (p % 16 ≡ 0) × AreApart (p + sz) rest end

-- The sizes are those of a 32-bit machine, with room for the rounding.
abbrev pub AreSizes : List ℕ → Type 0
AreSizes [] = Unit
AreSizes (sz ∷ sizes) = (sz < 2 ^ 32 - 15) × AreSizes sizes

AreApart-lower :
    (a b : ℕ) (rest : List (ℕ × ℕ)) (end : ℕ) → a ≤ b → AreApart b rest end → AreApart a rest end
AreApart-lower a b [] end l h = omega arith
AreApart-lower a b ((p, sz) ∷ rest) end l h = (omega arith, h.1, h.2)

-- As long as the heap does not pass the end of the address space, the blocks of any calls are aligned
-- to 16 bytes, each has the size asked for, no two overlap, and none reaches behind the heap.
pub blocks-AreApart :
    (sizes : List ℕ) (heap : ℕ)
    → heap % 16 ≡ 0
    → AreSizes sizes
    → heap + total sizes < 2 ^ 32
    → AreApart heap (blocks heap sizes).0 (blocks heap sizes).1
unfolding blocks kmalloc
blocks-AreApart [] heap al ok room = omega arith
blocks-AreApart (sz ∷ sizes) heap al ok room = rw whole (
  omega arith,
  al,
  AreApart-lower (heap + sz) (heap + rounded sz) _ _ (omega arith)
      (blocks-AreApart sizes (heap + rounded sz) (omega arith) ok.1 (omega arith)),
)
  where
    whole : (heap + rounded sz) % 2 ^ 32 ≡ heap + rounded sz
    whole = omega arith
