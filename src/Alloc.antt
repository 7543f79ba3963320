-- ===== src/Alloc.antt =====
-- kmalloc_stub.c: the allocator, which never frees, and the random numbers.
--
-- A pointer is an address, a `size_t` and the pointers are 32 bits wide.
pub mod Blocks
mod Tests
use os_from_scratch_graphic.Prelude.{ℕ, ◌+◌, ◌*◌, ◌/◌, ◌%◌, ◌^◌, ◌==◌, if◌then◌else◌}
use os_from_scratch_graphic.Memory.{Memory, memset}

-- `heap` at the start: 16 MB.
abbrev pub heap_start : ℕ
heap_start = 0x01000000

-- `(sz+15)&~15`
abbrev pub rounded : ℕ → ℕ
rounded sz = (sz + 15) % 2 ^ 32 / 16 * 16

-- The block, and the heap after it.
unfoldable pub kmalloc : ℕ → ℕ → ℕ × ℕ
kmalloc heap sz = (heap, (heap + rounded sz) % 2 ^ 32)

unfoldable pub malloc : ℕ → ℕ → ℕ × ℕ
malloc heap sz = kmalloc heap sz

-- `free` does nothing.
unfoldable pub free : ℕ → ℕ → ℕ
free heap p = heap

-- `n*size` wraps, and no test is made of it. A block at address 0 is not cleared.
unfoldable pub calloc : Memory → ℕ → ℕ → ℕ → ℕ × ℕ × Memory
calloc m heap n size =
    let tot = n * size % 2 ^ 32 in
    let (p, heap') = kmalloc heap tot in (p, heap', if p == 0 then m else memset m p 0 tot)

-- `rand`: the number, which is the upper half of the new state, and the state.
unfoldable pub rand : ℕ → ℕ × ℕ
rand state = let next = (state * 1103515245 + 12345) % 2 ^ 32 in (next / 2 ^ 16, next)

unfoldable pub srand : ℕ → ℕ
srand seed = if seed == 0 then 1 else seed
