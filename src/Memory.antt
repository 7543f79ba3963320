-- ===== src/Memory.antt =====
-- memset, memcpy and memmove of string.c, over an address space.
--
-- A memory gives the byte at each address. A copy is made byte by byte in the order of the code, so
-- what happens to overlapping runs is part of the model.
mod Tests
pub mod Copies
use os_from_scratch_graphic.Prelude.{
  ℕ, zero, suc, ◌+◌, ◌%◌, Bool, true, ◌||◌, ltb, ◌==◌, if◌then◌else◌,
}

abbrev pub Memory : Type 0
Memory = ℕ → ℕ

-- `*p = v` for the byte at address `p`.
abbrev pub poke : Memory → ℕ → ℕ → Memory
poke m p v q = if q == p then v else m q

-- `while(n--) *p++=v;`
unfoldable pub memset : Memory → ℕ → ℕ → ℕ → Memory
memset m p v zero = m
memset m p v (suc n) = memset (poke m p (v % 256)) (p + 1) v n

-- `while(n--) *D++=*S++;`
unfoldable pub memcpy : Memory → ℕ → ℕ → ℕ → Memory
memcpy m d s zero = m
memcpy m d s (suc n) = memcpy (poke m d (m s)) (d + 1) (s + 1) n

-- `for (size_t i=n; i>0; i--) d[i-1] = s[i-1];`
unfoldable pub copy_down : Memory → ℕ → ℕ → ℕ → Memory
copy_down m d s zero = m
copy_down m d s (suc i) = copy_down (poke m (d + i) (m (s + i))) d s i

-- The ascending loop of memmove is that of memcpy.
unfoldable pub memmove : Memory → ℕ → ℕ → ℕ → Memory
unfolding memcpy copy_down
memmove m dest src n =
    if dest == src || n == 0
    then m
    else if ltb dest src
    then memcpy m dest src n
    else copy_down m dest src n
