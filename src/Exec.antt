-- ===== src/Exec.antt =====
-- exec_elf.c: the loader of 32-bit ELF images.
--
-- An image is the list of its bytes; the heap it is loaded into is an address space. Addresses are
-- 32 bits wide. The program that is loaded is machine code, and so a parameter.
pub mod Place
pub mod Extent
pub mod Load
pub mod Sample
mod Tests
use os_from_scratch_graphic.Prelude.{
  ℕ, zero, suc, ◌+◌, ◌-◌, ◌*◌, ◌%◌, ◌^◌, Bool, true, false, not, ◌&&◌, ◌||◌, List, [], ◌∷◌, drop,
  ltb, ◌==◌, if◌then◌else◌,
}
use os_from_scratch_graphic.Prelude.Int.{ℤ, pos, negsuc}
use os_from_scratch_graphic.Endian.{Bytes, byte, load16, load32, load_bytes}
use os_from_scratch_graphic.Memory.{Memory, memset}
use os_from_scratch_graphic.Alloc.{kmalloc}
use os_from_scratch_graphic.Tcp.Rx.{write_bytes}

-- The fields of elf32_phdr that the loader reads.
pub record ProgramHeader : Type 0 where
  pub p_type : ℕ
  pub p_offset : ℕ
  pub p_vaddr : ℕ
  pub p_filesz : ℕ
  pub p_memsz : ℕ

-- The fields of elf32_hdr that the loader reads.
abbrev pub e_entry : Bytes → ℕ
e_entry buf = load32 buf 24

abbrev pub e_phoff : Bytes → ℕ
e_phoff buf = load32 buf 28

abbrev pub e_phentsize : Bytes → ℕ
e_phentsize buf = load16 buf 42

abbrev pub e_phnum : Bytes → ℕ
e_phnum buf = load16 buf 44

-- `(const struct elf32_phdr*)(buf + eh->e_phoff + i*eh->e_phentsize)`
abbrev pub header_at : Bytes → ℕ → ProgramHeader
header_at buf i =
    let p = (e_phoff buf + i * e_phentsize buf) % 2 ^ 32 in
    record {
      p_type = load32 buf p;
      p_offset = load32 buf (p + 4);
      p_vaddr = load32 buf (p + 8);
      p_filesz = load32 buf (p + 16);
      p_memsz = load32 buf (p + 20);
    }

-- The headers that `for(int i=0;i<eh->e_phnum;i++)` reads, in order, from the one of number `i` on.
unfoldable pub headers_from : Bytes → ℕ → ℕ → List ProgramHeader
headers_from buf i zero = []
headers_from buf i (suc n) = header_at buf i ∷ headers_from buf (suc i) n

unfoldable pub headers : Bytes → List ProgramHeader
headers buf = headers_from buf 0 (e_phnum buf)

-- `ph->p_type == PT_LOAD`
abbrev pub is_load : ProgramHeader → Bool
is_load ph = ph.p_type == 1

-- `ph->p_vaddr + ph->p_memsz`
abbrev pub seg_end : ProgramHeader → ℕ
seg_end ph = (ph.p_vaddr + ph.p_memsz) % 2 ^ 32

-- min_vaddr and max_vaddr after one more header.
abbrev pub widen : ProgramHeader → ℕ → ℕ → ℕ × ℕ
widen ph lo hi = if not (is_load ph) then (lo, hi) else (
  (if ltb ph.p_vaddr lo then ph.p_vaddr else lo),
  (if ltb hi (seg_end ph) then seg_end ph else hi),
)

unfoldable pub extent : List ProgramHeader → ℕ → ℕ → ℕ × ℕ
extent [] lo hi = (lo, hi)
extent (ph ∷ phs) lo hi = let (lo', hi') = widen ph lo hi in extent phs lo' hi'

-- `memcpy(mem + dest, buf + ph->p_offset, ph->p_filesz)`
abbrev pub place : Bytes → ℕ → ℕ → ProgramHeader → Memory → Memory
place buf base lo ph m =
    if is_load ph
    then write_bytes m ((base + (ph.p_vaddr + (2 ^ 32 - lo)) % 2 ^ 32) % 2 ^ 32)
        (load_bytes ph.p_filesz (drop ph.p_offset buf))
    else m

-- `ph->p_offset + ph->p_filesz > elf_size`, of a segment to load.
abbrev pub is_cut : ℕ → ProgramHeader → Bool
is_cut size ph = is_load ph && ltb size ((ph.p_offset + ph.p_filesz) % 2 ^ 32)

-- The second loop: whether it ran to its end, and the memory.
unfoldable pub load_segments : Bytes → ℕ → ℕ → ℕ → List ProgramHeader → Memory → Bool × Memory
load_segments buf size base lo [] m = (true, m)
load_segments buf size base lo (ph ∷ phs) m =
    let rest = load_segments buf size base lo phs (place buf base lo ph m) in
    if is_cut size ph then (false, m) else rest

-- The magic number at the front.
abbrev pub has_magic : Bytes → Bool
has_magic buf = byte buf 0 == 0x7f && byte buf 1 == b'E' && byte buf 2 == b'L' && byte buf 3 == b'F'

-- Memory and allocator.
pub record Space : Type 0 where
  pub mem : Memory
  pub heap : ℕ

-- What the loader comes to: a return code, or the entry of the program.
pub data Loaded : Type 0 where
  refused : ℤ → Space → Loaded
  entry : ℕ → Space → Loaded

-- From the allocation on, for the extent of the segments.
unfoldable pub load_image : Bytes → ℕ → Space → ℕ → ℕ → Loaded
load_image buf size k lo hi =
    let total = (hi + (2 ^ 32 - lo)) % 2 ^ 32 in
    let (base, heap') = kmalloc k.heap total in
    let (whole, m) = load_segments buf size base lo (headers buf) (memset k.mem base 0 total) in
    if base == 0
    then refused (negsuc 4) (record k { heap = heap' })
    else if not whole
    then refused (negsuc 5) (record { mem = m; heap = heap' })
    else entry ((base + (e_entry buf + (2 ^ 32 - lo)) % 2 ^ 32) % 2 ^ 32)
        (record { mem = m; heap = heap' })

-- elf32_load_and_run up to the call of the entry.
unfoldable pub elf32_load : Bytes → ℕ → Space → Loaded
elf32_load buf size k =
    let (lo, hi) = extent (headers buf) (2 ^ 32 - 1) 0 in
    if ltb size 52
    then refused (negsuc 0) k
    else if not (has_magic buf)
    then refused (negsuc 1) k
    else if e_phoff buf == 0 || e_phnum buf == 0
    then refused (negsuc 2) k
    else if lo == 2 ^ 32 - 1
    then refused (negsuc 3) k
    else load_image buf size k lo hi
