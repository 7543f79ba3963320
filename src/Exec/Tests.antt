-- ===== src/Exec/Tests.antt =====
-- exec_elf.c on the sample image.
use os_from_scratch_graphic.Prelude.{ℕ, ◌+◌, ◌-◌, ◌%◌, ◌^◌, ◌≡◌, ◌≤◌, ◌<◌, ◌⊎◌, true}
use os_from_scratch_graphic.Memory.{Memory}
use os_from_scratch_graphic.Alloc.{rounded}
use os_from_scratch_graphic.Exec.{
  ProgramHeader, entry, headers, is_load, extent, elf32_load, e_entry,
}
use os_from_scratch_graphic.Exec.Place.{Listed, place_of, content}
use os_from_scratch_graphic.Exec.Load.{elf32_load-content}
use os_from_scratch_graphic.Exec.Sample.{file, space, file-IsLoadable}

elf32_load-content_example :
    let (lo, hi) = extent (headers file) (2 ^ 32 - 1) 0 in
    (m : Memory) × ((elf32_load file 87 space
        ≡ entry
            ((space.heap + (e_entry file + (2 ^ 32 - lo)) % 2 ^ 32) % 2 ^ 32)
            (record { mem = m; heap = (space.heap + rounded (hi - lo)) % 2 ^ 32 }))
      × (((s : ProgramHeader) (j : ℕ)
            → Listed s (headers file)
            → is_load s ≡ true
            → j < s.p_memsz
            → m (place_of space.heap lo s j) ≡ content file s j)
          × ((q : ℕ) → (q < space.heap) ⊎ (space.heap + (hi - lo) ≤ q) → m q ≡ space.mem q)))
elf32_load-content_example = elf32_load-content file 87 space file-IsLoadable
