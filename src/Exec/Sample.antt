-- ===== src/Exec/Sample.antt =====
-- A small image for exec_elf.c: one segment at 0x1000, of three bytes in the file and five in memory.
use os_from_scratch_graphic.Prelude.{◌-◌, ◌^◌, ◌≡◌, refl, [], ◌∷◌, ◌++◌, arith, replicate}
use os_from_scratch_graphic.Endian.{Bytes, le32}
use os_from_scratch_graphic.Exec.{ProgramHeader, Space, headers_from, headers, extent}
use os_from_scratch_graphic.Exec.Place.{Image, end, header}
use os_from_scratch_graphic.Exec.Load.{IsLoadable}

-- The header: the entry at 0x1001, one program header behind it at 52.
abbrev front : Bytes
front =
    (0x7f ∷ b'E' ∷ b'L' ∷ b'F' ∷ replicate 20 0)
    ++ (le32 0x1001 ++ (le32 52 ++ (replicate 10 0 ++ (32 ∷ 0 ∷ 1 ∷ 0 ∷ replicate 6 0))))

abbrev table : Bytes
table =
    le32 1
    ++ (le32 84 ++ (le32 0x1000 ++ (le32 0 ++ (le32 3 ++ (le32 5 ++ (le32 7 ++ le32 4096))))))

unfoldable pub file : Bytes
file = front ++ (table ++ (10 ∷ 20 ∷ 30 ∷ []))

abbrev pub space : Space
space = record { mem = λ q. 9; heap = 0x01000000 }

abbrev pub segment : ProgramHeader
segment = record { p_type = 1; p_offset = 84; p_vaddr = 0x1000; p_filesz = 3; p_memsz = 5 }

pub file-headers : headers file ≡ segment ∷ []
unfolding headers headers_from file
file-headers = refl

file-extent : extent (headers file) (2 ^ 32 - 1) 0 ≡ (0x1000, 0x1005)
unfolding extent headers headers_from file
file-extent = refl

file-Image : Image 87 0 (2 ^ 32 - 1) (segment ∷ [])
file-Image =
    header
      (λ load. record {
        in_file = omega arith;
        from = omega arith;
        room = omega arith;
        to = omega arith;
      })
      (λ t l. elim l [ ]) end

pub file-IsLoadable : IsLoadable file 87 space
unfolding file
file-IsLoadable = record {
  long = omega arith;
  magic = refl;
  table = omega arith;
  some_header = omega arith;
  image = rw file-headers file-Image;
  some_segment = rw file-extent (omega arith);
  heap = omega arith;
  room = rw file-extent (omega arith);
}
