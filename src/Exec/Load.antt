-- ===== src/Exec/Load.antt =====
-- exec_elf.c: what lies in memory when a program is entered.
use os_from_scratch_graphic.Prelude.{
  ℕ, ◌+◌, ◌-◌, ◌%◌, ◌^◌, ◌≡◌, ◌≢◌, ◌≤◌, ◌<◌, ◌⊎◌, inl, inr, refl, ◌∙◌, Bool-cases, true, false,
  List, [], ◌∷◌, arith, ltb, ◌==◌,
}
use os_from_scratch_graphic.Endian.{Bytes}
use os_from_scratch_graphic.Memory.{Memory, memset}
use os_from_scratch_graphic.Memory.Copies.{memset_lem}
use os_from_scratch_graphic.Alloc.{kmalloc, rounded}
use os_from_scratch_graphic.Exec.{
  ProgramHeader, Space, entry, headers, is_load, extent, place, is_cut, load_segments, load_image,
  elf32_load, has_magic, e_phoff, e_phnum, e_entry,
}
use os_from_scratch_graphic.Exec.Place.{
  Fits, Apart, Listed, first, later, Image, end, header, place_of, content, IsClear, place-inside,
  place-outside,
}
use os_from_scratch_graphic.Exec.Extent.{extent-covers, extent-small, extent-ordered, Image-extent}

swap : (a b : ProgramHeader) → Apart a b → Apart b a
swap a b (inl before) = inr before
swap a b (inr behind) = inl behind

module _ (buf : Bytes) (size base lo hi : ℕ) (room : base + (hi - lo) < 2 ^ 32)
    (small : hi < 2 ^ 32) where
  load_segments-outside :
      (phs : List ProgramHeader) (m : Memory) (q : ℕ)
      → Image size lo hi phs
      → ((t : ProgramHeader) → Listed t phs → is_load t ≡ true → IsClear base lo t q)
      → (load_segments buf size base lo phs m).1 q ≡ m q
  unfolding load_segments
  load_segments-outside [] m q image clear = refl
  load_segments-outside (ph ∷ phs) m q (header fits apart rest) clear =
      elim (Bool-cases (is_cut size ph)) [
        | inl cut ↦ rw cut refl
        | inr whole ↦ rw whole (
            load_segments-outside phs (place buf base lo ph m) q rest
              (λ t l load. clear t (later l) load)
            ∙ place-outside buf size base lo hi ph m q fits room small (clear ph first))
      ]

  not_cut : (ph : ProgramHeader) → (is_load ph ≡ true → Fits size lo hi ph) → is_cut size ph ≡ false
  not_cut ph f = elim (Bool-cases (is_load ph)) [
    | inl load ↦ let in_file = (f load).in_file in ground arith
    | inr skip ↦ rw skip refl
  ]

  load_segments-whole :
      (phs : List ProgramHeader) (m : Memory)
      → Image size lo hi phs
      → (load_segments buf size base lo phs m).0 ≡ true
  unfolding load_segments
  load_segments-whole [] m end = refl
  load_segments-whole (ph ∷ phs) m (header fits apart rest) =
      rw (not_cut ph fits) (load_segments-whole phs (place buf base lo ph m) rest)

  -- A segment that is apart from the place of a byte.
  Apart-IsClear :
      (s t : ProgramHeader) (j : ℕ)
      → Fits size lo hi s
      → Fits size lo hi t
      → j < s.p_memsz
      → Apart s t
      → IsClear base lo t (place_of base lo s j)
  Apart-IsClear s t j f g l apart = omega (arith, f.from, g.from)

  -- The fields of a header's entry that hold of every later one.
  Image-Fits :
      {phs : List ProgramHeader} {t : ProgramHeader}
      → Image size lo hi phs
      → Listed t phs
      → is_load t ≡ true
      → Fits size lo hi t
  Image-Fits end l load = elim l [ ]
  Image-Fits (header fits apart rest) first load = fits load
  Image-Fits (header fits apart rest) (later l) load = Image-Fits rest l load

  load_segments-content :
      (phs : List ProgramHeader) (m : Memory) {s : ProgramHeader} (j : ℕ)
      → Image size lo hi phs
      → Listed s phs
      → is_load s ≡ true
      → j < s.p_memsz
      → m (place_of base lo s j) ≡ 0
      → (load_segments buf size base lo phs m).1 (place_of base lo s j) ≡ content buf s j
  unfolding load_segments
  load_segments-content [] m j image l load inside zeroed = elim l [ ]
  load_segments-content (s ∷ phs) m j (header fits apart rest) first load inside zeroed =
      rw (not_cut s fits) (
        load_segments-outside phs (place buf base lo s m) (place_of base lo s j) rest (λ t l loads.
          Apart-IsClear s t j (fits load) (Image-Fits rest l loads) inside (apart t l load loads))
        ∙ place-inside buf size base lo hi s m j load (fits load) room small zeroed)
  load_segments-content (ph ∷ phs) m {s} j (header fits apart rest) (later l) load inside zeroed =
      let other : is_load ph ≡ true → IsClear base lo ph (place_of base lo s j) = λ loads.
        Apart-IsClear s ph j (Image-Fits rest l load) (fits loads) inside
          (swap ph s (apart s l loads load)) in
      rw (not_cut ph fits) (
        load_segments-content phs (place buf base lo ph m) j rest l load inside (
          place-outside buf size base lo hi ph m (place_of base lo s j) fits room small other
          ∙ zeroed))

-- A file with a header, segments that lie in it, are no longer there than in memory, do not overlap and stay below
-- 2^32, and room for its image on the heap.
pub record IsLoadable (buf : Bytes) (size : ℕ) (k : Space) : Type 0 where
  pub long : 52 ≤ size
  pub magic : has_magic buf ≡ true
  pub table : e_phoff buf ≢ 0
  pub some_header : e_phnum buf ≢ 0
  pub image : Image size 0 (2 ^ 32 - 1) (headers buf)
  pub some_segment : (extent (headers buf) (2 ^ 32 - 1) 0).0 < 2 ^ 32 - 1
  pub heap : k.heap ≢ 0
  pub room :
      k.heap + ((extent (headers buf) (2 ^ 32 - 1) 0).1 - (extent (headers buf) (2 ^ 32 - 1) 0).0)
      < 2 ^ 32

header_passes :
    (buf : Bytes) (size : ℕ) (k : Space)
    → IsLoadable buf size k
    → elf32_load buf size k
      ≡ load_image buf size k
          (extent (headers buf) (2 ^ 32 - 1) 0).0
          (extent (headers buf) (2 ^ 32 - 1) 0).1
unfolding elf32_load
header_passes buf size k r = rw (enough, r.magic, no_offset, no_header, no_segment) refl
  where
    enough : ltb size 52 ≡ false
    enough = let long = r.long in ground arith

    no_offset : e_phoff buf == 0 ≡ false
    no_offset = let table = r.table in ground arith

    no_header : e_phnum buf == 0 ≡ false
    no_header = let some_header = r.some_header in ground arith

    no_segment : (extent (headers buf) (2 ^ 32 - 1) 0).0 == 2 ^ 32 - 1 ≡ false
    no_segment = let some_segment = r.some_segment in ground arith

load_image-enters :
    (buf : Bytes) (size : ℕ) (k : Space) (lo hi : ℕ)
    → k.heap ≢ 0
    → lo ≤ hi
    → hi < 2 ^ 32
    → (load_segments buf size k.heap lo (headers buf) (memset k.mem k.heap 0 (hi - lo))).0 ≡ true
    → load_image buf size k lo hi
      ≡ entry ((k.heap + (e_entry buf + (2 ^ 32 - lo)) % 2 ^ 32) % 2 ^ 32) (record {
        mem = (load_segments buf size k.heap lo (headers buf) (memset k.mem k.heap 0 (hi - lo))).1;
        heap = (k.heap + rounded (hi - lo)) % 2 ^ 32;
      })
unfolding load_image kmalloc
load_image-enters buf size k lo hi block ordered small whole = rw (total, no_failure, whole) refl
  where
    total : (hi + (2 ^ 32 - lo)) % 2 ^ 32 ≡ hi - lo
    total = omega arith

    no_failure : k.heap == 0 ≡ false
    no_failure = ground arith

-- Of an image as IsLoadable says: a file of 52 bytes or more with the magic number and program headers, whose
-- loadable segments lie in the file, have no more bytes there than in memory, do not overlap and do not wrap, with
-- room for them on the heap. Such an image is loaded and is entered at its entry point, relative to the block that it was given. Each byte of each
-- segment then lies at the segment's address relative to the lowest one: the byte of the file where the file has
-- one, and 0 behind it. Nothing outside the block has changed.
pub elf32_load-content :
    (buf : Bytes) (size : ℕ) (k : Space)
    → IsLoadable buf size k
    → let (lo, hi) = extent (headers buf) (2 ^ 32 - 1) 0 in
      (m : Memory) × ((elf32_load buf size k
          ≡ entry
              ((k.heap + (e_entry buf + (2 ^ 32 - lo)) % 2 ^ 32) % 2 ^ 32)
              (record { mem = m; heap = (k.heap + rounded (hi - lo)) % 2 ^ 32 }))
        × (((s : ProgramHeader) (j : ℕ)
              → Listed s (headers buf)
              → is_load s ≡ true
              → j < s.p_memsz
              → m (place_of k.heap lo s j) ≡ content buf s j)
            × ((q : ℕ) → (q < k.heap) ⊎ (k.heap + (hi - lo) ≤ q) → m q ≡ k.mem q)))
elf32_load-content buf size k r =
    (after, (entered, (λ s j l load inside. content_of s j l load inside, λ q out. outside q out)))
  where
    lo : ℕ
    lo = (extent (headers buf) (2 ^ 32 - 1) 0).0

    hi : ℕ
    hi = (extent (headers buf) (2 ^ 32 - 1) 0).1

    blank : Memory
    blank = memset k.mem k.heap 0 (hi - lo)

    after : Memory
    after = (load_segments buf size k.heap lo (headers buf) blank).1

    ordered : lo ≤ hi
    ordered = extent-ordered (headers buf) (2 ^ 32 - 1) 0 r.image r.some_segment

    small : hi < 2 ^ 32
    small = extent-small (headers buf) (2 ^ 32 - 1) 0 (omega arith)

    image : Image size lo hi (headers buf)
    image =
        Image-extent (headers buf) lo hi r.image
          (λ ph l load. extent-covers (headers buf) (2 ^ 32 - 1) 0 l load)

    whole : (load_segments buf size k.heap lo (headers buf) blank).0 ≡ true
    whole = load_segments-whole buf size k.heap lo hi r.room small (headers buf) blank image

    entered :
        elf32_load buf size k
        ≡ entry
            ((k.heap + (e_entry buf + (2 ^ 32 - lo)) % 2 ^ 32) % 2 ^ 32)
            (record { mem = after; heap = (k.heap + rounded (hi - lo)) % 2 ^ 32 })
    entered =
        header_passes buf size k r ∙ load_image-enters buf size k lo hi r.heap ordered small whole

    zeroed :
        (s : ProgramHeader) (j : ℕ)
        → Fits size lo hi s
        → j < s.p_memsz
        → blank (place_of k.heap lo s j) ≡ 0
    zeroed s j f inside =
        memset_lem k.mem k.heap 0 (hi - lo) (place_of k.heap lo s j) ∙ ground (arith, f.from, f.to)

    content_of :
        (s : ProgramHeader) (j : ℕ)
        → Listed s (headers buf)
        → is_load s ≡ true
        → j < s.p_memsz
        → after (place_of k.heap lo s j) ≡ content buf s j
    content_of s j l load inside =
        load_segments-content buf size k.heap lo hi r.room small (headers buf) blank j image l load
          inside (zeroed s j (Image-Fits buf size k.heap lo hi r.room small image l load) inside)

    away :
        {q : ℕ} (t : ProgramHeader)
        → Fits size lo hi t
        → (q < k.heap) ⊎ (k.heap + (hi - lo) ≤ q)
        → IsClear k.heap lo t q
    away t f (inl below) = inl (omega arith)
    away t f (inr above) = inr (omega (arith, f.from, f.to, f.room))

    outside : (q : ℕ) → (q < k.heap) ⊎ (k.heap + (hi - lo) ≤ q) → after q ≡ k.mem q
    outside q out =
        load_segments-outside buf size k.heap lo hi r.room small (headers buf) blank q image
          (λ t l load. away t (Image-Fits buf size k.heap lo hi r.room small image l load) out)
        ∙ (memset_lem k.mem k.heap 0 (hi - lo) q ∙ ground arith)
