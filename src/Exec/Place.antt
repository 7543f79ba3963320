-- ===== src/Exec/Place.antt =====
-- exec_elf.c: where the bytes of one segment go.
use os_from_scratch_graphic.Prelude.{
  ℕ, zero, suc, ◌+◌, ◌-◌, ◌^◌, ◌≡◌, ◌≤◌, ◌<◌, ◌⊎◌, inl, inr, refl, ap, ◌∙◌, Bool-cases, true, List,
  [], ◌∷◌, arith, length, drop, ltb, if◌then◌else◌,
}
use os_from_scratch_graphic.Endian.{Bytes, byte, load_bytes}
use os_from_scratch_graphic.Endian.Layout.{length-load_bytes}
use os_from_scratch_graphic.Memory.{Memory}
use os_from_scratch_graphic.Tcp.Rx.{write_bytes}
use os_from_scratch_graphic.Tcp.Buffer.{write_bytes_lem, outside_run}
use os_from_scratch_graphic.Exec.{ProgramHeader, is_load, place}

-- The segment's bytes lie in the file, and its addresses between two bounds.
pub record Fits (size lo hi : ℕ) (ph : ProgramHeader) : Type 0 where
  pub in_file : ph.p_offset + ph.p_filesz ≤ size
  pub from : lo ≤ ph.p_vaddr
  pub room : ph.p_filesz ≤ ph.p_memsz
  pub to : ph.p_vaddr + ph.p_memsz ≤ hi

-- Two segments share no address.
abbrev pub Apart : ProgramHeader → ProgramHeader → Type 0
Apart a b = (a.p_vaddr + a.p_memsz ≤ b.p_vaddr) ⊎ (b.p_vaddr + b.p_memsz ≤ a.p_vaddr)

-- A header of the table.
pub data Listed (s : ProgramHeader) : List ProgramHeader → Type 0 where
  first : {phs : List ProgramHeader} → Listed s (s ∷ phs)
  later : {ph : ProgramHeader} {phs : List ProgramHeader} → Listed s phs → Listed s (ph ∷ phs)

-- Every segment to load lies in the file and between the bounds, and shares no address with another.
pub data Image (size lo hi : ℕ) : List ProgramHeader → Type 0 where
  end : Image size lo hi []
  header :
      {ph : ProgramHeader} {phs : List ProgramHeader}
      → (is_load ph ≡ true → Fits size lo hi ph)
      → ((t : ProgramHeader) → Listed t phs → is_load ph ≡ true → is_load t ≡ true → Apart ph t)
      → Image size lo hi phs
      → Image size lo hi (ph ∷ phs)

-- Where a byte of the segment goes.
abbrev pub place_of : ℕ → ℕ → ProgramHeader → ℕ → ℕ
place_of base lo ph j = base + (ph.p_vaddr - lo) + j

-- What it is to be: a byte of the file, or 0 behind them.
abbrev pub content : Bytes → ProgramHeader → ℕ → ℕ
content buf ph j = if ltb j ph.p_filesz then byte buf (ph.p_offset + j) else 0

byte-load_bytes : (n i : ℕ) (m : Bytes) → i < n → byte (load_bytes n m) i ≡ byte m i
byte-load_bytes zero i m l = absurd (omega arith)
byte-load_bytes (suc n) zero [] l = refl
byte-load_bytes (suc n) (suc i) [] l = byte-load_bytes n i [] (omega arith) ∙ refl
byte-load_bytes (suc n) zero (b ∷ m) l = refl
byte-load_bytes (suc n) (suc i) (b ∷ m) l = byte-load_bytes n i m (omega arith)

byte-drop : (k i : ℕ) (m : Bytes) → byte (drop k m) i ≡ byte m (k + i)
byte-drop zero i m = ap (byte m) (omega arith)
byte-drop (suc k) i [] = refl
byte-drop (suc k) i (b ∷ m) =
    byte-drop k i m ∙ ap (byte (b ∷ m)) {x = suc (k + i)} {y = suc k + i} (omega arith)

-- One segment, for addresses that do not wrap.
place-eq :
    (buf : Bytes) (size base lo hi : ℕ) (ph : ProgramHeader) (m : Memory)
    → is_load ph ≡ true
    → Fits size lo hi ph
    → base + (hi - lo) < 2 ^ 32
    → hi < 2 ^ 32
    → place buf base lo ph m
      ≡ write_bytes m (place_of base lo ph 0) (load_bytes ph.p_filesz (drop ph.p_offset buf))
place-eq buf size base lo hi ph m load f room small = rw load (
    ap (λ p. write_bytes m p (load_bytes ph.p_filesz (drop ph.p_offset buf)))
      (omega (arith, f.from, f.to)))

pub place-inside :
    (buf : Bytes) (size base lo hi : ℕ) (ph : ProgramHeader) (m : Memory) (j : ℕ)
    → is_load ph ≡ true
    → Fits size lo hi ph
    → base + (hi - lo) < 2 ^ 32
    → hi < 2 ^ 32
    → m (place_of base lo ph j) ≡ 0
    → place buf base lo ph m (place_of base lo ph j) ≡ content buf ph j
place-inside buf size base lo hi ph m j load f room small clear =
    ap (λ m'. m' (place_of base lo ph j)) (place-eq buf size base lo hi ph m load f room small)
    ∙ ground (
      arith,
      write_bytes_lem (load_bytes ph.p_filesz (drop ph.p_offset buf)) m (place_of base lo ph 0)
          (place_of base lo ph j),
      length-load_bytes ph.p_filesz (drop ph.p_offset buf),
      byte-load_bytes ph.p_filesz j (drop ph.p_offset buf),
      byte-drop ph.p_offset j buf,
    )

-- An address that no byte of the segment goes to.
abbrev pub IsClear : ℕ → ℕ → ProgramHeader → ℕ → Type 0
IsClear base lo ph q = (q < place_of base lo ph 0) ⊎ (place_of base lo ph ph.p_memsz ≤ q)

pub place-outside :
    (buf : Bytes) (size base lo hi : ℕ) (ph : ProgramHeader) (m : Memory) (q : ℕ)
    → (is_load ph ≡ true → Fits size lo hi ph)
    → base + (hi - lo) < 2 ^ 32
    → hi < 2 ^ 32
    → (is_load ph ≡ true → IsClear base lo ph q)
    → place buf base lo ph m q ≡ m q
place-outside buf size base lo hi ph m q f room small clear = elim (Bool-cases (is_load ph)) [
  | inl load ↦
      ap (λ m'. m' q) (place-eq buf size base lo hi ph m load (f load) room small)
      ∙ outside_run (load_bytes ph.p_filesz (drop ph.p_offset buf)) m (place_of base lo ph 0) q
          (aside load (clear load))
  | inr skip ↦ rw skip refl
]
  where
    aside :
        is_load ph ≡ true
        → IsClear base lo ph q
        → (q < place_of base lo ph 0)
          ⊎ (place_of base lo ph 0 + length (load_bytes ph.p_filesz (drop ph.p_offset buf)) ≤ q)
    aside load (inl below) = inl below
    aside load (inr above) =
        inr (omega (arith, (f load).room, length-load_bytes ph.p_filesz (drop ph.p_offset buf)))
