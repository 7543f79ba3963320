-- ===== src/Syscalls/Calls.antt =====
-- syscalls.c: what the console, the exit text and the interrupt table hold.
use os_from_scratch_graphic.Prelude.{
  ℕ, zero, suc, ◌+◌, ◌-◌, ◌*◌, ◌/◌, ◌%◌, ◌^◌, ◌≡◌, ◌≢◌, ◌≤◌, ◌<◌, inl, inr, refl, ap, ◌∙◌,
  Bool-cases, true, false, List, [], ◌∷◌, ◌++◌, arith, length, length-set, set, get_or,
  get_or-set_self, get_or-set_ne, ltb, ◌==◌, if◌then◌else◌,
}
use mathlib.Core.List.{append_assoc}
use os_from_scratch_graphic.Prelude.Int.{pos, negsuc, ◌-ℤ◌}
use os_from_scratch_graphic.Endian.{Bytes}
use os_from_scratch_graphic.Memory.{Memory}
use os_from_scratch_graphic.Text.{atoi, atoi_loop, is_digit}
use os_from_scratch_graphic.Graphics.{Mode}
use os_from_scratch_graphic.Graphics.Draw.{u32_at}
use os_from_scratch_graphic.Syscalls.{
  IdtEntry, System, next_line, console_puts, set_idt_entry, zero_idt, init_syscalls, exit_digits,
  from_last, exit_text, syscall_handler_c,
}

from_last-snoc : (xs : Bytes) (b : ℕ) → from_last (xs ++ (b ∷ [])) ≡ b ∷ from_last xs
from_last-snoc [] b = refl
from_last-snoc (x ∷ xs) b = ap (λ r. r ++ (x ∷ [])) (from_last-snoc xs b)

atoi_loop-digit :
    (n c : ℕ) (s : Bytes)
    → is_digit c ≡ true
    → atoi_loop n (c ∷ s) ≡ atoi_loop ((n * 10 + (c - b'0')) % 2 ^ 32) s
unfolding atoi_loop
atoi_loop-digit n c s d = rw d refl

-- The digits, read after nothing, give the number.
atoi_loop-digits :
    (room t : ℕ) (s : Bytes)
    → t < 10 ^ room
    → t < 2 ^ 32
    → atoi_loop 0 (from_last (exit_digits room t) ++ s) ≡ atoi_loop t s
unfolding exit_digits
atoi_loop-digits zero t s h small = ap (λ n. atoi_loop n s) {x = 0} {y = t} (omega arith)
atoi_loop-digits (suc room) t s h small = elim (Bool-cases (t == 0)) [
  | inl z ↦ rw z (ap (λ n. atoi_loop n s) {x = 0} {y = t} (ground arith))
  | inr nz ↦ rw nz (
      ap (atoi_loop 0)
        (append_assoc (from_last (exit_digits room (t / 10))) ((b'0' + t % 10) ∷ []) s)
      ∙ (atoi_loop-digits room (t / 10) ((b'0' + t % 10) ∷ s) (omega arith) (omega arith)
          ∙ (atoi_loop-digit (t / 10) (b'0' + t % 10) s (ground arith)
              ∙ ap (λ n. atoi_loop n s) {x = (t / 10 * 10 + (b'0' + t % 10 - b'0')) % 2 ^ 32}
                  {y = t} (omega arith))))
]

-- The text that an exit shows, behind a minus sign for a negative code, reads back as the code, unless it is
-- the most negative int.
pub exit_text-atoi :
    (v : ℕ)
    → v < 2 ^ 31
    → (atoi (exit_text (pos v) ++ (0 ∷ [])) ≡ v)
      × (suc v < 2 ^ 31 → exit_text (negsuc v) ≡ b'-' ∷ exit_text (pos (suc v)))
unfolding exit_text atoi atoi_loop
exit_text-atoi v small = (read, shown)
  where
    read : atoi_loop 0 (exit_text (pos v) ++ (0 ∷ [])) ≡ v
    read = elim (Bool-cases (v == 0)) [
      | inl z ↦ rw z (ground arith)
      | inr nz ↦ rw nz (atoi_loop-digits 16 v (0 ∷ []) (omega arith) (omega arith))
    ]

    shown : suc v < 2 ^ 31 → exit_text (negsuc v) ≡ b'-' ∷ exit_text (pos (suc v))
    shown fits = rw (not_least fits, not_zero) (from_last-snoc (exit_digits 16 (suc v)) b'-')
      where
        not_least : suc v < 2 ^ 31 → v == 2 ^ 31 - 1 ≡ false
        not_least l = ground arith

        not_zero : suc v == 0 ≡ false
        not_zero = ground arith

-- The eight rows of pixels of the next line lie on the screen.
abbrev pub IsLine : System → Type 0
IsLine k = k.cons_y + 10 ≤ k.mode.height

next_line-small :
    (d : Mode) (y : ℕ) → 16 ≤ d.height → d.height < 2 ^ 31 → next_line d y + 10 ≤ d.height
unfolding ◌-ℤ◌
next_line-small d y high small = ground arith

console_puts-IsLine :
    (k : System) (s : Bytes)
    → 16 ≤ k.mode.height
    → k.mode.height < 2 ^ 31
    → IsLine (console_puts k s)
unfolding console_puts
console_puts-IsLine k s high small = next_line-small k.mode k.cons_y high small

mode-console_puts : (k : System) (s : Bytes) → (console_puts k s).mode ≡ k.mode
unfolding console_puts
mode-console_puts k s = refl

-- The next line of the console never reaches below the screen, on a screen of 16 rows of pixels or more: if its eight
-- rows lie above the lower edge, they do after any system call, which leaves a screen of the same size. (Nothing
-- is said of the right edge.)
pub syscall_handler_c-IsLine :
    (m : Memory) (k : System) (regs : ℕ)
    → 16 ≤ k.mode.height
    → k.mode.height < 2 ^ 31
    → IsLine k
    → IsLine (syscall_handler_c m k regs) × ((syscall_handler_c m k regs).mode ≡ k.mode)
unfolding syscall_handler_c console_puts
syscall_handler_c-IsLine m k regs high small line =
    let next = next_line-small k.mode k.cons_y high small in
    let last = next_line-small k.mode (next_line k.mode k.cons_y) high small in
    elim (Bool-cases (u32_at m regs == 1)) [
      | inl w ↦ rw w (elim (Bool-cases (ltb (u32_at m (regs + 4)) (2 ^ 31))) [
        | inl l ↦ rw l (next, refl)
        | inr l ↦ rw l (line, refl)
      ])
      | inr w ↦ rw w (elim (Bool-cases (u32_at m regs == 2)) [
        | inl e ↦ rw e (last, refl)
        | inr e ↦ rw e (line, refl)
      ])
    ]

abbrev pub no_gate : IdtEntry
no_gate = record { offset_low = 0; sel = 0; zeroed = 0; flags = 0; offset_high = 0 }

-- The gate of int 0x80: a 32-bit interrupt gate to the code segment.
abbrev pub gate : ℕ → IdtEntry
gate stub = record {
  offset_low = stub % 2 ^ 16;
  sel = 0x08;
  zeroed = 0;
  flags = 0x8e;
  offset_high = stub / 2 ^ 16 % 2 ^ 16;
}

length-zero_idt : (idt : List IdtEntry) (n : ℕ) → length (zero_idt idt n) ≡ length idt
unfolding zero_idt set_idt_entry
length-zero_idt idt zero = refl
length-zero_idt idt (suc n) = length-set (zero_idt idt n) n no_gate ∙ length-zero_idt idt n

get_or-zero_idt :
    (idt : List IdtEntry) (n i : ℕ) (d : IdtEntry)
    → n ≤ length idt
    → i < n
    → get_or (zero_idt idt n) i d ≡ no_gate
unfolding zero_idt set_idt_entry
get_or-zero_idt idt zero i d room l = absurd (omega arith)
get_or-zero_idt idt (suc n) i d room l = elim (Bool-cases (i == n)) [
  | inl e ↦
      ap (λ k. get_or (set (zero_idt idt n) n no_gate) k d) {x = i} {y = n} (ground arith)
      ∙ get_or-set_self (zero_idt idt n) n no_gate d (omega (arith, length-zero_idt idt n))
  | inr ne ↦
      get_or-set_ne (zero_idt idt n) no_gate d (apart ne)
      ∙ get_or-zero_idt idt n i d (omega arith) (ground arith)
]
  where
    apart : i == n ≡ false → n ≢ i
    apart ne = λ e. absurd (ground arith)

-- After init_syscalls the table of 256 entries has one gate, for int 0x80, whose two halves of the address make up
-- that of the stub; every other entry is zero, whatever the table held.
pub init_syscalls-gate :
    (stub table : ℕ) (k : System) (i : ℕ) (d : IdtEntry)
    → length k.idt ≡ 256
    → i < 256
    → stub < 2 ^ 32
    → (get_or (init_syscalls stub table k).idt i d ≡ (if i == 0x80 then gate stub else no_gate))
      × ((gate stub).offset_high * 2 ^ 16 + (gate stub).offset_low ≡ stub)
unfolding init_syscalls set_idt_entry
init_syscalls-gate stub table k i d full l small = (entry, omega arith)
  where
    apart : i == 0x80 ≡ false → 0x80 ≢ i
    apart ne = λ e. absurd (ground arith)

    entry :
        get_or (set (zero_idt k.idt 256) 0x80 (gate stub)) i d
        ≡ (if i == 0x80 then gate stub else no_gate)
    entry = elim (Bool-cases (i == 0x80)) [
      | inl e ↦ rw e (
          ap (λ j. get_or (set (zero_idt k.idt 256) 0x80 (gate stub)) j d) {x = i} {y = 0x80}
            (ground arith)
          ∙ get_or-set_self (zero_idt k.idt 256) 0x80 (gate stub) d
              (omega (arith, length-zero_idt k.idt 256)))
      | inr ne ↦ rw ne (
          get_or-set_ne (zero_idt k.idt 256) (gate stub) d (apart ne)
          ∙ get_or-zero_idt k.idt 256 i d (omega arith) (omega arith))
    ]
