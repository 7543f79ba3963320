-- ===== src/Syscalls.antt =====
-- syscalls.c: the console, the system calls of a program, and the interrupt table; and the run of a loaded
-- program in exec_elf.c.
pub mod Calls
pub mod Run
pub mod Stub
mod Tests
use os_from_scratch_graphic.Prelude.{
  ℕ, zero, suc, ◌+◌, ◌-◌, ◌*◌, ◌/◌, ◌%◌, ◌^◌, Bool, true, false, List, [], ◌∷◌, ◌++◌, set,
  replicate, ltb, ◌==◌, if◌then◌else◌,
}
use os_from_scratch_graphic.Prelude.Int.{ℤ, pos, negsuc, ltb_ℤ, ◌-ℤ◌}
use os_from_scratch_graphic.Endian.{Bytes}
use os_from_scratch_graphic.Memory.{Memory}
use os_from_scratch_graphic.Tcp.Api.{bytes_from}
use os_from_scratch_graphic.Graphics.{Mode, int_of}
use os_from_scratch_graphic.Graphics.Draw.{draw_string, u32_at}

-- struct idt_entry
pub record IdtEntry : Type 0 where
  pub offset_low : ℕ
  pub sel : ℕ
  pub zeroed : ℕ
  pub flags : ℕ
  pub offset_high : ℕ

-- The globals of syscalls.c, and the framebuffer that the console draws on. `idtp` holds the limit and the base.
pub record System : Type 0 where
  pub user_exited : Bool
  pub user_exit_code : ℤ
  pub cons_y : ℕ
  pub idt : List IdtEntry
  pub idtp : ℕ × ℕ
  pub mode : Mode
  pub screen : Memory

-- cons_x
abbrev pub cons_x : ℤ
cons_x = pos 6

-- The next line, and the top again behind the last one.
abbrev pub next_line : Mode → ℕ → ℕ
next_line d y = if ltb_ℤ (int_of d.height -ℤ pos 10) (pos (y + 10)) then 6 else y + 10

unfoldable pub console_puts : System → Bytes → System
console_puts k s = record k {
  screen = draw_string k.mode k.screen cons_x (pos k.cons_y) s 0;
  cons_y = next_line k.mode k.cons_y;
}

unfoldable pub set_idt_entry : List IdtEntry → ℕ → ℕ → ℕ → ℕ → List IdtEntry
set_idt_entry idt idx base sel flags = set idt idx (record {
  offset_low = base % 2 ^ 16;
  sel = sel;
  zeroed = 0;
  flags = flags;
  offset_high = base / 2 ^ 16 % 2 ^ 16;
})

-- The loop that clears the first `n` entries.
unfoldable pub zero_idt : List IdtEntry → ℕ → List IdtEntry
zero_idt idt zero = idt
zero_idt idt (suc n) = set_idt_entry (zero_idt idt n) n 0 0 0

-- For the address of irq80_stub and of the table. The load of the table register is machine code.
unfoldable pub init_syscalls : ℕ → ℕ → System → System
init_syscalls stub table k = record k {
  idt = set_idt_entry (zero_idt k.idt 256) 0x80 stub 0x08 0x8e;
  idtp = (256 * 8 - 1, table);
}

-- `while (v > 0 && ti < 16) { tmp[ti++] = '0' + (v % 10); v /= 10; }`, with the room left in `tmp`.
unfoldable pub exit_digits : ℕ → ℕ → Bytes
exit_digits zero v = []
exit_digits (suc room) v =
    let rest = exit_digits room (v / 10) in if v == 0 then [] else (b'0' + v % 10) ∷ rest

-- `while (ti--) buf[n++] = tmp[ti];`
abbrev pub from_last : Bytes → Bytes
from_last [] = []
from_last (b ∷ tmp) = from_last tmp ++ (b ∷ [])

-- The text of the code. The most negative int is its own negation, and so has no digits.
unfoldable pub exit_text : ℤ → Bytes
exit_text (pos v) = if v == 0 then b'0' ∷ [] else from_last (exit_digits 16 v)
exit_text (negsuc v) =
    let v' = if v == 2 ^ 31 - 1 then 0 else suc v in from_last (exit_digits 16 v' ++ (b'-' ∷ []))

-- `(int)sizeof(tmp)-1`
abbrev pub write_max : ℕ
write_max = 512 - 1

-- The bytes of the caller that are shown, for a length that is not negative.
abbrev pub written : Memory → ℕ → ℕ → Bytes
written m from len = bytes_from m from (if ltb write_max len then write_max else len)

-- The call with number 1.
abbrev pub sys_write : Memory → System → ℕ → ℕ → System
sys_write m k ecx ebx =
    if ltb ecx (2 ^ 31) then console_puts k (written m ebx ecx ++ (0 ∷ [])) else k

-- The call with number 2. "[user exit]" is shown before the code.
abbrev pub sys_exit : System → ℕ → System
sys_exit k ebx =
    let k1 = record k { user_exit_code = int_of ebx; user_exited = true } in
    console_puts
      (console_puts k1
        (b'[' ∷ b'u' ∷ b's' ∷ b'e' ∷ b'r' ∷ b' ' ∷ b'e' ∷ b'x' ∷ b'i' ∷ b't' ∷ b']' ∷ 0 ∷ []))
      (exit_text (int_of ebx) ++ (0 ∷ []))

-- `regs` is an address.
unfoldable pub syscall_handler_c : Memory → System → ℕ → System
syscall_handler_c m k regs =
    let num = u32_at m regs in
    if num == 1
    then sys_write m k (u32_at m (regs + 4)) (u32_at m (regs + 12))
    else if num == 2
    then sys_exit k (u32_at m (regs + 12))
    else k
