-- ===== src/Syscalls/Stub.antt =====
-- irqstubs.S: the entry of int 0x80, which pushes the registers and calls syscall_handler_c.
use os_from_scratch_graphic.Prelude.{ℕ, ◌-◌, ◌%◌, ◌^◌, ◌≡◌, ◌≢◌, ◌<◌, refl, false, arith, ◌==◌}
use os_from_scratch_graphic.Endian.{le32}
use os_from_scratch_graphic.Memory.{Memory}
use os_from_scratch_graphic.Tcp.Rx.{write_bytes}
use os_from_scratch_graphic.Graphics.Draw.{u32_at}
use os_from_scratch_graphic.Syscalls.{System, syscall_handler_c}

-- The registers at the entry. The upper half of what the push of a segment register stores is not specified, so `ds`
-- and `es` are the words that are stored.
pub record Registers : Type 0 where
  pub eax : ℕ
  pub ecx : ℕ
  pub edx : ℕ
  pub ebx : ℕ
  pub esp : ℕ
  pub ebp : ℕ
  pub esi : ℕ
  pub edi : ℕ
  pub ds : ℕ
  pub es : ℕ

-- A word is stored at the address.
unfoldable pub store32 : Memory → ℕ → ℕ → Memory
store32 m p v = write_bytes m p (le32 v)

-- pusha, push %ds and push %es.
unfoldable pub push_registers : Memory → Registers → Memory
push_registers m r =
    let m1 = store32 (store32 (store32 m (r.esp - 4) r.eax) (r.esp - 8) r.ecx) (r.esp - 12) r.edx in
    let m2 =
      store32 (store32 (store32 m1 (r.esp - 16) r.ebx) (r.esp - 20) r.esp) (r.esp - 24) r.ebp in
    let m3 = store32 (store32 m2 (r.esp - 28) r.esi) (r.esp - 32) r.edi in
    store32 (store32 m3 (r.esp - 36) r.ds) (r.esp - 40) r.es

-- The argument of the handler is the stack pointer behind the pushes.
unfoldable pub irq80_stub : Memory → System → Registers → System
irq80_stub m k r = syscall_handler_c (push_registers m r) k (r.esp - 40)

u32_at-store32 : (m : Memory) (p v : ℕ) → v < 2 ^ 32 → u32_at (store32 m p v) p ≡ v
unfolding store32
u32_at-store32 m p v small = ground arith

number-push_registers :
    (m : Memory) (r : Registers) → r.es < 2 ^ 32 → u32_at (push_registers m r) (r.esp - 40) ≡ r.es
unfolding push_registers
number-push_registers m r small = u32_at-store32 _ (r.esp - 40) r.es small

syscall_handler_c-other :
    (m : Memory) (k : System) (regs : ℕ)
    → u32_at m regs ≢ 1
    → u32_at m regs ≢ 2
    → syscall_handler_c m k regs ≡ k
unfolding syscall_handler_c
syscall_handler_c-other m k regs no_write no_exit = rw (first, second) refl
  where
    first : u32_at m regs == 1 ≡ false
    first = ground arith

    second : u32_at m regs == 2 ≡ false
    second = ground arith

-- The handler takes the word that `push %es` stored for the number of the call: with the data selector 0x10 of
-- boot.asm in `es`, a system call does nothing, whatever a program has in its other registers.
pub irq80_stub-ignores :
    (m : Memory) (k : System) (r : Registers)
    → r.es % 2 ^ 16 ≡ 0x10
    → r.es < 2 ^ 32
    → irq80_stub m k r ≡ k
unfolding irq80_stub
irq80_stub-ignores m k r flat small =
    syscall_handler_c-other (push_registers m r) k (r.esp - 40)
      (omega (arith, number-push_registers m r small))
      (omega (arith, number-push_registers m r small))
