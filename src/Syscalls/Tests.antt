-- ===== src/Syscalls/Tests.antt =====
-- syscalls.c on a small screen, and the sample image run.
use os_from_scratch_graphic.Prelude.{
  ℕ, ◌≡◌, refl, true, [], ◌∷◌, arith, replicate, ◌==◌, if◌then◌else◌,
}
use os_from_scratch_graphic.Prelude.Int.{ℤ, pos}
use os_from_scratch_graphic.Memory.{Memory}
use os_from_scratch_graphic.Exec.{Space, entry, elf32_load}
use os_from_scratch_graphic.Exec.Sample.{file, space, file-IsLoadable}
use os_from_scratch_graphic.Syscalls.{
  System, init_syscalls, exit_digits, exit_text, syscall_handler_c,
}
use os_from_scratch_graphic.Syscalls.Calls.{IsLine, syscall_handler_c-IsLine}
use os_from_scratch_graphic.Syscalls.Stub.{Registers, irq80_stub, irq80_stub-ignores}
use os_from_scratch_graphic.Syscalls.Run.{Kernel, elf32_load_and_run, elf32_load_and_run-code}

exit_text_forty_two : exit_text (pos 42) ≡ b'4' ∷ b'2' ∷ []
unfolding exit_text exit_digits
exit_text_forty_two = refl

-- A program has made the exit call with 7 before.
abbrev system : System
system = record {
  user_exited = true;
  user_exit_code = pos 7;
  cons_y = 6;
  idt = replicate 256 (record { offset_low = 1; sel = 2; zeroed = 3; flags = 4; offset_high = 5 });
  idtp = (0, 0);
  mode = record { addr = 0xfd000000; width = 32; height = 36; pitch = 128; off_font = λ c i. 0 };
  screen = λ q. 0;
}

-- A call with number 1 at address 0x100: the text of three bytes at address 0x10.
abbrev calls : Memory
calls q = if q == 0x100 then 1 else if q == 0x104 then 3 else if q == 0x10c then 0x10 else 0

syscall_handler_c-IsLine_example :
    IsLine (syscall_handler_c calls system 0x100)
    × ((syscall_handler_c calls system 0x100).mode ≡ system.mode)
syscall_handler_c-IsLine_example =
    syscall_handler_c-IsLine calls system 0x100 (omega arith) (omega arith) (omega arith)

-- hello.c asks for its exit with code 42.
abbrev registers : Registers
registers = record {
  eax = 2;
  ecx = 0;
  edx = 0;
  ebx = 42;
  esp = 0x00400000;
  ebp = 0;
  esi = 0;
  edi = 0;
  ds = 0x10;
  es = 0x10;
}

irq80_stub-ignores_example : irq80_stub calls system registers ≡ system
irq80_stub-ignores_example = irq80_stub-ignores calls system registers refl (omega arith)

-- A program that returns 3.
abbrev three : ℕ → Kernel → ℤ × Kernel
three p k = (pos 3, k)

abbrev kernel : Kernel
kernel = record { space = space; system = system }

elf32_load_and_run-code_example :
    (p : ℕ) × (after : Space) × ((elf32_load file 87 space ≡ entry p after)
      × ((elf32_load_and_run three 0x00101234 0x00200000 file 87 kernel).0 ≡ (
          if true
          then pos 7
          else (three p
              (record { space = after; system = init_syscalls 0x00101234 0x00200000 system })).0)))
elf32_load_and_run-code_example =
    elf32_load_and_run-code three 0x00101234 0x00200000 file 87 kernel file-IsLoadable
      (λ p k. (refl, refl))
