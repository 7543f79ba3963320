-- ===== src/Syscalls/Run.antt =====
-- exec_elf.c: a program is loaded and run.
--
-- The program, its calls of the kernel included, is a parameter: what it returns and leaves.
use os_from_scratch_graphic.Prelude.{ℕ, ◌≡◌, refl, if◌then◌else◌}
use os_from_scratch_graphic.Prelude.Int.{ℤ}
use os_from_scratch_graphic.Endian.{Bytes}
use os_from_scratch_graphic.Exec.{Space, refused, entry, elf32_load}
use os_from_scratch_graphic.Exec.Load.{IsLoadable, elf32_load-content}
use os_from_scratch_graphic.Syscalls.{System, init_syscalls}

-- What a program can change.
pub record Kernel : Type 0 where
  pub space : Space
  pub system : System

module _ (run : ℕ → Kernel → ℤ × Kernel) (stub table : ℕ) where
  -- `if(user_exited) return user_exit_code; return r;`
  abbrev pub exit_code : ℤ × Kernel → ℤ × Kernel
  exit_code (r, k) = (if k.system.user_exited then k.system.user_exit_code else r, k)

  unfoldable pub elf32_load_and_run : Bytes → ℕ → Kernel → ℤ × Kernel
  elf32_load_and_run buf size k = elim (elf32_load buf size k.space) [
    | refused r space ↦ (r, record k { space = space })
    | entry p space ↦
        exit_code (run p (record { space = space; system = init_syscalls stub table k.system }))
  ]

-- A program that makes no exit call leaves the two globals.
abbrev pub MakesNoExit : (ℕ → Kernel → ℤ × Kernel) → Type 0
MakesNoExit run =
    (p : ℕ) (k : Kernel)
    → ((run p k).1.system.user_exited ≡ k.system.user_exited)
      × ((run p k).1.system.user_exit_code ≡ k.system.user_exit_code)

exit_code-quiet :
    (run : ℕ → Kernel → ℤ × Kernel) (stub table : ℕ) (k : Kernel)
    → MakesNoExit run
    → (p : ℕ) (space : Space)
    → (exit_code run stub table
        (run p (record { space = space; system = init_syscalls stub table k.system }))).0
      ≡ (if k.system.user_exited
          then k.system.user_exit_code
          else (run p (record { space = space; system = init_syscalls stub table k.system })).0)
unfolding init_syscalls
exit_code-quiet run stub table k quiet p space =
    let same = quiet p (record { space = space; system = init_syscalls stub table k.system }) in
    rw (same.0, same.1) refl

-- The return code of an image that can be loaded is what the program returns, if no program has made an exit call
-- before. After one, every further program that makes none seems to return the code of that call, whatever it
-- returns.
pub elf32_load_and_run-code :
    (run : ℕ → Kernel → ℤ × Kernel) (stub table : ℕ) (buf : Bytes) (size : ℕ) (k : Kernel)
    → IsLoadable buf size k.space
    → MakesNoExit run
    → (p : ℕ) × (space : Space) × ((elf32_load buf size k.space ≡ entry p space)
        × ((elf32_load_and_run run stub table buf size k).0 ≡ (
            if k.system.user_exited
            then k.system.user_exit_code
            else (run p (record { space = space; system = init_syscalls stub table k.system })).0)))
unfolding elf32_load_and_run init_syscalls
elf32_load_and_run-code run stub table buf size k r quiet =
    let (m, (loads, _)) = elf32_load-content buf size k.space r in
    (_, _, (loads, rw (loads, elf32_load_and_run) (exit_code-quiet run stub table k quiet _ _)))
