-- ===== src/Kernel/Ports.antt =====
-- mouse.c: the set-up of the mouse.
use os_from_scratch_graphic.Prelude.{
  ℕ, zero, suc, ◌+◌, ◌/◌, Option, none, some, List, ◌∷◌, ◌==◌, bit_and, bit_or, if◌then◌else◌,
}
use os_from_scratch_graphic.Prelude.Int.{ℤ}
use os_from_scratch_graphic.Graphics.{Mode, int_of}

-- The next step of a sequence of steps on the ports, where the one before has ended.
infixl 40 ◌>>=◌
abbrev pub ◌>>=◌ : {A B : Type 0} → Option A → (A → Option B) → Option B
none >>= next = none
some a >>= next = next a

-- The ports of the mouse: the writes, last first, and the number of reads so far.
pub record Ports : Type 0 where
  pub writes : List (ℕ × ℕ)
  pub reads : ℕ

-- What a read of a port gives, behind writes and reads.
module _ (inb : Ports → ℕ → ℕ) where
  abbrev pub outb : Ports → ℕ → ℕ → Ports
  outb k p v = record k { writes = (p, v) ∷ k.writes }

  abbrev pub after_read : Ports → Ports
  after_read k = record k { reads = k.reads + 1 }

  -- `while (!(inb(0x64) & 1));` and `while (inb(0x64) & 2);`: none is a loop that has not ended after `fuel` reads.
  unfoldable pub mouse_wait_read : ℕ → Ports → Option Ports
  mouse_wait_read zero k = none
  mouse_wait_read (suc fuel) k =
      let rest = mouse_wait_read fuel (after_read k) in
      if bit_and (inb k 0x64) 1 == 0 then rest else some (after_read k)

  unfoldable pub mouse_wait_write : ℕ → Ports → Option Ports
  mouse_wait_write zero k = none
  mouse_wait_write (suc fuel) k =
      let rest = mouse_wait_write fuel (after_read k) in
      if bit_and (inb k 0x64) 2 == 0 then some (after_read k) else rest

  -- A byte to a port, when the controller takes one.
  unfoldable pub send : ℕ → Ports → ℕ → ℕ → Option Ports
  send fuel k p v = do k1 ← mouse_wait_write fuel k; some (outb k1 p v)

  unfoldable pub mouse_write : ℕ → Ports → ℕ → Option Ports
  mouse_write fuel k v = do k1 ← send fuel k 0x64 0xd4; send fuel k1 0x60 v

  -- The byte, and the ports.
  unfoldable pub mouse_read : ℕ → Ports → Option (ℕ × Ports)
  mouse_read fuel k = do k1 ← mouse_wait_read fuel k; some (inb k1 0x60, after_read k1)

  -- The ports, and mouse_x and mouse_y.
  unfoldable pub init_mouse : ℕ → Mode → Ports → Option (Ports × ℤ × ℤ)
  init_mouse fuel d k = do
    k1 ← send fuel k 0x64 0xa8
    k2 ← send fuel k1 0x64 0x20
    (status, k3) ← mouse_read fuel k2
    k4 ← send fuel k3 0x64 0x60
    k5 ← send fuel k4 0x60 (bit_or status 2)
    k6 ← mouse_write fuel k5 0xf6
    (ack, k7) ← mouse_read fuel k6
    k8 ← mouse_write fuel k7 0xf4
    (ack2, k9) ← mouse_read fuel k8
    some (k9, int_of (d.width / 2), int_of (d.height / 2))
