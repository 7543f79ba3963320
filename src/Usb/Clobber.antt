-- ===== src/Usb/Clobber.antt =====
-- usb/xhci.c: the registers that programming the event ring leaves.
use os_from_scratch_graphic.Prelude.{
  ℕ, zero, suc, ◌+◌, ◌^◌, ◌≡◌, ◌≢◌, ◌<◌, refl, ap, sym, ◌∙◌, Bool, Bool-cases, true, false, Option,
  none, some, inl, inr, List, [], ◌∷◌, arith, ◌==◌, if◌then◌else◌,
}
use os_from_scratch_graphic.Usb.Events.{
  Access, Context, Xhci, op_register, xhci_op_write32, erdp_with_cycle,
}
use os_from_scratch_graphic.Usb.Program.{
  erdp_clear, erdp_high, probe_erdp, is_promising, write_er, sweep, sweep_rounds,
  xhci_program_event_ring,
}

-- Whether two accesses are to the same register.
unfoldable pub same_register : Access → Access → Bool
same_register (Access.port a) (Access.port b) = a == b
same_register (Access.mmio a) (Access.mmio b) = a == b
same_register (Access.port a) (Access.mmio b) = false
same_register (Access.mmio a) (Access.port b) = false

-- The last value written to a register.
unfoldable pub last_written : Access → List (Access × ℕ) → Option ℕ
last_written r [] = none
last_written r ((s, v) ∷ ws) = if same_register r s then some v else last_written r ws

same_register-op_register :
    (x : Xhci) (a : ℕ) → same_register (op_register x a) (op_register x a) ≡ true
unfolding same_register
same_register-op_register x a = elim (Bool-cases x.context.cap_is_io) [
  | inl io ↦ rw io (ground arith)
  | inr mapped ↦ rw mapped (ground arith)
]

op_register-apart :
    (x : Xhci) (a b : ℕ)
    → a < 2 ^ 16
    → b < 2 ^ 16
    → a ≢ b
    → same_register (op_register x a) (op_register x b) ≡ false
unfolding same_register
op_register-apart x a b la lb apart = elim (Bool-cases x.context.cap_is_io) [
  | inl io ↦ rw io (ground arith)
  | inr mapped ↦ rw mapped (ground arith)
]

-- The last write is to one register; what was written to another before it stands.
last_written-same :
    (x : Xhci) (off v : ℕ)
    → last_written (op_register x off) (xhci_op_write32 x off v).writes ≡ some v
unfolding last_written
last_written-same x off v = rw (same_register-op_register x off) refl

last_written-other :
    (x : Xhci) (a b v : ℕ)
    → a < 2 ^ 16
    → b < 2 ^ 16
    → a ≢ b
    → last_written (op_register x a) (xhci_op_write32 x b v).writes
      ≡ last_written (op_register x a) x.writes
unfolding last_written
last_written-other x a b v la lb apart = rw (op_register-apart x a b la lb apart) refl

-- The same rings and the same place of the registers.
record Same (x y : Xhci) : Type 0 where
  context : y.context ≡ x.context
  events : y.events ≡ x.events

module _ (bus : List (Access × ℕ) → Access → ℕ) where
  sweep-Same : (n : ℕ) (x y : Xhci) (b : ℕ) → Same x y → Same x (sweep bus y b n)
  unfolding sweep
  sweep-Same zero x y b s = record { context = s.context; events = s.events }
  sweep-Same (suc n) x y b s = elim (Bool-cases (is_promising bus (write_er y b) b)) [
    | inl chosen ↦ rw chosen (record { context = s.context; events = s.events })
    | inr passed ↦
        rw passed (
          sweep-Same n x (write_er y b) (b + 8) (record { context = s.context; events = s.events }))
  ]

probe_erdp-same :
    (y : Xhci) (off : ℕ)
    → last_written (op_register y off) (probe_erdp y off).writes ≡ some (erdp_with_cycle y.events)
probe_erdp-same y off =
    last_written-same
      (xhci_op_write32 (xhci_op_write32 y off (erdp_clear y)) (off + 4) (erdp_high y)) off
      (erdp_with_cycle y.events)

probe_erdp-other :
    (y : Xhci) (a off : ℕ)
    → a < 2 ^ 16
    → off + 4 < 2 ^ 16
    → a ≢ off
    → a ≢ off + 4
    → last_written (op_register y a) (probe_erdp y off).writes
      ≡ last_written (op_register y a) y.writes
probe_erdp-other y a off la lo apart apart4 =
    last_written-other y2 a off (erdp_with_cycle y.events) la (omega arith) apart
    ∙ (last_written-other y1 a (off + 4) (erdp_high y) la lo apart4
        ∙ last_written-other y a off (erdp_clear y) la (omega arith) apart)
  where
    y1 : Xhci
    y1 = xhci_op_write32 y off (erdp_clear y)

    y2 : Xhci
    y2 = xhci_op_write32 y1 (off + 4) (erdp_high y)

-- Two probes one after the other.
probes :
    (x z : Xhci)
    → Same x z
    → let y = probe_erdp (probe_erdp z 0x30) 0x38 in
      (last_written (op_register x 0x30) y.writes ≡ some (erdp_with_cycle x.events))
      × (last_written (op_register x 0x38) y.writes ≡ some (erdp_with_cycle x.events))
probes x z s = (
  ap (λ r. last_written r y.writes) (at 0x30)
      ∙ (probe_erdp-other (probe_erdp z 0x30) 0x30 0x38 (omega arith) (omega arith) (omega arith)
            (omega arith)
          ∙ (probe_erdp-same z 0x30 ∙ told)),
  ap (λ r. last_written r y.writes) (at 0x38) ∙ (probe_erdp-same (probe_erdp z 0x30) 0x38 ∙ told),
)
  where
    y : Xhci
    y = probe_erdp (probe_erdp z 0x30) 0x38

    told : some (erdp_with_cycle z.events) ≡ some (erdp_with_cycle x.events)
    told = ap (λ e. some (erdp_with_cycle e)) s.events

    at : (a : ℕ) → op_register x a ≡ op_register z a
    at a = ap (λ (c : Context). op_register (record x { context = c }) a) (sym s.context)

module _ (bus : List (Access × ℕ) → Access → ℕ) where
  -- After the event ring is programmed, the register at 0x30, to which the address of the DCBAA was written before,
  -- holds the low half of the dequeue pointer of the event ring with the cycle bit, and the one behind 0x38 holds the
  -- same; this is so whatever the controller answers.
  pub xhci_program_event_ring-overwrites :
      (x : Xhci)
      → x.events.er_buffer ≢ 0
      → x.events.erst ≢ 0
      → let y = (xhci_program_event_ring bus x).1 in
        (last_written (op_register x 0x30) y.writes ≡ some (erdp_with_cycle x.events))
        × (last_written (op_register x 0x38) y.writes ≡ some (erdp_with_cycle x.events))
  unfolding xhci_program_event_ring
  xhci_program_event_ring-overwrites x buffer table =
      rw (no_buffer, no_table)
        (probes x (sweep bus x 0x20 (sweep_rounds bus))
          (sweep-Same bus (sweep_rounds bus) x x 0x20 (record { context = refl; events = refl })))
    where
      no_buffer : x.events.er_buffer == 0 ≡ false
      no_buffer = ground arith

      no_table : x.events.erst == 0 ≡ false
      no_table = ground arith
