-- ===== src/Usb/Handover.antt =====
-- usb/xhci.c: the entries of a transfer, from the head of the command ring to the controller.
use os_from_scratch_graphic.Prelude.{
  ℕ, zero, suc, ◌+◌, ◌≡◌, ◌≢◌, ◌≤◌, ◌<◌, ◌⊎◌, inl, inr, refl, ap, sym, ◌∙◌, Bool, Bool-cases, true,
  false, List, arith, length, length-set, get_or, get_or-set_self, get_or-set_ne, set, leb,
}
use os_from_scratch_graphic.Usb.Command.{
  Trb, no_trb, ring_trbs, trb_at, Command, xhci_cmd_mark_pending, with_cycle, slot_of, hand_over,
  hand_over_all,
}

-- A ring that is allocated: its tables have a place for each entry, and the head is one.
pub record IsCommand (r : Command) : Type 0 where
  pub ready : r.cmd_ring ≢ 0
  pub trbs : length r.trbs ≡ 256
  pub pending : length r.pending ≡ 256
  pub tokens : length r.tokens ≡ 256
  pub head : r.head < 256

-- An entry as the controller finds it.
abbrev pub sealed : ℕ → ℕ → Trb → Trb
sealed cycle token t = record t { a = token; d = with_cycle cycle t.d }

pub slot_of-lt : (start i : ℕ) → start < 256 → i < 256 → slot_of start i < 256
slot_of-lt start i s l = ground arith

pub slot_of-apart :
    (start i j : ℕ) → start < 256 → i < j → j < 256 → slot_of start i ≢ slot_of start j
slot_of-apart start i j s l m = λ same. absurd (ground arith)

trbs-hand_over :
    (r : Command) (token dst : ℕ)
    → (hand_over r token dst).trbs ≡ set r.trbs dst (sealed r.cycle token (trb_at r.trbs dst))
unfolding xhci_cmd_mark_pending
trbs-hand_over r token dst = ground arith

hand_over-IsCommand :
    (r : Command) (token dst : ℕ) → IsCommand r → dst < 256 → IsCommand (hand_over r token dst)
unfolding xhci_cmd_mark_pending
hand_over-IsCommand r token dst c l = rw inside (record {
  ready = c.ready;
  trbs = length-set r.trbs dst _ ∙ c.trbs;
  pending = length-set r.pending dst _ ∙ c.pending;
  tokens = length-set r.tokens dst _ ∙ c.tokens;
  head = c.head;
})
  where
    inside : leb ring_trbs dst ≡ false
    inside = ground arith

-- The fields that handing over leaves, and its mark.
pub record Kept (r s : Command) : Type 0 where
  pub cmd_ring : s.cmd_ring ≡ r.cmd_ring
  pub head : s.head ≡ r.head
  pub cycle : s.cycle ≡ r.cycle
  pub last_count : s.last_count ≡ r.last_count
  pub last_start : s.last_start ≡ r.last_start

hand_over-Kept : (r : Command) (token dst : ℕ) → Kept r (hand_over r token dst)
unfolding xhci_cmd_mark_pending
hand_over-Kept r token dst = elim (Bool-cases (leb ring_trbs dst)) [
  | inl out ↦
      rw out (record {
        cmd_ring = refl;
        head = refl;
        cycle = refl;
        last_count = refl;
        last_start = refl;
      })
  | inr inside ↦
      rw inside (record {
        cmd_ring = refl;
        head = refl;
        cycle = refl;
        last_count = refl;
        last_start = refl;
      })
]

pending-hand_over :
    (r : Command) (token dst : ℕ)
    → dst < 256
    → (hand_over r token dst).pending ≡ set r.pending dst true
unfolding xhci_cmd_mark_pending
pending-hand_over r token dst l = ground arith

eq_cases : (a b : ℕ) → (a ≡ b) ⊎ (a ≢ b)
eq_cases a b = omega arith

module _ (start token : ℕ) (at : start < 256) where
  pub hand_over_all-IsCommand :
      (n i : ℕ) (r : Command)
      → IsCommand r
      → i + n ≤ 256
      → IsCommand (hand_over_all r start token i n) × Kept r (hand_over_all r start token i n)
  unfolding hand_over_all
  hand_over_all-IsCommand zero i r c room = (
    c,
    record { cmd_ring = refl; head = refl; cycle = refl; last_count = refl; last_start = refl },
  )
  hand_over_all-IsCommand (suc n) i r c room =
      let k = hand_over-Kept r token (slot_of start i) in
      let (done, kept) =
        hand_over_all-IsCommand n (suc i) (hand_over r token (slot_of start i))
          (hand_over-IsCommand r token (slot_of start i) c (slot_of-lt start i at (omega arith)))
          (omega arith) in
      (
        done,
        record {
          cmd_ring = kept.cmd_ring ∙ k.cmd_ring;
          head = kept.head ∙ k.head;
          cycle = kept.cycle ∙ k.cycle;
          last_count = kept.last_count ∙ k.last_count;
          last_start = kept.last_start ∙ k.last_start;
        },
      )

  -- A slot that is none of those handed over.
  pub hand_over_all-other :
      (n i k : ℕ) (r : Command)
      → i + n ≤ 256
      → ((j : ℕ) → i ≤ j → j < i + n → slot_of start j ≢ k)
      → (trb_at (hand_over_all r start token i n).trbs k ≡ trb_at r.trbs k)
        × (get_or (hand_over_all r start token i n).pending k false ≡ get_or r.pending k false)
  unfolding hand_over_all
  hand_over_all-other zero i k r room other = (refl, refl)
  hand_over_all-other (suc n) i k r room other =
      let (left, marks) =
        hand_over_all-other n (suc i) k (hand_over r token (slot_of start i)) (omega arith)
          (λ j lower upper. other j (omega arith) (omega arith)) in
      (
        left
            ∙ (ap (λ (ts : List Trb). trb_at ts k) (trbs-hand_over r token (slot_of start i))
                ∙ get_or-set_ne r.trbs (sealed r.cycle token (trb_at r.trbs (slot_of start i)))
                    no_trb (other i (omega arith) (omega arith))),
        marks
            ∙ (ap (λ (ps : List Bool). get_or ps k false)
                  (pending-hand_over r token (slot_of start i)
                    (slot_of-lt start i at (omega arith)))
                ∙ get_or-set_ne r.pending true false (other i (omega arith) (omega arith))),
      )

  -- One of those handed over.
  pub hand_over_all-slot :
      (n i j : ℕ) (r : Command)
      → IsCommand r
      → i + n ≤ 256
      → i ≤ j
      → j < i + n
      → (trb_at (hand_over_all r start token i n).trbs (slot_of start j)
          ≡ sealed r.cycle token (trb_at r.trbs (slot_of start j)))
        × (get_or (hand_over_all r start token i n).pending (slot_of start j) false ≡ true)
  unfolding hand_over_all
  hand_over_all-slot zero i j r c room lower upper = absurd (omega arith)
  hand_over_all-slot (suc n) i j r c room lower upper = elim (eq_cases i j) [
    | inl same ↦
        let (kept, marks) =
          hand_over_all-other n (suc i) (slot_of start j) (hand_over r token (slot_of start i))
            (omega arith) (λ k l u. other same k l u) in
        (
          kept
              ∙ (ap (λ (ts : List Trb). trb_at ts (slot_of start j))
                    (trbs-hand_over r token (slot_of start i))
                  ∙ at_slot same),
          marks
              ∙ (ap (λ (ps : List Bool). get_or ps (slot_of start j) false)
                    (pending-hand_over r token (slot_of start i)
                      (slot_of-lt start i at (omega arith)))
                  ∙ mark_slot same),
        )
    | inr apart ↦
        let (put, marks) =
          hand_over_all-slot n (suc i) j (hand_over r token (slot_of start i))
            (hand_over-IsCommand r token (slot_of start i) c (slot_of-lt start i at (omega arith)))
            (omega arith) (omega arith) (omega arith) in
        (put ∙ ahead (omega arith), marks)
  ]
    where
      k : Kept r (hand_over r token (slot_of start i))
      k = hand_over-Kept r token (slot_of start i)

      other : i ≡ j → (h : ℕ) → suc i ≤ h → h < suc i + n → slot_of start h ≢ slot_of start j
      other same h l u = λ e. slot_of-apart start j h at (omega arith) (omega arith) (sym e)

      at_slot :
          i ≡ j
          → trb_at
              (set r.trbs
                (slot_of start i)
                (sealed r.cycle token (trb_at r.trbs (slot_of start i))))
              (slot_of start j)
            ≡ sealed r.cycle token (trb_at r.trbs (slot_of start j))
      at_slot same =
          ap
            (λ h.
              trb_at
                (set r.trbs (slot_of start h)
                  (sealed r.cycle token (trb_at r.trbs (slot_of start h))))
                (slot_of start j))
            same
          ∙ get_or-set_self r.trbs (slot_of start j)
              (sealed r.cycle token (trb_at r.trbs (slot_of start j))) no_trb
              (omega (arith, slot_of-lt start j at (omega arith), c.trbs))

      mark_slot :
          i ≡ j → get_or (set r.pending (slot_of start i) true) (slot_of start j) false ≡ true
      mark_slot same =
          ap (λ h. get_or (set r.pending (slot_of start h) true) (slot_of start j) false) same
          ∙ get_or-set_self r.pending (slot_of start j) true false
              (omega (arith, slot_of-lt start j at (omega arith), c.pending))

      ahead :
          i < j
          → sealed
              (hand_over r token (slot_of start i)).cycle
              token
              (trb_at (hand_over r token (slot_of start i)).trbs (slot_of start j))
            ≡ sealed r.cycle token (trb_at r.trbs (slot_of start j))
      ahead l =
          ap
            (λ y.
              sealed y token (trb_at (hand_over r token (slot_of start i)).trbs (slot_of start j)))
            k.cycle
          ∙ ap (sealed r.cycle token) (
              ap (λ (ts : List Trb). trb_at ts (slot_of start j))
                (trbs-hand_over r token (slot_of start i))
              ∙ get_or-set_ne r.trbs (sealed r.cycle token (trb_at r.trbs (slot_of start i))) no_trb
                  (slot_of-apart start i j at l (omega arith)))
