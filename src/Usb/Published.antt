-- ===== src/Usb/Published.antt =====
-- usb/xhci.c: what the controller finds in the command ring.
use os_from_scratch_graphic.Prelude.{
  ℕ, suc, ◌+◌, ◌%◌, ◌≡◌, ◌≢◌, ◌≤◌, ◌<◌, Bool, true, false, ◌&&◌, some, List, [], ◌∷◌, length,
  get_or, set, ltb, if◌then◌else◌,
}
use os_from_scratch_graphic.Usb.Command.{
  Trb, trb_at, Command, setup_trb, data_trb, status_trb, slot_of, hand_over_all,
}
use os_from_scratch_graphic.Usb.Handover.{IsCommand, sealed}

-- The entries of a control transfer.
abbrev pub stages : ℕ → Bool → ℕ → ℕ → Bool → List Trb
stages setup_phys has_data data_phys len direction_in =
    if has_data && ltb 0 len
    then setup_trb setup_phys ∷ (data_trb data_phys len direction_in ∷ (status_trb ∷ []))
    else setup_trb setup_phys ∷ (status_trb ∷ [])

-- The entries in their slots, before they are handed over, and the slots that they leave.
record Staged (r s : Command) (es : List Trb) : Type 0 where
  sound : IsCommand s
  start : s.last_start ≡ some r.head
  count : s.last_count ≡ length es
  head : s.head ≡ r.head
  cycle : s.cycle ≡ r.cycle
  counter : s.token_counter ≡ r.token_counter
  marks : s.pending ≡ r.pending
  some_entry : length es ≢ 0
  few : length es ≤ 3
  entries : (j : ℕ) → j < length es → trb_at s.trbs (slot_of r.head j) ≡ trb_at es j
  others :
      (k : ℕ) → ((j : ℕ) → j < length es → slot_of r.head j ≢ k) → trb_at s.trbs k ≡ trb_at r.trbs k

-- Entries laid into the slots from number `i` on.
abbrev lay : List Trb → ℕ → ℕ → List Trb → List Trb
lay trbs start i [] = trbs
lay trbs start i (e ∷ es) = lay (set trbs (slot_of start i) e) start (suc i) es

-- The ring after a transfer is handed over.
pub record Published (r f : Command) (es : List Trb) (token : ℕ) : Type 0 where
  pub sound : IsCommand f
  pub head : f.head ≡ (r.head + length es) % 256
  pub entries :
      (j : ℕ)
      → j < length es
      → trb_at f.trbs (slot_of r.head j) ≡ sealed r.cycle token (trb_at es j)
  pub marks : (j : ℕ) → j < length es → get_or f.pending (slot_of r.head j) false ≡ true
  pub others :
      (k : ℕ)
      → ((j : ℕ) → j < length es → slot_of r.head j ≢ k)
      → (trb_at f.trbs k ≡ trb_at r.trbs k) × (get_or f.pending k false ≡ get_or r.pending k false)

-- The ring with the entries of `s` handed over.
abbrev handed : Command → ℕ → ℕ → ℕ → Command
handed s start token n = hand_over_all (record s { token_counter = token }) start token 0 n
