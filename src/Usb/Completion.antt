-- ===== src/Usb/Completion.antt =====
-- usb/xhci.c: the wait for the completion of a command.
use os_from_scratch_graphic.Prelude.{
  ℕ, zero, suc, ◌+◌, ◌*◌, ◌^◌, ◌≡◌, ◌≢◌, ◌<◌, refl, ap, ◌∙◌, true, false, some, List, [], ◌∷◌, ◌++◌,
  arith, length, set, leb, ltb, ◌==◌,
}
use os_from_scratch_graphic.Memory.{Memory}
use os_from_scratch_graphic.Usb.Command.{Trb, ring_trbs, Command}
use os_from_scratch_graphic.Usb.Events.{
  Xhci, dequeue, is_completion, comp_code, slot_by_pointer, complete, look, wait_loop, poll_loops,
  xhci_wait_for_command_completion,
}
use os_from_scratch_graphic.Usb.Order.{IsRing, trb_at-dequeue, has_event-queue, consume-IsRing}

-- Events of another kind than the completion of a command.
abbrev pub AreOthers : List Trb → Type 0
AreOthers [] = Unit
AreOthers (t ∷ es) = (is_completion t ≡ false) × AreOthers es

-- The entry of a command in the ring: the completion points to it.
abbrev pub PointsTo : Command → Trb → ℕ → Type 0
PointsTo r t i = (i < ring_trbs) × (r.cmd_ring ≢ 0) × (t.b * 2 ^ 32 + t.a ≡ r.cmd_ring + i * 16)

IsRing-dequeue :
    (x : Xhci) (n m : ℕ) (t : Trb) (es : List Trb)
    → IsRing x.events n (t ∷ es)
    → m ≡ suc n
    → IsRing (dequeue x).events m es
unfolding dequeue
IsRing-dequeue x n m t es r at = rw at (consume-IsRing x.events n t es r)

command-dequeue : (x : Xhci) → (dequeue x).command ≡ x.command
unfolding dequeue
command-dequeue x = refl

slot_by_pointer-PointsTo :
    (r : Command) (t : Trb) (i : ℕ) → PointsTo r t i → slot_by_pointer r t ≡ some i
unfolding slot_by_pointer
slot_by_pointer-PointsTo r t i p = rw (p.2, ring, above, below, some_slot) (ap some (omega arith))
  where
    some_slot : (r.cmd_ring + i * 16) == 0 ≡ false
    some_slot = let ready = p.1 in ground arith

    ring : r.cmd_ring == 0 ≡ false
    ring = let ready = p.1 in ground arith

    above : leb r.cmd_ring (r.cmd_ring + i * 16) ≡ true
    above = ground arith

    below : ltb (r.cmd_ring + i * 16) (r.cmd_ring + ring_trbs * 16) ≡ true
    below = let inside = p.0 in ground arith

pub complete-PointsTo :
    (r : Command) (t : Trb) (i : ℕ)
    → PointsTo r t i
    → complete r t ≡ record r { pending = set r.pending i false }
unfolding complete
complete-PointsTo r t i p = rw (slot_by_pointer-PointsTo r t i p, complete) refl

module _ (arrive : ℕ → List Trb × Memory → List Trb × Memory)
    (quiet : (i : ℕ) (s : List Trb × Memory) → arrive i s ≡ s) where
  look-quiet : (x : Xhci) → look arrive x ≡ record x { clock = x.clock + 1 }
  unfolding look
  look-quiet x = rw (quiet x.clock (x.events.ring, x.mem)) refl

  -- What a wait leaves when it has seen a completion: its code is returned, the events behind it are left in the
  -- ring, and the command ring has taken note of it.
  wait_loop-completes :
      (pre : List Trb) (loops : ℕ) (x : Xhci) (n : ℕ) (t : Trb) (post : List Trb)
      → IsRing x.events n (pre ++ (t ∷ post))
      → AreOthers pre
      → is_completion t ≡ true
      → length pre < loops
      → (after : Xhci) × ((wait_loop arrive loops x ≡ (some (comp_code t), after))
          × (IsRing after.events (n + length pre + 1) post
              × (after.command ≡ complete x.command t)))
  unfolding wait_loop
  wait_loop-completes pre zero x n t post r others done room = absurd (omega arith)
  wait_loop-completes [] (suc loops) x n t post r others done room =
      let e : IsRing x.events n (t ∷ post) = r in
      rw
        (
          look-quiet x,
          has_event-queue x.events n t post e,
          trb_at-dequeue x.events n (t ∷ post) e,
          done,
        )
        (
          dequeue (record x { clock = x.clock + 1; command = complete x.command t }),
          (
            refl,
            (
              IsRing-dequeue (record x { clock = x.clock + 1; command = complete x.command t }) n
                  (n + 0 + 1) t post e (omega arith),
              command-dequeue (record x { clock = x.clock + 1; command = complete x.command t }),
            ),
          ),
        )
  wait_loop-completes (e ∷ pre) (suc loops) x n t post r others done room =
      let q : IsRing x.events n (e ∷ (pre ++ (t ∷ post))) = r in
      rw
        (
          look-quiet x,
          has_event-queue x.events n e (pre ++ (t ∷ post)) q,
          trb_at-dequeue x.events n (e ∷ (pre ++ (t ∷ post))) q,
          others.0,
        )
        (let (after, (returns, (left, noted))) =
            wait_loop-completes pre loops (dequeue (record x { clock = x.clock + 1 })) (suc n) t
              post
              (IsRing-dequeue (record x { clock = x.clock + 1 }) n (suc n) e (pre ++ (t ∷ post)) q
                refl)
              others.1 done (omega arith) in
          (
            after,
            (
              returns,
              (
                moved after left,
                noted ∙ ap (λ c. complete c t) (command-dequeue (record x { clock = x.clock + 1 })),
              ),
            ),
          ))
    where
      same : n + suc (length pre) + 1 ≡ suc n + length pre + 1
      same = omega arith

      moved :
          (after : Xhci)
          → IsRing after.events (suc n + length pre + 1) post
          → IsRing after.events (n + suc (length pre) + 1) post
      moved after left = rw same left

  -- If the driver waits while the ring holds events of other kinds and behind them the completion of a command that
  -- names its entry, all within its number of looks, and nothing further arrives, the wait ends with the completion code, the entry is no longer
  -- pending, every other entry is as it was, and the events behind the completion are left in the ring.
  pub xhci_wait_for_command_completion-completes :
      (x : Xhci) (timeout_ms n i : ℕ) (pre : List Trb) (t : Trb) (post : List Trb)
      → x.events.er_buffer ≢ 0
      → IsRing x.events n (pre ++ (t ∷ post))
      → AreOthers pre
      → is_completion t ≡ true
      → PointsTo x.command t i
      → length pre < poll_loops timeout_ms
      → (after : Xhci) × ((xhci_wait_for_command_completion arrive x timeout_ms
            ≡ (some (comp_code t), after))
          × (IsRing after.events (n + length pre + 1) post
              × (after.command ≡ record (x.command) { pending = set x.command.pending i false })))
  unfolding xhci_wait_for_command_completion
  xhci_wait_for_command_completion-completes x timeout_ms n i pre t post ready r others done names
        room =
      let (after, (returns, (left, noted))) =
        wait_loop-completes pre (poll_loops timeout_ms) x n t post r others done room in
      (
        after,
        (
          rw (no_null, xhci_wait_for_command_completion) returns,
          (left, noted ∙ complete-PointsTo x.command t i names),
        ),
      )
    where
      no_null : x.events.er_buffer == 0 ≡ false
      no_null = ground arith
