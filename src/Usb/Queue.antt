-- ===== src/Usb/Queue.antt =====
-- usb/xhci.c: runs of the event ring against a queue.
use os_from_scratch_graphic.Prelude.{
  ℕ, suc, ◌+◌, ◌/◌, ◌%◌, ◌≡◌, ◌≢◌, ◌≤◌, ◌<◌, ◌⊎◌, inl, inr, refl, ap, ◌∙◌, true, false, List, [],
  ◌∷◌, ◌++◌, map, arith, length, length-append, ltb, ◌==◌, if◌then◌else◌,
}
use os_from_scratch_graphic.Usb.Command.{Trb, trb_at}
use os_from_scratch_graphic.Usb.Events.{Events, has_event, consume}
use os_from_scratch_graphic.Usb.Order.{
  IsRing, trb_at-dequeue, has_event-queue, has_event-empty, consume-IsRing, stamp, write_event,
  write_event-IsRing,
}

-- What happens at the ring: the controller has an event, which it writes unless the slot behind it is the one that
-- the driver reads next, or the driver looks.
pub data Action : Type 0 where
  arrives : Trb → Action
  looks : Action

-- An event without its cycle bit.
abbrev pub payload : Trb → Trb
payload t = record t { d = t.d / 2 }

-- The events that the looks of a run take out, for the controller at position `w`.
unfoldable pub ring_run : ℕ → Events → List Action → List Trb
ring_run w e [] = []
ring_run w e (arrives t ∷ acts) =
    let kept = ring_run w e acts in
    let written = ring_run (suc w) (write_event e w t) acts in
    if (w + 1) % 256 == e.er_dequeue_idx then kept else written
ring_run w e (looks ∷ acts) =
    let taken = payload (trb_at e.ring e.er_dequeue_idx) ∷ ring_run w (consume e) acts in
    let rest = ring_run w e acts in if has_event e then taken else rest

-- A queue of at most 255 events.
unfoldable pub queue_run : List Trb → List Action → List Trb
queue_run q [] = []
queue_run q (arrives t ∷ acts) =
    queue_run (if ltb (length q) 255 then q ++ (payload t ∷ []) else q) acts
queue_run [] (looks ∷ acts) = queue_run [] acts
queue_run (t ∷ q) (looks ∷ acts) = t ∷ queue_run q acts

-- Every event has a type.
abbrev pub AreTyped : List Action → Type 0
AreTyped [] = Unit
AreTyped (arrives t ∷ acts) = (t.d / 2 ≢ 0) × AreTyped acts
AreTyped (looks ∷ acts) = AreTyped acts

lt_cases : (a b : ℕ) → (a < b) ⊎ (b ≤ a)
lt_cases a b = omega arith

length-map : (es : List Trb) → length (map payload es) ≡ length es
length-map [] = refl
length-map (t ∷ es) = ap suc (length-map es)

map-snoc :
    (es : List Trb) (t : Trb) → map payload (es ++ (t ∷ [])) ≡ map payload es ++ (payload t ∷ [])
map-snoc [] t = refl
map-snoc (x ∷ es) t = ap (λ r. payload x ∷ r) (map-snoc es t)

payload-stamp : (w : ℕ) (t : Trb) → payload (stamp w t) ≡ payload t
payload-stamp w t = ap (λ d. record t { d = d }) (omega arith)

-- From a ring that holds the events `es`, in any run of events that have a type, the looks of the driver take the
-- events out as a bounded queue gives them: each once, none skipped and in their order, over any number of rounds of
-- the ring, with nothing taken when none is there. The controller leaves one slot free.
pub ring_run-eq-queue_run :
    (acts : List Action) (e : Events) (n : ℕ) (es : List Trb)
    → IsRing e n es
    → AreTyped acts
    → ring_run (n + length es) e acts ≡ queue_run (map payload es) acts
unfolding ring_run queue_run
ring_run-eq-queue_run [] e n es r typed = refl
ring_run-eq-queue_run (arrives t ∷ acts) e n es r typed = elim (lt_cases (length es) 255) [
  | inl room ↦
      rw (not_full room, length-map es, has_room room)
        (ap (λ w. ring_run w (write_event e (n + length es) t) acts) (longer room)
          ∙ (ring_run-eq-queue_run acts (write_event e (n + length es) t) n
                (es ++ (stamp (n + length es) t ∷ [])) (write_event-IsRing e n es t r room typed.0)
                typed.1
              ∙ ap (λ q. queue_run q acts)
                  (map-snoc es (stamp (n + length es) t)
                    ∙ ap (λ p. map payload es ++ (p ∷ [])) (payload-stamp (n + length es) t))))
  | inr full ↦
      rw (is_full full, length-map es, no_room full) (ring_run-eq-queue_run acts e n es r typed.1)
]
  where
    not_full : length es < 255 → (n + length es + 1) % 256 == e.er_dequeue_idx ≡ false
    not_full room = let at = r.idx in ground arith

    is_full : 255 ≤ length es → (n + length es + 1) % 256 == e.er_dequeue_idx ≡ true
    is_full full = let at = r.idx in let few = r.few in ground arith

    has_room : length es < 255 → ltb (length es) 255 ≡ true
    has_room room = ground arith

    no_room : 255 ≤ length es → ltb (length es) 255 ≡ false
    no_room full = ground arith

    longer :
        length es < 255 → suc (n + length es) ≡ n + length (es ++ (stamp (n + length es) t ∷ []))
    longer room = omega (arith, length-append es (stamp (n + length es) t ∷ []))
ring_run-eq-queue_run (looks ∷ acts) e n [] r typed =
    rw (has_event-empty e n r) (ring_run-eq-queue_run acts e n [] r typed)
ring_run-eq-queue_run (looks ∷ acts) e n (t ∷ es) r typed =
    rw (has_event-queue e n t es r, trb_at-dequeue e n (t ∷ es) r)
      (ap (λ rest. payload t ∷ rest)
        (ap (λ w. ring_run w (consume e) acts) {x = n + suc (length es)} {y = suc n + length es}
            (omega arith)
          ∙ ring_run-eq-queue_run acts (consume e) (suc n) es (consume-IsRing e n t es r) typed))
