-- ===== src/Usb/Order.antt =====
-- usb/xhci.c: the event ring is a queue. The controller writes at its own position and the driver reads at
-- er_dequeue_idx; the cycle bit alone tells a new entry from an old one.
use os_from_scratch_graphic.Prelude.{
  ℕ, zero, suc, ◌+◌, ◌*◌, ◌/◌, ◌%◌, ◌≡◌, ◌≢◌, ◌≤◌, ◌<◌, ◌⊎◌, inl, inr, refl, ap, sym, ◌∙◌, true,
  false, List, [], ◌∷◌, ◌++◌, arith, length, length-append, length-set, get_or-set_self,
  get_or-set_ne, set,
}
use os_from_scratch_graphic.Usb.Command.{Trb, no_trb, trb_at}
use os_from_scratch_graphic.Usb.Events.{Events, has_event, consume}

-- The cycle bit of the entry at a position of the stream: 1 in the first round over the ring.
abbrev pub turn : ℕ → ℕ
turn n = (1 + n / 256) % 2

-- After `n` entries the ring holds the entries `es`, from the slot of position `n` on, and nothing else.
pub record IsRing (e : Events) (n : ℕ) (es : List Trb) : Type 0 where
  pub size : length e.ring ≡ 256
  pub idx : e.er_dequeue_idx ≡ n % 256
  pub cycle : e.er_expected_cycle ≡ turn n
  pub few : length es < 256
  pub entries : (k : ℕ) → k < 256 → trb_at e.ring ((n + k) % 256) ≡ trb_at es k
  pub marked :
      (k : ℕ) → k < length es → ((trb_at es k).d % 2 ≡ turn (n + k)) × ((trb_at es k).d ≢ 0)

trb_at-past : (es : List Trb) (k : ℕ) → length es ≤ k → trb_at es k ≡ no_trb
trb_at-past [] k h = refl
trb_at-past (t ∷ es) zero h = absurd (omega arith)
trb_at-past (t ∷ es) (suc k) h = trb_at-past es k (omega arith)

pub trb_at-dequeue :
    (e : Events) (n : ℕ) (es : List Trb)
    → IsRing e n es
    → trb_at e.ring e.er_dequeue_idx ≡ trb_at es 0
trb_at-dequeue e n es r = ap (trb_at e.ring) (omega (arith, r.idx)) ∙ r.entries 0 (omega arith)

pub has_event-queue :
    (e : Events) (n : ℕ) (t : Trb) (es : List Trb) → IsRing e n (t ∷ es) → has_event e ≡ true
has_event-queue e n t es r =
    rw (trb_at-dequeue e n (t ∷ es) r) (ground (arith, r.marked 0 (omega arith), r.cycle))

pub has_event-empty : (e : Events) (n : ℕ) → IsRing e n [] → has_event e ≡ false
has_event-empty e n r = rw (trb_at-dequeue e n [] r) refl

ring-consume : (e : Events) → (consume e).ring ≡ set e.ring e.er_dequeue_idx no_trb
unfolding consume
ring-consume e = ground arith

idx-consume :
    (e : Events) (n : ℕ) → e.er_dequeue_idx ≡ n % 256 → (consume e).er_dequeue_idx ≡ suc n % 256
unfolding consume
idx-consume e n h = ground (arith, h)

cycle-consume :
    (e : Events) (n : ℕ)
    → e.er_dequeue_idx ≡ n % 256
    → e.er_expected_cycle ≡ turn n
    → (consume e).er_expected_cycle ≡ turn (suc n)
unfolding consume
cycle-consume e n h c = ground (arith, h, c)

-- The driver takes the first entry out.
pub consume-IsRing :
    (e : Events) (n : ℕ) (t : Trb) (es : List Trb)
    → IsRing e n (t ∷ es)
    → IsRing (consume e) (suc n) es
consume-IsRing e n t es r = record {
  size = ap length (ring-consume e) ∙ (length-set e.ring e.er_dequeue_idx no_trb ∙ r.size);
  idx = idx-consume e n r.idx;
  cycle = cycle-consume e n r.idx r.cycle;
  few = omega (arith, r.few);
  entries = λ k l.
      ap (λ (g : List Trb). trb_at g ((suc n + k) % 256)) (ring-consume e)
      ∙ left k l (lt_or_last k l);
  marked = λ k l. ground (arith, r.marked (suc k) (omega arith));
}
  where
    lt_or_last : (k : ℕ) → k < 256 → (k < 255) ⊎ (k ≡ 255)
    lt_or_last k l = omega arith

    left :
        (k : ℕ)
        → k < 256
        → (k < 255) ⊎ (k ≡ 255)
        → trb_at (set e.ring e.er_dequeue_idx no_trb) ((suc n + k) % 256) ≡ trb_at es k
    left k l (inl below) =
        get_or-set_ne e.ring no_trb no_trb (λ same. absurd (omega (arith, r.idx)))
        ∙ (ap (trb_at e.ring) (omega arith) ∙ r.entries (suc k) (omega arith))
    left k l (inr last) =
        ap (trb_at (set e.ring e.er_dequeue_idx no_trb)) (omega (arith, r.idx))
        ∙ (get_or-set_self e.ring e.er_dequeue_idx no_trb no_trb (omega (arith, r.idx, r.size))
            ∙ sym (trb_at-past es k (omega (arith, r.few))))

-- An entry of the controller at a position: its own bits, with the cycle bit of the position.
abbrev pub stamp : ℕ → Trb → Trb
stamp w t = record t { d = t.d / 2 * 2 + turn w }

abbrev pub write_event : Events → ℕ → Trb → Events
write_event e w t = record e { ring = set e.ring (w % 256) (stamp w t) }

trb_at-snoc_last : (es : List Trb) (t : Trb) (k : ℕ) → k ≡ length es → trb_at (es ++ (t ∷ [])) k ≡ t
trb_at-snoc_last [] t zero h = refl
trb_at-snoc_last [] t (suc k) h = absurd (omega arith)
trb_at-snoc_last (x ∷ es) t zero h = absurd (omega arith)
trb_at-snoc_last (x ∷ es) t (suc k) h = trb_at-snoc_last es t k (omega arith)

trb_at-snoc_other :
    (es : List Trb) (t : Trb) (k : ℕ) → k ≢ length es → trb_at (es ++ (t ∷ [])) k ≡ trb_at es k
trb_at-snoc_other [] t zero h = absurd (h refl)
trb_at-snoc_other [] t (suc k) h = refl
trb_at-snoc_other (x ∷ es) t zero h = refl
trb_at-snoc_other (x ∷ es) t (suc k) h = trb_at-snoc_other es t k (λ same. h (ap suc same))

eq_cases : (a b : ℕ) → (a ≡ b) ⊎ (a ≢ b)
eq_cases a b = omega arith

pub write_event-IsRing :
    (e : Events) (n : ℕ) (es : List Trb) (t : Trb)
    → IsRing e n es
    → length es < 255
    → t.d / 2 ≢ 0
    → IsRing (write_event e (n + length es) t) n (es ++ (stamp (n + length es) t ∷ []))
write_event-IsRing e n es t r room used = record {
  size = length-set e.ring ((n + length es) % 256) (stamp (n + length es) t) ∙ r.size;
  idx = r.idx;
  cycle = r.cycle;
  few = omega (arith, length-append es (stamp (n + length es) t ∷ []));
  entries = λ k l. placed k l (eq_cases k (length es));
  marked = λ k l. stamped k l (eq_cases k (length es));
}
  where
    new : Trb
    new = stamp (n + length es) t

    placed :
        (k : ℕ)
        → k < 256
        → (k ≡ length es) ⊎ (k ≢ length es)
        → trb_at (set e.ring ((n + length es) % 256) new) ((n + k) % 256)
          ≡ trb_at (es ++ (new ∷ [])) k
    placed k l (inl here) =
        ap (trb_at (set e.ring ((n + length es) % 256) new)) {x = (n + k) % 256}
          {y = (n + length es) % 256} (omega arith)
        ∙ (get_or-set_self e.ring ((n + length es) % 256) new no_trb (omega (arith, r.size))
            ∙ sym (trb_at-snoc_last es new k here))
    placed k l (inr other) =
        get_or-set_ne e.ring new no_trb (λ same. other (omega (arith, r.few)))
        ∙ (r.entries k l ∙ sym (trb_at-snoc_other es new k other))

    stamped :
        (k : ℕ)
        → k < length (es ++ (new ∷ []))
        → (k ≡ length es) ⊎ (k ≢ length es)
        → ((trb_at (es ++ (new ∷ [])) k).d % 2 ≡ turn (n + k))
          × ((trb_at (es ++ (new ∷ [])) k).d ≢ 0)
    stamped k l (inl here) = rw (trb_at-snoc_last es new k here) (omega arith, omega arith)
    stamped k l (inr other) =
        rw (trb_at-snoc_other es new k other)
          (r.marked k (omega (arith, length-append es (new ∷ []))))
