-- ===== src/E1000e/Receive.antt =====
-- drivers/e1000e.c: the receive ring.
use os_from_scratch_graphic.Prelude.{
  ℕ, suc, ◌≡◌, inl, inr, refl, ap, sym, ◌∙◌, Bool-cases, true, List, [], ◌∷◌, ◌++◌, map, arith,
  length, length-append,
}
use mathlib.Core.List.{append_assoc, append-nil}
use os_from_scratch_graphic.E1000e.Driver.{
  Driver, RxDesc, rx_desc_count, receive_one, receive_all, rtl8139_poll,
}
use os_from_scratch_graphic.E1000e.Steps.{
  is_idle, emptied, waiting, deliver, tails, Step, get_or-after, receive_one-Step,
}

-- What the rest of a ring does to the driver.
record Polled (d e : Driver) (pre rest : List RxDesc) (bufs : List ℕ) : Type 0 where
  ring : e.rx_ring ≡ pre ++ map emptied rest
  same_bufs : e.rx_bufs ≡ d.rx_bufs
  mem : e.mem ≡ d.mem
  told : e.writes ≡ tails (length pre) rest ++ d.writes
  taken : (e.stack, e.datagrams) ≡ deliver d.mem d.stack d.datagrams (waiting rest bufs)

tails-cons :
    (i : ℕ) (x : RxDesc) (ring : List RxDesc)
    → tails i (x ∷ ring) ≡ tails (suc i) ring ++ tails i (x ∷ [])
unfolding tails
tails-cons i x ring = elim (Bool-cases (is_idle x)) [
  | inl idle ↦ rw (idle) (sym (append-nil (tails (suc i) ring)))
  | inr filled ↦ rw filled refl
]

Polled-Step :
    (d e f : Driver) (pre rest : List RxDesc) (bufs : List ℕ) (x : RxDesc) (p : ℕ)
    → Step d e pre rest x p
    → Polled e f (pre ++ (emptied x ∷ [])) rest bufs
    → Polled d f pre (x ∷ rest) (p ∷ bufs)
Polled-Step d e f pre rest bufs x p one more = record {
  ring = more.ring ∙ append_assoc pre (emptied x ∷ []) (map emptied rest);
  same_bufs = more.same_bufs ∙ one.bufs;
  mem = more.mem ∙ one.mem;
  told = ground (
    arith,
    more.told,
    one.told,
    tails-cons (length pre) x rest,
    length-append pre (emptied x ∷ []),
    append_assoc (tails (suc (length pre)) rest) (tails (length pre) (x ∷ [])) d.writes,
  );
  taken =
      more.taken
      ∙ (ap (λ m. deliver m e.stack e.datagrams (waiting rest bufs)) one.mem ∙ one.taken rest bufs);
}

receive_all-Polled :
    (rest : List RxDesc) (bufs : List ℕ) (d : Driver) (pre : List RxDesc) (before : List ℕ) (i : ℕ)
    → d.rx_ring ≡ pre ++ rest
    → d.rx_bufs ≡ before ++ bufs
    → length before ≡ length pre
    → length bufs ≡ length rest
    → i ≡ length pre
    → Polled d (receive_all d i (length rest)) pre rest bufs
unfolding receive_all deliver waiting tails
receive_all-Polled [] bufs d pre before i at buf same full here = record {
  ring = at;
  same_bufs = refl;
  mem = refl;
  told = refl;
  taken = refl;
}
receive_all-Polled (x ∷ rest) [] d pre before i at buf same full here = absurd (omega arith)
receive_all-Polled (x ∷ rest) (p ∷ bufs) d pre before i at buf same full here =
    Polled-Step d (receive_one d i) (receive_all (receive_one d i) (suc i) (length rest)) pre rest
      bufs x p one
      (receive_all-Polled rest bufs (receive_one d i) (pre ++ (emptied x ∷ [])) (before ++ (p ∷ []))
        (suc i) (one.ring ∙ sym (append_assoc pre (emptied x ∷ []) rest))
        (one.bufs ∙ (buf ∙ sym (append_assoc before (p ∷ []) bufs)))
        (omega (arith, length-append before (p ∷ []), length-append pre (emptied x ∷ [])))
        (omega arith) (omega (arith, length-append pre (emptied x ∷ []))))
  where
    one : Step d (receive_one d i) pre rest x p
    one =
        rw here
          (receive_one-Step d pre rest x p at (rw (buf, ← same) (get_or-after before p 0 bufs)))

poll-ready : (d : Driver) → d.driver_ready ≡ true → rtl8139_poll d ≡ receive_all d 0 rx_desc_count
unfolding rtl8139_poll
poll-ready d ready = rw (ready, rtl8139_poll) refl

-- A driver with its two tables of 32 entries.
pub record IsSetUp (d : Driver) : Type 0 where
  pub ready : d.driver_ready ≡ true
  pub ring : length d.rx_ring ≡ rx_desc_count
  pub bufs : length d.rx_bufs ≡ rx_desc_count

pub rtl8139_poll-delivers :
    (d : Driver)
    → IsSetUp d
    → (((rtl8139_poll d).stack, (rtl8139_poll d).datagrams)
        ≡ deliver d.mem d.stack d.datagrams (waiting d.rx_ring d.rx_bufs))
      × ((rtl8139_poll d).rx_ring ≡ map emptied d.rx_ring)
      × ((rtl8139_poll d).mem ≡ d.mem)
      × ((rtl8139_poll d).writes ≡ tails 0 d.rx_ring ++ d.writes)
rtl8139_poll-delivers d s =
    rw (poll-ready d s.ready) (polled.taken, polled.ring, polled.mem, polled.told)
  where
    polled : Polled d (receive_all d 0 rx_desc_count) [] d.rx_ring d.rx_bufs
    polled = rw (← s.ring) (
        receive_all-Polled d.rx_ring d.rx_bufs d [] [] 0 refl refl refl
          (omega (arith, s.bufs, s.ring)) refl)

is_idle-emptied : (x : RxDesc) → is_idle (emptied x) ≡ true
unfolding emptied
is_idle-emptied x = elim (Bool-cases (is_idle x)) [
  | inl idle ↦ rw (idle) idle
  | inr filled ↦ rw filled refl
]

waiting-emptied : (ring : List RxDesc) (bufs : List ℕ) → waiting (map emptied ring) bufs ≡ []
unfolding waiting
waiting-emptied [] bufs = refl
waiting-emptied (x ∷ ring) [] = refl
waiting-emptied (x ∷ ring) (p ∷ bufs) = rw (is_idle-emptied x) (waiting-emptied ring bufs)

-- A poll leaves no frame behind: the next one finds none, unless the card fills a descriptor in between.
pub waiting-rtl8139_poll :
    (d : Driver) → IsSetUp d → waiting (rtl8139_poll d).rx_ring (rtl8139_poll d).rx_bufs ≡ []
waiting-rtl8139_poll d s =
    ap (λ r. waiting r (rtl8139_poll d).rx_bufs) (rtl8139_poll-delivers d s).1
    ∙ waiting-emptied d.rx_ring (rtl8139_poll d).rx_bufs
