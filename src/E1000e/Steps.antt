-- ===== src/E1000e/Steps.antt =====
-- drivers/e1000e.c: what one descriptor of the receive ring does to the driver.
use os_from_scratch_graphic.Prelude.{
  ℕ, suc, ◌≡◌, inl, inr, refl, ap, sym, ◌∙◌, Bool, Bool-cases, true, false, not, ◌&&◌, List, [],
  ◌∷◌, ◌++◌, length, get_or, set, ltb, ◌==◌, bit_and, if◌then◌else◌,
}
use os_from_scratch_graphic.Memory.{Memory}
use os_from_scratch_graphic.Net.Rx.{Datagram, net_rx}
use os_from_scratch_graphic.Dns.Query.{Stack}
use os_from_scratch_graphic.E1000e.Driver.{
  Driver, RxDesc, no_rx, e1000_writel, frame_at, receive_desc, receive_one,
}

-- The card has not filled the descriptor.
abbrev pub is_idle : RxDesc → Bool
is_idle x = bit_and x.status 0x01 == 0

-- A descriptor given back to the card.
unfoldable pub emptied : RxDesc → RxDesc
emptied x = if is_idle x then x else record x { status = 0 }

-- The frames of the filled descriptors, in the order of the ring, each with its address and length; one without
-- bytes or without a buffer is none.
unfoldable pub waiting : List RxDesc → List ℕ → List (ℕ × ℕ)
waiting [] bufs = []
waiting (x ∷ ring) [] = []
waiting (x ∷ ring) (p ∷ bufs) =
    if not (is_idle x) && (ltb 0 x.len && not (p == 0))
    then (p, x.len) ∷ waiting ring bufs
    else waiting ring bufs

-- Frames handed to the network layer one after the other.
unfoldable pub deliver : Memory → Stack → List Datagram → List (ℕ × ℕ) → Stack × List Datagram
deliver m s got [] = (s, got)
deliver m s got ((p, n) ∷ fs) = let r = net_rx s (frame_at m p) n in deliver m r.0 (got ++ r.1) fs

-- The register writes for a ring from its entry `i` on, last first: RDT is given the number of each
-- filled descriptor.
unfoldable pub tails : ℕ → List RxDesc → List (ℕ × ℕ)
tails i [] = []
tails i (x ∷ ring) =
    let rest = tails (suc i) ring in if is_idle x then rest else rest ++ ((0x2818, i) ∷ [])

pub get_or-after :
    {A : Type 0} (pre : List A) (x e : A) (rest : List A)
    → get_or (pre ++ (x ∷ rest)) (length pre) e ≡ x
get_or-after [] x e rest = refl
get_or-after (y ∷ pre) x e rest = get_or-after pre x e rest

set-after :
    {A : Type 0} (pre : List A) (x y : A) (rest : List A)
    → set (pre ++ (x ∷ rest)) (length pre) y ≡ pre ++ (y ∷ rest)
set-after [] x y rest = refl
set-after (z ∷ pre) x y rest = ap (λ r. z ∷ r) (set-after pre x y rest)

-- What one descriptor does to the driver.
pub record Step (d e : Driver) (pre rest : List RxDesc) (x : RxDesc) (p : ℕ) : Type 0 where
  pub ring : e.rx_ring ≡ pre ++ (emptied x ∷ rest)
  pub bufs : e.rx_bufs ≡ d.rx_bufs
  pub mem : e.mem ≡ d.mem
  pub told : e.writes ≡ tails (length pre) (x ∷ []) ++ d.writes
  pub taken :
      (fs : List RxDesc) (ps : List ℕ)
      → deliver d.mem e.stack e.datagrams (waiting fs ps)
        ≡ deliver d.mem d.stack d.datagrams (waiting (x ∷ fs) (p ∷ ps))

-- The driver after a filled descriptor.
abbrev given_back : Driver → List RxDesc → ℕ → Driver
given_back d ring i = e1000_writel (record d { rx_ring = ring }) 0x2818 i

receive_desc-idle :
    (d : Driver) (i : ℕ) (x : RxDesc) (p : ℕ) → is_idle x ≡ true → receive_desc d i x p ≡ d
unfolding receive_desc
receive_desc-idle d i x p idle = rw (idle, receive_desc) refl

receive_desc-empty :
    (d : Driver) (i : ℕ) (x : RxDesc) (p : ℕ)
    → is_idle x ≡ false
    → ltb 0 x.len && not (p == 0) ≡ false
    → receive_desc d i x p ≡ given_back d (set d.rx_ring i (record x { status = 0 })) i
unfolding receive_desc
receive_desc-empty d i x p filled empty = rw (filled, empty, receive_desc) refl

receive_desc-frame :
    (d : Driver) (i : ℕ) (x : RxDesc) (p : ℕ)
    → is_idle x ≡ false
    → ltb 0 x.len && not (p == 0) ≡ true
    → let r = net_rx d.stack (frame_at d.mem p) x.len in
      receive_desc d i x p
      ≡ given_back
          (record d { stack = r.0; datagrams = d.datagrams ++ r.1 })
          (set d.rx_ring i (record x { status = 0 }))
          i
unfolding receive_desc
receive_desc-frame d i x p filled full = rw (filled, full, receive_desc) refl

emptied-idle : (x : RxDesc) → is_idle x ≡ true → emptied x ≡ x
unfolding emptied
emptied-idle x idle = rw idle refl

emptied-filled : (x : RxDesc) → is_idle x ≡ false → emptied x ≡ record x { status = 0 }
unfolding emptied
emptied-filled x filled = rw filled refl

waiting-none :
    (x : RxDesc) (p : ℕ) (fs : List RxDesc) (ps : List ℕ)
    → not (is_idle x) && (ltb 0 x.len && not (p == 0)) ≡ false
    → waiting (x ∷ fs) (p ∷ ps) ≡ waiting fs ps
unfolding waiting
waiting-none x p fs ps none_there = rw none_there refl

waiting-frame :
    (x : RxDesc) (p : ℕ) (fs : List RxDesc) (ps : List ℕ)
    → is_idle x ≡ false
    → ltb 0 x.len && not (p == 0) ≡ true
    → waiting (x ∷ fs) (p ∷ ps) ≡ (p, x.len) ∷ waiting fs ps
unfolding waiting
waiting-frame x p fs ps filled full = rw (filled, full) refl

receive_desc-Step :
    (d : Driver) (pre rest : List RxDesc) (x : RxDesc) (p : ℕ)
    → d.rx_ring ≡ pre ++ (x ∷ rest)
    → Step d (receive_desc d (length pre) x p) pre rest x p
unfolding deliver tails
receive_desc-Step d pre rest x p at = elim (Bool-cases (is_idle x)) [
  | inl idle ↦ rw (receive_desc-idle d (length pre) x p idle) (record {
    ring = at ∙ ap (λ y. pre ++ (y ∷ rest)) (sym (emptied-idle x idle));
    bufs = refl;
    mem = refl;
    told = rw (idle, tails) refl;
    taken = λ fs ps.
        ap (deliver d.mem d.stack d.datagrams) (sym (waiting-none x p fs ps (rw idle refl)));
  })
  | inr filled ↦ elim (Bool-cases (ltb 0 x.len && not (p == 0))) [
    | inl full ↦ rw (receive_desc-frame d (length pre) x p filled full) (record {
      ring = put filled;
      bufs = refl;
      mem = refl;
      told = rw (filled, tails) refl;
      taken = λ fs ps.
          ap (deliver d.mem d.stack d.datagrams) (sym (waiting-frame x p fs ps filled full));
    })
    | inr empty ↦ rw (receive_desc-empty d (length pre) x p filled empty) (record {
      ring = put filled;
      bufs = refl;
      mem = refl;
      told = rw (filled, tails) refl;
      taken = λ fs ps.
          ap (deliver d.mem d.stack d.datagrams)
            (sym (waiting-none x p fs ps (rw (filled, empty) refl)));
    })
  ]
]
  where
    put :
        is_idle x ≡ false
        → set d.rx_ring (length pre) (record x { status = 0 }) ≡ pre ++ (emptied x ∷ rest)
    put filled = rw (at, emptied-filled x filled) (set-after pre x (record x { status = 0 }) rest)

pub receive_one-Step :
    (d : Driver) (pre rest : List RxDesc) (x : RxDesc) (p : ℕ)
    → d.rx_ring ≡ pre ++ (x ∷ rest)
    → get_or d.rx_bufs (length pre) 0 ≡ p
    → Step d (receive_one d (length pre)) pre rest x p
unfolding receive_one
receive_one-Step d pre rest x p at buf =
    rw (this, buf, receive_one) (receive_desc-Step d pre rest x p at)
  where
    this : get_or d.rx_ring (length pre) no_rx ≡ x
    this = ap (λ (r : List RxDesc). get_or r (length pre) no_rx) at ∙ get_or-after pre x no_rx rest
