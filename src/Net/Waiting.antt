-- ===== src/Net/Waiting.antt =====
-- net.c: the packets that wait for an ARP reply, what a reply sends, and what it leaves behind.
use os_from_scratch_graphic.Prelude.{
  ℕ, zero, suc, ◌+◌, ◌≡◌, ◌≤◌, ◌≢◌, refl, sym, ap, some, List, [], ◌∷◌, ◌++◌, arith, length,
  length-append, map, get_or, set, ◌==◌, if◌then◌else◌, Bool-cases, inl, inr, true, false, Bool,
  ◌||◌,
}
use mathlib.Core.List.{append-nil, append_assoc}
use os_from_scratch_graphic.Endian.{Bytes}
use os_from_scratch_graphic.Net.State.{NetIf, Pending, Net, empty_pending}
use os_from_scratch_graphic.Net.Arp.{arp_lookup}
use os_from_scratch_graphic.Net.Send.{
  next_hop, ip_frame, enqueue, flush_slot, flush_loop, flush_pending_for_ip, buf_payload,
}
use os_from_scratch_graphic.Net.RoundTrip.{net_send_ip-hit}

-- The slot after its packet has gone.
abbrev pub cleared : ℕ → Pending → Pending
cleared ip p = if p.dst_ip == ip then record p { dst_ip = 0; payload_len = 0 } else p

-- The packets that wait for the address have room in the buffer of `net_send_ip`; a slot holds more.
abbrev pub AllFit : ℕ → List Pending → Type 0
AllFit ip [] = Unit
AllFit ip (p ∷ ps) = (p.dst_ip ≡ ip → p.payload_len ≤ buf_payload) × AllFit ip ps

-- The frames of the packets that wait for the address, in the order of their slots.
pub frames_for : NetIf → Bytes → ℕ → List Pending → List Bytes
frames_for netif mac ip [] = []
frames_for netif mac ip (p ∷ ps) =
    let frame = ip_frame netif mac ip p.proto p.payload p.payload_len in
    let rest = frames_for netif mac ip ps in if p.dst_ip == ip then frame ∷ rest else rest

get_or-middle :
    (pre : List Pending) (p : Pending) (ps : List Pending) (i : ℕ)
    → i ≡ length pre
    → get_or (pre ++ (p ∷ ps)) i empty_pending ≡ p
get_or-middle [] p ps zero h = refl
get_or-middle [] p ps (suc i) h = absurd (omega arith)
get_or-middle (q ∷ pre) p ps zero h = absurd (omega arith)
get_or-middle (q ∷ pre) p ps (suc i) h = get_or-middle pre p ps i (omega arith)

set-middle :
    (pre : List Pending) (p q : Pending) (ps : List Pending) (i : ℕ)
    → i ≡ length pre
    → set (pre ++ (p ∷ ps)) i q ≡ pre ++ (q ∷ ps)
set-middle [] p q ps zero h = refl
set-middle [] p q ps (suc i) h = absurd (omega arith)
set-middle (r ∷ pre) p q ps zero h = absurd (omega arith)
set-middle (r ∷ pre) p q ps (suc i) h = ap (λ l. r ∷ l) (set-middle pre p q ps i (omega arith))

module _ (n : Net) (ip : ℕ) (mac : Bytes) where
  -- The globals with these slots and frames.
  abbrev at : List Pending → List Bytes → Net
  at pending sent = record n { pending = pending; sent = sent }

  module _ (hit : arp_lookup n.arp_cache (next_hop n.netif ip) ≡ some mac) where
    flush_slot-middle :
        (pre : List Pending) (p : Pending) (ps : List Pending) (sent : List Bytes) (i : ℕ)
        → i ≡ length pre
        → (p.dst_ip ≡ ip → p.payload_len ≤ buf_payload)
        → flush_slot i ip (at (pre ++ (p ∷ ps)) sent)
          ≡ at (pre ++ (cleared ip p ∷ ps)) (sent ++ frames_for n.netif mac ip (p ∷ []))
    unfolding flush_slot frames_for
    flush_slot-middle pre p ps sent i h fit = elim (Bool-cases (p.dst_ip == ip)) [
      | inl e ↦
          let same : p.dst_ip ≡ ip = ground arith in
          ground (
            arith,
            get_or-middle pre p ps i h,
            set-middle pre p (cleared ip p) ps i h,
            net_send_ip-hit (at (pre ++ (p ∷ ps)) sent) mac ip p.proto p.payload p.payload_len hit
                (fit same),
          )
      | inr e ↦ ground (arith, get_or-middle pre p ps i h, append-nil sent)
    ]

    flush_loop-rest :
        (pre ps : List Pending) (sent : List Bytes) (i rounds : ℕ)
        → i ≡ length pre
        → rounds ≡ length ps
        → AllFit ip ps
        → flush_loop rounds i ip (at (pre ++ ps) sent)
          ≡ at (pre ++ map (cleared ip) ps) (sent ++ frames_for n.netif mac ip ps)
    unfolding flush_loop frames_for
    flush_loop-rest pre [] sent i zero h k fit = ap (λ l. at (pre ++ []) l) (sym (append-nil sent))
    flush_loop-rest pre [] sent i (suc r) h k fit = absurd (omega arith)
    flush_loop-rest pre (p ∷ ps) sent i zero h k fit = absurd (omega arith)
    flush_loop-rest pre (p ∷ ps) sent i (suc r) h k fit = ground (
      arith,
      flush_slot-middle pre p ps sent i h fit.0,
      flush_loop-rest (pre ++ (cleared ip p ∷ [])) ps (sent ++ frames_for n.netif mac ip (p ∷ []))
          (i + 1) r (omega (arith, length-append pre (cleared ip p ∷ []))) (omega arith) fit.1,
      append_assoc pre (cleared ip p ∷ []) ps,
      append_assoc pre (cleared ip p ∷ []) (map (cleared ip) ps),
      append_assoc sent (frames_for n.netif mac ip (p ∷ [])) (frames_for n.netif mac ip ps),
    )

-- Once the hardware address of the next hop to `ip` is known, a flush of the eight slots sends each
-- packet that waits for `ip`, once and in the order of the slots, and frees exactly their slots. (None
-- of these packets has a payload of more than 1480 bytes.)
pub flush_pending_for_ip-frames :
    (n : Net) (ip : ℕ) (mac : Bytes)
    → arp_lookup n.arp_cache (next_hop n.netif ip) ≡ some mac
    → 8 ≡ length n.pending
    → AllFit ip n.pending
    → flush_pending_for_ip n ip ≡ record n {
      pending = map (cleared ip) n.pending;
      sent = n.sent ++ frames_for n.netif mac ip n.pending;
    }
unfolding flush_pending_for_ip
flush_pending_for_ip-frames n ip mac hit eight fit =
    flush_loop-rest n ip mac hit [] n.pending n.sent 0 8 refl eight fit

-- No slot waits for the address.
abbrev pub NoneFor : ℕ → List Pending → Type 0
NoneFor ip [] = Unit
NoneFor ip (p ∷ ps) = (p.dst_ip ≢ ip) × NoneFor ip ps

get_or-NoneFor :
    (ip : ℕ) (ps : List Pending) (i : ℕ)
    → ip ≢ 0
    → NoneFor ip ps
    → (get_or ps i empty_pending).dst_ip ≢ ip
get_or-NoneFor ip [] i h k = λ e. h (sym e)
get_or-NoneFor ip (p ∷ ps) zero h k = k.0
get_or-NoneFor ip (p ∷ ps) (suc i) h k = get_or-NoneFor ip ps i h k.1

pub flush_loop-NoneFor :
    (rounds i ip : ℕ) (n : Net) → ip ≢ 0 → NoneFor ip n.pending → flush_loop rounds i ip n ≡ n
unfolding flush_loop flush_slot
flush_loop-NoneFor zero i ip n h k = refl
flush_loop-NoneFor (suc rounds) i ip n h k =
    ground (arith, get_or-NoneFor ip n.pending i h k, flush_loop-NoneFor rounds (i + 1) ip n h k)

pub NoneFor-enqueue :
    (ip : ℕ) (ps : List Pending) (p : Pending)
    → p.dst_ip ≢ ip
    → NoneFor ip ps
    → NoneFor ip (enqueue ps p)
unfolding enqueue
NoneFor-enqueue ip [] p ne k = tt
NoneFor-enqueue ip (q ∷ ps) p ne k = ground (arith, NoneFor-enqueue ip ps p ne k.1)

-- Some slot is free.
abbrev pub has_free : List Pending → Bool
has_free [] = false
has_free (p ∷ ps) = p.dst_ip == 0 || has_free ps

frames_for-NoneFor :
    (netif : NetIf) (mac : Bytes) (ip : ℕ) (ps : List Pending)
    → NoneFor ip ps
    → frames_for netif mac ip ps ≡ []
unfolding frames_for
frames_for-NoneFor netif mac ip [] k = refl
frames_for-NoneFor netif mac ip (p ∷ ps) k = ground (arith, frames_for-NoneFor netif mac ip ps k.1)

-- The one packet that waits for the address.
pub frames_for-enqueue :
    (netif : NetIf) (mac : Bytes) (ip : ℕ) (ps : List Pending) (p : Pending)
    → p.dst_ip ≡ ip
    → NoneFor ip ps
    → has_free ps ≡ true
    → frames_for netif mac ip (enqueue ps p)
      ≡ ip_frame netif mac ip p.proto p.payload p.payload_len ∷ []
unfolding frames_for enqueue
frames_for-enqueue netif mac ip [] p e k free = cc
frames_for-enqueue netif mac ip (q ∷ ps) p e k free =
    ground
      (arith, frames_for-enqueue netif mac ip ps p e k.1, frames_for-NoneFor netif mac ip ps k.1)

pub NoneFor-cleared : (ip : ℕ) (ps : List Pending) → ip ≢ 0 → NoneFor ip (map (cleared ip) ps)
NoneFor-cleared ip [] h = tt
NoneFor-cleared ip (p ∷ ps) h = ground (arith, NoneFor-cleared ip ps h)

pub length-enqueue : (ps : List Pending) (p : Pending) → length (enqueue ps p) ≡ length ps
unfolding enqueue
length-enqueue [] p = refl
length-enqueue (q ∷ ps) p = ground (arith, length-enqueue ps p)

NoneFor-AllFit : (ip : ℕ) (ps : List Pending) → NoneFor ip ps → AllFit ip ps
NoneFor-AllFit ip [] k = tt
NoneFor-AllFit ip (p ∷ ps) k = (λ same. absurd (k.0 same), NoneFor-AllFit ip ps k.1)

pub AllFit-enqueue :
    (ip : ℕ) (ps : List Pending) (p : Pending)
    → p.payload_len ≤ buf_payload
    → NoneFor ip ps
    → AllFit ip (enqueue ps p)
unfolding enqueue
AllFit-enqueue ip [] p fit k = tt
AllFit-enqueue ip (q ∷ ps) p fit k = elim (Bool-cases (q.dst_ip == 0)) [
  | inl free ↦ rw free (λ same. fit, NoneFor-AllFit ip ps k.1)
  | inr used ↦ rw used (λ same. absurd (k.0 same), AllFit-enqueue ip ps p fit k.1)
]
