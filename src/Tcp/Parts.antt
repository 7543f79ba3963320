-- ===== src/Tcp/Parts.antt =====
-- tcp.c: what segments that carry parts of one stream leave in the receive buffer.
use os_from_scratch_graphic.Prelude.{
  ℕ, zero, suc, ◌+◌, ◌-◌, ◌%◌, ◌^◌, ◌≡◌, ◌≤◌, ◌<◌, refl, sym, ap, ◌∙◌, Bool-cases, inl, inr, true,
  false, ◌&&◌, List, [], ◌∷◌, ◌++◌, arith, length, drop, ◌==◌, if◌then◌else◌,
}
use mathlib.Core.List.{append-nil, append_assoc}
use os_from_scratch_graphic.Endian.{Bytes, ntohl, load32, load_bytes}
use os_from_scratch_graphic.Tcp.State.{Host, established}
use os_from_scratch_graphic.Tcp.Api.{flag_fin, flag_rst}
use os_from_scratch_graphic.Tcp.Rx.{
  has, flags_of, header_len, take_data, take_fin, on_state, tcp_on_rx,
}
use os_from_scratch_graphic.Tcp.Buffer.{contents}
use os_from_scratch_graphic.Tcp.Machine.{accepts, tcp_on_rx-ignored, state-take_data}
use os_from_scratch_graphic.Tcp.Stream.{
  rcv_nxt-take_data, contents-take_data, rx_cap-take_data, rx_len-take_data,
}

-- What tcp_on_rx is given.
pub record Arrival : Type 0 where
  pub seg : Bytes
  pub ip_len : ℕ
  pub src_ip : ℕ

abbrev pub arrive : Host → Arrival → Host
arrive h a = tcp_on_rx h a.seg a.ip_len a.src_ip

abbrev pub receive : Host → List Arrival → Host
receive h [] = h
receive h (a ∷ segs) = receive (arrive h a) segs

-- The bytes of data in the segment.
abbrev pub data_len : Arrival → ℕ
data_len a = a.ip_len - header_len a.seg

-- The segment carries a part of the stream whose first byte has the number `start`, and neither ends
-- nor resets the connection.
pub record IsPart (stream : Bytes) (start : ℕ) (a : Arrival) : Type 0 where
  pub pos : ℕ
  pub no_rst : has (flags_of a.seg) flag_rst ≡ false
  pub no_fin : has (flags_of a.seg) flag_fin ≡ false
  pub number : ntohl (load32 a.seg 4) ≡ (start + pos) % 2 ^ 32
  pub inside : pos + data_len a ≤ length stream
  pub data_is :
      load_bytes (data_len a) (drop (header_len a.seg) a.seg)
      ≡ load_bytes (data_len a) (drop pos stream)

abbrev pub AreParts : Bytes → ℕ → List Arrival → Type 0
AreParts stream start [] = Unit
AreParts stream start (a ∷ segs) = IsPart stream start a × AreParts stream start segs

load_bytes-add :
    (k n : ℕ) (m : Bytes) → load_bytes (k + n) m ≡ load_bytes k m ++ load_bytes n (drop k m)
load_bytes-add zero n m = ap (λ j. load_bytes j m) (omega arith)
load_bytes-add (suc k) n [] =
    let sum : suc k + n ≡ suc (k + n) = omega arith in
    rw sum (
      ap (λ r. 0 ∷ r)
        (load_bytes-add k n [] ∙ ap (λ l. load_bytes k [] ++ load_bytes n l) (nothing k)))
  where
    nothing : (j : ℕ) → drop {A = ℕ} j [] ≡ []
    nothing zero = refl
    nothing (suc j) = refl
load_bytes-add (suc k) n (b ∷ m) =
    let sum : suc k + n ≡ suc (k + n) = omega arith in
    rw sum (ap (λ r. b ∷ r) (load_bytes-add k n m))

-- An accepted segment of an established connection, neither RST nor FIN, is its data.
tcp_on_rx-data :
    (h : Host) (a : Arrival)
    → h.sock.state ≡ established
    → accepts h a.seg a.ip_len a.src_ip ≡ true
    → has (flags_of a.seg) flag_rst ≡ false
    → has (flags_of a.seg) flag_fin ≡ false
    → arrive h a ≡ take_data h (ntohl (load32 a.seg 4)) (drop (header_len a.seg) a.seg) (data_len a)
unfolding tcp_on_rx on_state take_fin
tcp_on_rx-data h a open_now ok no_rst no_fin = ground arith

module _ (stream : Bytes) (start : ℕ) (first : Host) where
  -- The host has taken the first `k` bytes of the stream.
  record Taken (k : ℕ) (h : Host) : Type 0 where
    open_now : h.sock.state ≡ established
    expected : h.sock.rcv_nxt ≡ (start + k) % 2 ^ 32
    inside : k ≤ length stream
    cap : h.sock.rx_cap ≡ first.sock.rx_cap
    len : h.sock.rx_len ≡ first.sock.rx_len + k
    bytes : contents h ≡ contents first ++ load_bytes k stream

  module _ (short : length stream < 2 ^ 32)
      (room : first.sock.rx_len + length stream ≤ first.sock.rx_cap) where
    Taken-take_data :
        (k : ℕ) (h : Host) (a : Arrival) (p : IsPart stream start a)
        → Taken k h
        → Taken
            (if p.pos == k then k + data_len a else k)
            (take_data h (ntohl (load32 a.seg 4)) (drop (header_len a.seg) a.seg) (data_len a))
    Taken-take_data k h a p t = record {
      open_now = state-take_data h seq pl n ∙ t.open_now;
      expected = ground (arith, rcv_nxt-take_data h seq pl n, t.expected, same);
      inside = ground (arith, p.inside, t.inside);
      cap = rx_cap-take_data h seq pl n ∙ t.cap;
      len = ground (arith, rx_len-take_data h seq pl n, t.len, t.cap, same, p.inside, t.expected);
      bytes = ground (
        arith,
        contents-take_data h seq pl n,
        t.bytes,
        t.len,
        t.cap,
        same,
        t.inside,
        p.inside,
        p.data_is,
        load_bytes-add k n stream,
        append_assoc (contents first) (load_bytes k stream) (load_bytes n (drop k stream)),
        ap (λ j. load_bytes n (drop j stream)) {x = p.pos} {y = k},
      );
    }
      where
        seq : ℕ
        seq = ntohl (load32 a.seg 4)

        pl : Bytes
        pl = drop (header_len a.seg) a.seg

        n : ℕ
        n = data_len a

        same : seq == h.sock.rcv_nxt ≡ (p.pos == k)
        same = ground (arith, p.number, t.expected, p.inside, t.inside)

    -- Where the stream stands after one more part: only an accepted part that begins there is taken.
    Taken-arrive :
        (k : ℕ) (h : Host) (a : Arrival) (p : IsPart stream start a)
        → Taken k h
        → Taken
            (if accepts h a.seg a.ip_len a.src_ip && (p.pos == k) then k + data_len a else k)
            (arrive h a)
    Taken-arrive k h a p t = elim (Bool-cases (accepts h a.seg a.ip_len a.src_ip)) [
      | inl ok ↦
          rw (ok, tcp_on_rx-data h a t.open_now ok p.no_rst p.no_fin) (Taken-take_data k h a p t)
      | inr other ↦ rw (other, tcp_on_rx-ignored h a.seg a.ip_len a.src_ip other) t
    ]

    Taken-receive :
        (segs : List Arrival) (k : ℕ) (h : Host)
        → AreParts stream start segs
        → Taken k h
        → (j : ℕ) × Taken j (receive h segs)
    Taken-receive [] k h ps t = (k, t)
    Taken-receive (a ∷ segs) k h ps t =
        Taken-receive segs _ (arrive h a) ps.1 (Taken-arrive k h a ps.0 t)

-- Segments that carry parts of one stream, handed to tcp_on_rx in any order, repeated, overlapping or not for this
-- connection, leave in the buffer of an established connection, behind what was unread, the first `k` bytes of the
-- stream for some `k`, and the next expected number stands at the byte behind them. One more part then adds its
-- data if it is accepted and begins at that byte, and nothing otherwise. (The stream has less than 2^32 bytes and
-- room in the buffer; no segment is a RST or a FIN.)
pub contents-receive :
    (stream : Bytes) (segs : List Arrival) (h : Host) (a : Arrival)
    → h.sock.state ≡ established
    → h.sock.rcv_nxt < 2 ^ 32
    → length stream < 2 ^ 32
    → h.sock.rx_len + length stream ≤ h.sock.rx_cap
    → AreParts stream h.sock.rcv_nxt segs
    → (p : IsPart stream h.sock.rcv_nxt a)
    → let g = receive h segs in
      (k : ℕ) × (k ≤ length stream)
      × (contents g ≡ contents h ++ load_bytes k stream)
      × (g.sock.rcv_nxt ≡ (h.sock.rcv_nxt + k) % 2 ^ 32)
      × (contents (arrive g a)
          ≡ contents h
            ++ load_bytes
                (if accepts g a.seg a.ip_len a.src_ip && (p.pos == k) then k + data_len a else k)
                stream)
contents-receive stream segs h a open_now number short room ps p =
    let (k, t) = Taken-receive stream h.sock.rcv_nxt h short room segs 0 h ps begin in
    let u = Taken-arrive stream h.sock.rcv_nxt h short room k (receive h segs) a p t in
    (k, t.inside, t.bytes, t.expected, u.bytes)
  where
    begin : Taken stream h.sock.rcv_nxt h 0 h
    begin = record {
      open_now = open_now;
      expected = omega (arith, number);
      inside = omega arith;
      cap = refl;
      len = omega arith;
      bytes = sym (append-nil (contents h));
    }
