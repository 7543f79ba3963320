-- ===== src/Http/Exchange.antt =====
-- http.c: the loop that collects a response.
use os_from_scratch_graphic.Prelude.{
  ℕ, zero, suc, ◌+◌, ◌-◌, ◌≡◌, ◌≤◌, ◌<◌, refl, ap, ◌∙◌, true, false, none, some, [], ◌++◌, arith,
  length, length-append, leb, ◌==◌,
}
use mathlib.Core.List.{append-nil, append_assoc}
use os_from_scratch_graphic.Endian.{Bytes}
use os_from_scratch_graphic.Tcp.State.{Host}
use os_from_scratch_graphic.Tcp.Api.{tcp_recv}
use os_from_scratch_graphic.Tcp.Buffer.{contents, length-contents}
use os_from_scratch_graphic.Dns.Query.{Stack}
use os_from_scratch_graphic.Http.Client.{World, with_host, is_closing, raw_room, poll, receive_raw}

-- With room for all that is unread, tcp_recv hands out all of it, and changes nothing if that is
-- nothing.
tcp_recv-all : (h : Host) (m : ℕ) → h.sock.rx_len ≤ m → tcp_recv h m ≡ tcp_recv h h.sock.rx_len
unfolding tcp_recv
tcp_recv-all h m fits = ground arith

tcp_recv-empty : (h : Host) (m : ℕ) → h.sock.rx_len ≡ 0 → tcp_recv h m ≡ ([], h)
unfolding tcp_recv
tcp_recv-empty h m e = ground arith

tcp_recv-contents-all : (h : Host) → (tcp_recv h h.sock.rx_len).0 ≡ contents h
unfolding tcp_recv
tcp_recv-contents-all h = ground arith

module _ (arrive : ℕ → Stack → Stack) where
  -- What the server sends, poll by poll: a poll that brings nothing, one that brings bytes, and the
  -- one after which the connection is closing.
  pub data Delivers : ℕ → World → Bytes → World → Type 0 where
    idle :
        {n : ℕ} {w w' : World} {bs : Bytes}
        → (poll arrive w).stack.host.sock.rx_len ≡ 0
        → is_closing (poll arrive w).stack.host.sock.state ≡ false
        → Delivers n (poll arrive w) bs w'
        → Delivers (suc n) w bs w'
    chunk :
        {n : ℕ} {w w' : World} {bs : Bytes}
        → 0 < (poll arrive w).stack.host.sock.rx_len
        → Delivers n
            (with_host
              (poll arrive w)
              (tcp_recv (poll arrive w).stack.host (poll arrive w).stack.host.sock.rx_len).1)
            bs
            w'
        → Delivers (suc n) w (contents (poll arrive w).stack.host ++ bs) w'
    done :
        {w : World}
        → (poll arrive w).stack.host.sock.rx_len ≡ 0
        → is_closing (poll arrive w).stack.host.sock.state ≡ true
        → Delivers 1 w [] (poll arrive w)

  -- The receive loop ends after as many rounds as the server needs to deliver its response and start
  -- to close, with exactly the bytes that were delivered, if they fit `raw`.
  pub receive_raw-Delivers :
      {n : ℕ} {w w' : World} {bs : Bytes} (raw : Bytes)
      → Delivers n w bs w'
      → length raw + length bs < raw_room
      → receive_raw arrive n w raw ≡ some (w', raw ++ bs)
  unfolding receive_raw
  receive_raw-Delivers {w} raw (idle empty open_yet next) fits =
      rw
        (
          room,
          tcp_recv-empty (poll arrive w).stack.host (raw_room - length raw) empty,
          open_yet,
          receive_raw,
        )
        (receive_raw-Delivers raw next fits)
    where
      room : leb raw_room (length raw) ≡ false
      room = ground arith
  receive_raw-Delivers {w} {w'} raw (chunk {bs = bs} bytes next) fits =
      rw
        (
          room,
          tcp_recv-all host (raw_room - length raw) fit,
          tcp_recv-contents-all host,
          nonempty,
          receive_raw,
        )
        (receive_raw-Delivers (raw ++ contents host) next joined
          ∙ ap (λ t. some (w', t)) (append_assoc raw (contents host) bs))
    where
      host : Host
      host = (poll arrive w).stack.host

      room : leb raw_room (length raw) ≡ false
      room = ground arith

      fit : host.sock.rx_len ≤ raw_room - length raw
      fit = omega (arith, length-contents host, length-append (contents host) bs)

      nonempty : (length (contents host) == 0) ≡ false
      nonempty = ground (arith, length-contents host)

      joined : length (raw ++ contents host) + length bs < raw_room
      joined = omega (arith, length-append raw (contents host), length-append (contents host) bs)
  receive_raw-Delivers {w} raw (done empty closing) fits =
      rw
        (
          room,
          tcp_recv-empty (poll arrive w).stack.host (raw_room - length raw) empty,
          closing,
          append-nil raw,
          receive_raw,
        )
        refl
    where
      room : leb raw_room (length raw) ≡ false
      room = ground arith

  -- If nothing arrives any more while the connection is not closing, as after a RST, the loop never
  -- ends: it has not ended after any number of rounds.
  pub receive_raw-spins :
      (fuel : ℕ) (w : World) (raw : Bytes)
      → ((i : ℕ) → arrive i w.stack ≡ w.stack)
      → w.stack.host.sock.rx_len ≡ 0
      → is_closing w.stack.host.sock.state ≡ false
      → length raw < raw_room
      → receive_raw arrive fuel w raw ≡ none
  unfolding receive_raw
  receive_raw-spins zero w raw still empty not_closing room = refl
  receive_raw-spins (suc fuel) w raw still empty not_closing room =
      rw
        (
          still w.clock,
          tcp_recv-empty w.stack.host (raw_room - length raw) empty,
          not_closing,
          open_yet,
          receive_raw,
        )
        (receive_raw-spins fuel (record w { clock = w.clock + 1 }) raw still empty not_closing room)
    where
      open_yet : leb raw_room (length raw) ≡ false
      open_yet = ground arith
