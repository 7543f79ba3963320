-- ===== src/Http/Session.antt =====
-- http.c: a whole call, from the connection to the page.
use os_from_scratch_graphic.Prelude.{
  ℕ, suc, ◌+◌, ◌-◌, ◌≡◌, ◌≢◌, ◌<◌, refl, ap, ◌∙◌, true, false, some, List, [], ◌∷◌, ◌++◌, arith,
  length, length-append, replicate, take, drop, leb, ltb, ◌==◌, ◌&&◌,
}
use os_from_scratch_graphic.Prelude.Int.{pos}
use os_from_scratch_graphic.Endian.{Bytes}
use os_from_scratch_graphic.Text.{copy_name, snprintf, snprintf_loop}
use os_from_scratch_graphic.Text.Search.{OccursAt}
use os_from_scratch_graphic.Tcp.State.{Host, closed}
use os_from_scratch_graphic.Tcp.Api.{is_established, tcp_init, tcp_connect, tcp_send, tcp_close}
use os_from_scratch_graphic.Dns.Query.{Stack}
use os_from_scratch_graphic.Http.Parse.{parse_http_status}
use os_from_scratch_graphic.Http.Redirect.{Target, body, handle_response}
use os_from_scratch_graphic.Http.Client.{
  World, with_host, request_format, request, return_with, finish_round, await_established,
  receive_raw, close_round, http_round, http_rounds, http_get_by_ip_port, minus,
}
use os_from_scratch_graphic.Http.Exchange.{Delivers, receive_raw-Delivers}
use os_from_scratch_graphic.Http.Page.{IsText, blank, handle_response-page}

-- A format that starts with a plain byte writes at least that byte.
snprintf-nonempty :
    (n c d : ℕ) (fmt : Bytes) (args : List Bytes)
    → c ≢ 0
    → c ≢ b'%'
    → (length (snprintf (suc (suc n)) (c ∷ d ∷ fmt) args) - 1 == 0) ≡ false
unfolding snprintf snprintf_loop
snprintf-nonempty n c d fmt args some_byte plain =
    ground (arith, length-append (snprintf_loop (suc n - 1) (d ∷ fmt) args) (0 ∷ []))

request-nonempty : (t : Target) → (length (request t) - 1 == 0) ≡ false
unfolding request
request-nonempty t =
    snprintf-nonempty 510 b'G' b'E' (drop 2 request_format) (t.pathbuf ∷ t.hostbuf ∷ [])
      (omega arith) (omega arith)

connect-init : (h : Host) (ip port : ℕ) → (tcp_connect (tcp_init h) ip port 0).0 ≡ pos 0
unfolding tcp_connect tcp_init
connect-init h ip port = refl

-- A round that ends with a body.
close_round-body :
    (arrive : ℕ → Stack → Stack) (w : World) (t : Target) (bs b : Bytes) (size : ℕ)
    → (length bs == 0) ≡ false
    → handle_response t (bs ++ (0 ∷ [])) size ≡ body b
    → close_round arrive w t bs size
      ≡ return_with
          (record (with_host w (tcp_close w.stack.host)) { last_raw_len = length bs })
          (pos (length b - 1))
          b
unfolding close_round
close_round-body arrive w t bs b size some_bytes e =
    rw (some_bytes, e, close_round, finish_round) refl

-- What the call has made of its arguments when the first round starts.
abbrev pub target : ℕ → Bytes → Bytes → Target
target ip host_header path = record {
  ip = ip;
  hostbuf = copy_name (replicate 128 0) host_header;
  pathbuf = copy_name (replicate 1024 0) path;
}

-- A round in which the connection comes up and the receive loop ends.
round-received :
    (arrive : ℕ → Stack → Stack) (w w2 : World) (t : Target) (port size n : ℕ) (bs : Bytes)
    → let w1 = await_established arrive 300000 (
        with_host
          (record w { last_tcp_state = closed })
          (tcp_connect (tcp_init w.stack.host) t.ip port 0).1) in
      is_established w1.stack.host.sock.state ≡ true
      → receive_raw arrive n
          (with_host w1 (tcp_send w1.stack.host (request t) (length (request t) - 1)).1)
          []
        ≡ some (w2, bs)
      → http_round arrive n w t port size ≡ some (close_round arrive w2 t bs size)
unfolding http_round
round-received arrive w w2 t port size n bs up got =
    rw (connect-init w.stack.host t.ip port, up, request-nonempty t, got, http_round) refl

module _ (arrive : ℕ → Stack → Stack) (w : World) (ip port : ℕ) (host_header path : Bytes)
    (size n : ℕ) where
  -- After the wait for the connection, and after the request.
  abbrev pub connected : World
  connected = await_established arrive 300000 (
      with_host (record w { last_ret = minus 999; last_raw_len = 0; last_tcp_state = closed })
        (tcp_connect (tcp_init w.stack.host) ip port 0).1)

  abbrev pub requested : World
  requested =
      with_host connected
        (tcp_send connected.stack.host (request (target ip host_header path))
          (length (request (target ip host_header path)) - 1)).1

  -- If the wait ends with a connection and the server then delivers a complete response, which is no
  -- redirect and fits `raw`, the call ends, returns the length of the page, or of what the buffer
  -- can hold of it, and has written that much of the page and a terminator.
  pub http_get_by_ip_port-page :
      {w2 : World} (head page : Bytes)
      → is_established connected.stack.host.sock.state ≡ true
      → Delivers arrive n requested (head ++ (blank ++ page)) w2
      → length head + length page < 32763
      → (heads : IsText head) → (pages : IsText page)
      → (first : (i : ℕ) → i < length head → ¬ OccursAt (head ++ (blank ++ page)) blank i)
      → (leb 300 (parse_http_status ((head ++ (blank ++ page)) ++ (0 ∷ [])))
          && ltb (parse_http_status ((head ++ (blank ++ page)) ++ (0 ∷ []))) 400)
        ≡ false
      → 0 < size
      → let written = take (size - 1) page in
        http_get_by_ip_port arrive n w ip port host_header path size
        ≡ some (
          record (with_host w2 (tcp_close w2.stack.host)) {
            last_ret = pos (length written);
            last_raw_len = length (head ++ (blank ++ page));
          },
          record { ret = pos (length written); out = written ++ (0 ∷ []) },
        )
  unfolding http_get_by_ip_port http_rounds
  http_get_by_ip_port-page {w2} head page up sends fits heads pages first final room =
      rw (some_room, round, counted, http_get_by_ip_port, http_rounds) refl
    where
      bs : Bytes
      bs = head ++ (blank ++ page)

      out : Bytes
      out = take (size - 1) page ++ (0 ∷ [])

      some_bytes : (length bs == 0) ≡ false
      some_bytes = ground (arith, length-append head (blank ++ page))

      counted : length out - 1 ≡ length (take (size - 1) page)
      counted = omega (arith, length-append (take (size - 1) page) (0 ∷ []))

      some_room : (size == 0) ≡ false
      some_room = ground arith

      got : receive_raw arrive n requested [] ≡ some (w2, bs)
      got = receive_raw-Delivers arrive [] sends (omega (arith, length-append head (blank ++ page)))

      round :
          http_round arrive n
            (record w { last_ret = minus 999; last_raw_len = 0 })
            (target ip host_header path)
            port
            size
          ≡ some (
              return_with
                (record (with_host w2 (tcp_close w2.stack.host)) { last_raw_len = length bs })
                (pos (length out - 1))
                out)
      round =
          round-received arrive (record w { last_ret = minus 999; last_raw_len = 0 }) w2
            (target ip host_header path) port size n bs up got
          ∙ ap some (
              close_round-body arrive w2 (target ip host_header path) bs out size some_bytes (
                handle_response-page head page heads pages first (target ip host_header path) size
                  final))
