-- ===== src/Http/Client.antt =====
-- http.c: the exchange with the server. The card is polled in the waits; what arrives in a poll is a
-- parameter, a function of the number of polls before it.
use os_from_scratch_graphic.Prelude.{
  ℕ, zero, suc, ◌+◌, ◌-◌, Bool, true, false, not, Option, none, some, [], ◌∷◌, ◌++◌, length,
  replicate, leb, ◌==◌, if◌then◌else◌,
}
use os_from_scratch_graphic.Prelude.Int.{ℤ, pos, negsuc}
use os_from_scratch_graphic.Endian.{Bytes}
use os_from_scratch_graphic.Text.{snprintf, copy_name}
use os_from_scratch_graphic.Text.Literals.{codes}
use os_from_scratch_graphic.Tcp.State.{TcpState, Host, closed, fin_wait1, fin_wait2, time_wait}
use os_from_scratch_graphic.Tcp.Api.{
  is_established, tcp_init, tcp_connect, tcp_send, tcp_recv, tcp_close,
}
use os_from_scratch_graphic.Dns.Cache.{is_zero}
use os_from_scratch_graphic.Dns.Query.{Stack}
use os_from_scratch_graphic.Http.Redirect.{Target, failed, follow, body, handle_response}

-- The network stack, the number of polls so far, and the debug variables of http.c.
pub record World : Type 0 where
  pub stack : Stack
  pub clock : ℕ
  pub last_ret : ℤ
  pub last_raw_len : ℕ
  pub last_tcp_state : TcpState

-- What the call returns, and what it has written to `out`.
pub record Reply : Type 0 where
  pub ret : ℤ
  pub out : Bytes

-- How one round of the redirect loop ends.
pub data Round : Type 0 where
  returned : Reply → Round
  again : Target → Round

abbrev pub with_host : World → Host → World
with_host w h = record w { stack = record (w.stack) { host = h } }

-- -n
abbrev pub minus : ℕ → ℤ
minus zero = pos 0
minus (suc n) = negsuc n

-- `http_last_ret = ret; return ret;`
abbrev pub return_with : World → ℤ → Bytes → World × Round
return_with w ret out = (record w { last_ret = ret }, returned (record { ret = ret; out = out }))

abbrev pub is_closing : TcpState → Bool
is_closing fin_wait1 = true
is_closing fin_wait2 = true
is_closing time_wait = true
is_closing _ = false

-- `RAW_CAP - 1`
abbrev pub raw_room : ℕ
raw_room = 32767

abbrev pub crlf : Bytes
crlf = 13 ∷ 10 ∷ []

abbrev pub request_format : Bytes
request_format =
    codes "GET %s HTTP/1.1"
    ++ (crlf
        ++ (codes "Host: %s"
            ++ (crlf
                ++ (codes "User-Agent: MyOS/0.1"
                    ++ (crlf ++ (codes "Connection: close" ++ (crlf ++ crlf)))))))

-- `req` with its terminator.
unfoldable pub request : Target → Bytes
request t = snprintf 512 request_format (t.pathbuf ∷ t.hostbuf ∷ [])

module _ (arrive : ℕ → Stack → Stack) where
  -- `rtl8139_poll()`
  abbrev pub poll : World → World
  poll w = record w { stack = arrive w.clock w.stack; clock = w.clock + 1 }

  -- `while (g_sock.state != TCP_ESTABLISHED && waited < 300000)`
  unfoldable pub await_established : ℕ → World → World
  await_established zero w = w
  await_established (suc n) w =
      let w1 = poll w in
      let rest = await_established n (record w1 { last_tcp_state = w1.stack.host.sock.state }) in
      if is_established w.stack.host.sock.state then w else rest

  -- `while (total_raw < RAW_CAP - 1)`, which nothing else bounds: `none` is a loop that has not ended
  -- after `fuel` rounds.
  unfoldable pub receive_raw : ℕ → World → Bytes → Option (World × Bytes)
  receive_raw zero w raw = none
  receive_raw (suc fuel) w raw =
      let w1 = poll w in
      let (got, h) = tcp_recv w1.stack.host (raw_room - length raw) in
      let more = receive_raw fuel (with_host w1 h) (raw ++ got) in
      let spin = receive_raw fuel (with_host w1 h) raw in
      if leb raw_room (length raw)
      then some (w, raw)
      else if not (length got == 0)
      then more
      else if is_closing h.sock.state
      then some (with_host w1 h, raw)
      else spin

  -- From the response on: the status, the redirect or the body.
  abbrev pub finish_round : World → Target → Bytes → ℕ → World × Round
  finish_round w t raw out_cap = elim (handle_response t (raw ++ (0 ∷ [])) out_cap) [
    | failed n ↦ return_with w (minus n) []
    | follow t' ↦ (w, again t')
    | body b ↦ return_with w (pos (length b - 1)) b
  ]

  -- From `raw[total_raw] = '\0'` on.
  unfoldable pub close_round : World → Target → Bytes → ℕ → World × Round
  close_round w t raw out_cap =
      let w1 = record (with_host w (tcp_close w.stack.host)) { last_raw_len = length raw } in
      if length raw == 0 then return_with w1 (pos 0) [] else finish_round w1 t raw out_cap

  -- One round, from tcp_init on. The number that snprintf returns is the length without terminator.
  unfoldable pub http_round : ℕ → World → Target → ℕ → ℕ → Option (World × Round)
  http_round fuel w t port out_cap =
      let w0 = record w { last_tcp_state = closed } in
      let (ret, h) = tcp_connect (tcp_init w0.stack.host) t.ip port 0 in
      let w1 = await_established 300000 (with_host w0 h) in
      let n = length (request t) - 1 in
      let closing = with_host w1 (tcp_close w1.stack.host) in
      let (sent, h1) = tcp_send w1.stack.host (request t) n in
      if not (is_zero ret)
      then some (return_with (with_host w0 h) (minus 2) [])
      else if not (is_established w1.stack.host.sock.state)
      then some (return_with closing (minus 3) [])
      else if n == 0
      then some (return_with closing (minus 4) [])
      else elim (receive_raw fuel (with_host w1 h1) []) [
        | none ↦ none
        | some (w2, raw) ↦ some (close_round w2 t raw out_cap)
      ]

  -- `for (int redir = 0; redir <= MAX_REDIRECTS; ++redir)` with `n` rounds left. The receive loop of
  -- each round has the given fuel.
  unfoldable pub http_rounds : ℕ → ℕ → World → Target → ℕ → ℕ → Option (World × Reply)
  http_rounds zero fuel w t port out_cap =
      some (record w { last_ret = minus 15 }, record { ret = minus 15; out = [] })
  http_rounds (suc n) fuel w t port out_cap = elim (http_round fuel w t port out_cap) [
    | none ↦ none
    | some (w1, returned r) ↦ some (w1, r)
    | some (w1, again t') ↦ http_rounds n fuel w1 t' port out_cap
  ]

  -- The two buffers start with what the stack holds, which is taken to be zeros. An `out_cap` that is
  -- not positive is 0 here. No pointer is null.
  unfoldable pub http_get_by_ip_port :
      ℕ → World → ℕ → ℕ → Bytes → Bytes → ℕ → Option (World × Reply)
  http_get_by_ip_port fuel w ip port host_header path out_cap =
      let w0 = record w { last_ret = minus 999; last_raw_len = 0 } in
      let t : Target = record {
        ip = ip;
        hostbuf = copy_name (replicate 128 0) host_header;
        pathbuf = copy_name (replicate 1024 0) path;
      } in
      if out_cap == 0
      then some (record w { last_ret = minus 1 }, record { ret = minus 1; out = [] })
      else http_rounds 6 fuel w0 t port out_cap

  unfoldable pub http_get_by_ip : ℕ → World → ℕ → Bytes → Bytes → ℕ → Option (World × Reply)
  http_get_by_ip fuel w ip host_header path out_cap =
      http_get_by_ip_port fuel w ip 80 host_header path out_cap
