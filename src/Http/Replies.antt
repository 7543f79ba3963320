-- ===== src/Http/Replies.antt =====
-- http.c: what every call of the client returns.
use os_from_scratch_graphic.Prelude.{
  ℕ, zero, suc, ◌-◌, ◌≡◌, ◌≤◌, ◌<◌, ◌⊎◌, inl, inr, refl, not, Option, none, some, [], ◌∷◌, ◌++◌,
  arith, length, replicate, ◌==◌, Bool-cases,
}
use os_from_scratch_graphic.Prelude.Int.{ℤ, pos}
use os_from_scratch_graphic.Endian.{Bytes}
use os_from_scratch_graphic.Text.{copy_name}
use os_from_scratch_graphic.Tcp.State.{Host, closed}
use os_from_scratch_graphic.Tcp.Api.{is_established, tcp_init, tcp_connect, tcp_close}
use os_from_scratch_graphic.Dns.Cache.{is_zero}
use os_from_scratch_graphic.Dns.Query.{Stack}
use os_from_scratch_graphic.Http.Redirect.{Target, Outcome, failed, follow, body, handle_response}
use os_from_scratch_graphic.Http.Client.{
  World, Reply, Round, returned, again, minus, with_host, return_with, request, await_established,
  close_round, http_round, http_rounds, http_get_by_ip_port,
}
use os_from_scratch_graphic.Http.Bounds.{
  IsTarget, IsOutcome, handle_response-IsOutcome, length-copy_name,
}

module _ (arrive : ℕ → Stack → Stack) (size : ℕ) where
  -- The reply fits the caller's buffer and is the one that the debug variable keeps; what is written
  -- is as long as the number returned says, with a terminator.
  abbrev pub IsReply : World → Reply → Type 0
  IsReply w r =
      (length r.out ≤ size)
      × (w.last_ret ≡ r.ret)
      × ((r.out ≡ []) ⊎ (r.ret ≡ pos (length r.out - 1)))

  abbrev IsRound : World × Round → Type 0
  IsRound (w, returned r) = IsReply w r
  IsRound (w, again t) = IsTarget t

  abbrev IsEnd : Option (World × Round) → Type 0
  IsEnd none = Unit
  IsEnd (some e) = IsRound e

  abbrev pub IsResult : Option (World × Reply) → Type 0
  IsResult none = Unit
  IsResult (some (w, r)) = IsReply w r

  empty-IsRound : (w : World) (ret : ℤ) → IsRound (return_with w ret [])
  empty-IsRound w ret = (omega arith, refl, inl refl)

  outcome-IsRound :
      (w : World) (o : Outcome)
      → IsOutcome size o
      → IsRound (elim o [
        | failed n ↦ return_with w (minus n) []
        | follow t' ↦ (w, again t')
        | body b ↦ return_with w (pos (length b - 1)) b
      ])
  outcome-IsRound w (failed n) h = empty-IsRound w (minus n)
  outcome-IsRound w (follow t) h = h
  outcome-IsRound w (body b) h = (h.1, refl, inr refl)

  close_round-IsRound :
      (w : World) (t : Target) (raw : Bytes)
      → 0 < size
      → IsTarget t
      → IsRound (close_round arrive w t raw size)
  unfolding close_round
  close_round-IsRound w t raw room h = elim (Bool-cases (length raw == 0)) [
    | inl e ↦ rw e (omega arith, refl, inl refl)
    | inr e ↦ rw e (
        outcome-IsRound
          (record (with_host w (tcp_close w.stack.host)) { last_raw_len = length raw })
          (handle_response t (raw ++ (0 ∷ [])) size)
          (handle_response-IsOutcome size t (raw ++ (0 ∷ [])) room h))
  ]

  received-IsEnd :
      (t : Target) (o : Option (World × Bytes))
      → 0 < size
      → IsTarget t
      → IsEnd (elim o [ none ↦ none | some (w, raw) ↦ some (close_round arrive w t raw size) ])
  received-IsEnd t none room h = tt
  received-IsEnd t (some (w, raw)) room h = close_round-IsRound w t raw room h

  http_round-IsEnd :
      (fuel : ℕ) (w : World) (t : Target) (port : ℕ)
      → 0 < size
      → IsTarget t
      → IsEnd (http_round arrive fuel w t port size)
  unfolding http_round
  http_round-IsEnd fuel w t port room h = elim (Bool-cases (not (is_zero connected.0))) [
    | inl e ↦ rw e (omega arith, refl, inl refl)
    | inr e ↦ rw e (elim (Bool-cases (not (is_established waited.stack.host.sock.state))) [
      | inl f ↦ rw f (omega arith, refl, inl refl)
      | inr f ↦ rw f (elim (Bool-cases (length (request t) - 1 == 0)) [
        | inl g ↦ rw g (omega arith, refl, inl refl)
        | inr g ↦ rw g (received-IsEnd t _ room h)
      ])
    ])
  ]
    where
      connected : ℤ × Host
      connected = tcp_connect (tcp_init w.stack.host) t.ip port 0

      waited : World
      waited =
          await_established arrive 300000
            (with_host (record w { last_tcp_state = closed }) connected.1)

  next-IsResult :
      (o : Option (World × Round)) (go : World → Target → Option (World × Reply))
      → IsEnd o
      → ((w : World) (t : Target) → IsTarget t → IsResult (go w t))
      → IsResult (elim o [
        | none ↦ none
        | some (w1, returned r) ↦ some (w1, r)
        | some (w1, again t') ↦ go w1 t'
      ])
  next-IsResult none go h k = tt
  next-IsResult (some (w, returned r)) go h k = h
  next-IsResult (some (w, again t)) go h k = k w t h

  http_rounds-IsResult :
      (n fuel : ℕ) (w : World) (t : Target) (port : ℕ)
      → 0 < size
      → IsTarget t
      → IsResult (http_rounds arrive n fuel w t port size)
  unfolding http_rounds
  http_rounds-IsResult zero fuel w t port room h = (omega arith, refl, inl refl)
  http_rounds-IsResult (suc n) fuel w t port room h =
      next-IsResult (http_round arrive fuel w t port size)
        (λ w1 t'. http_rounds arrive n fuel w1 t' port size) (http_round-IsEnd fuel w t port room h)
        (λ w1 t'. http_rounds-IsResult n fuel w1 t' port room)

  -- Whatever the server sends and wherever it redirects to, a call that returns has written at most
  -- `out_cap` bytes, terminator included, returns their number without it or has written nothing,
  -- and leaves what it returns in `http_last_ret`.
  pub http_get_by_ip_port-IsResult :
      (fuel : ℕ) (w : World) (ip port : ℕ) (host_header path : Bytes)
      → IsResult (http_get_by_ip_port arrive fuel w ip port host_header path size)
  unfolding http_get_by_ip_port
  http_get_by_ip_port-IsResult fuel w ip port host_header path = elim (Bool-cases (size == 0)) [
    | inl e ↦ rw e (omega arith, refl, inl refl)
    | inr e ↦ rw e (http_rounds-IsResult 6 fuel _ start port (ground arith) start-IsTarget)
  ]
    where
      start : Target
      start = record {
        ip = ip;
        hostbuf = copy_name (replicate 128 0) host_header;
        pathbuf = copy_name (replicate 1024 0) path;
      }

      start-IsTarget : IsTarget start
      start-IsTarget = record {
        host = length-copy_name (replicate 128 0) host_header 126 refl;
        path = length-copy_name (replicate 1024 0) path 1022 refl;
      }
