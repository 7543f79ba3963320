-- ===== src/Dns/Wait.antt =====
-- dns.c: dns_resolve, which polls the card until the answer is in the cache. What arrives in a poll is a
-- parameter, a function of the number of polls before it.
use os_from_scratch_graphic.Prelude.{
  ℕ, zero, suc, ◌+◌, ◌≡◌, ◌≤◌, ◌<◌, ◌⊎◌, ◌≢◌, ap, ◌∙◌, Option, inl, inr, none, some, arith,
}
use os_from_scratch_graphic.Endian.{Bytes}
use os_from_scratch_graphic.Dns.Cache.{dns_get_cached}
use os_from_scratch_graphic.Dns.Query.{Stack, dns_query_async}

eq_cases : (a b : ℕ) → (a ≡ b) ⊎ (a ≢ b)
eq_cases a b = omega arith

module _ (arrive : ℕ → Stack → Stack) where
  -- `for (int i=0;i<20000;i++)` with `n` rounds left, in the round of number `i`.
  unfoldable pub await_answer : ℕ → ℕ → Stack → Bytes → Option ℕ × Stack
  await_answer zero i r name = (none, r)
  await_answer (suc n) i r name =
      let r1 = arrive i r in
      let rest = await_answer n (suc i) r1 name in
      elim (dns_get_cached r1.dns.cache name) [ some ip ↦ (some ip, r1) | none ↦ rest ]

  -- The address, or none for a return of 0.
  unfoldable pub dns_resolve : Stack → Bytes → Option ℕ × Stack
  dns_resolve r name =
      let (sent, r1) = dns_query_async r name in
      let answer = await_answer 20000 0 r1 name in
      elim (dns_get_cached r.dns.cache name) [ some ip ↦ (some ip, r) | none ↦ answer ]

  -- The stack after the first `n` polls.
  abbrev pub after_polls : ℕ → Stack → Stack
  after_polls zero r = r
  after_polls (suc n) r = arrive n (after_polls n r)

  -- The rounds of the loop, from the round of number `i` on to the first poll that fills the cache.
  await_answer-first :
      (n i t : ℕ) (r : Stack) (name : Bytes) (ip : ℕ)
      → i ≤ t
      → t < i + n
      → ((j : ℕ) → i ≤ j → j < t → dns_get_cached (after_polls (suc j) r).dns.cache name ≡ none)
      → dns_get_cached (after_polls (suc t) r).dns.cache name ≡ some ip
      → await_answer n i (after_polls i r) name ≡ (some ip, after_polls (suc t) r)
  unfolding await_answer
  await_answer-first zero i t r name ip from below none_yet found = absurd (omega arith)
  await_answer-first (suc n) i t r name ip from below none_yet found = elim (eq_cases i t) [
    | inl same ↦
        rw
          (
            ap (λ k. dns_get_cached (after_polls (suc k) r).dns.cache name) same ∙ found,
            await_answer,
          )
          (ap (λ k. (some ip, after_polls (suc k) r)) same)
    | inr other ↦
        rw (none_yet i (omega arith) (omega arith), await_answer)
          (await_answer-first n (suc i) t r name ip (omega arith) (omega arith)
            (λ j lower upper. none_yet j (omega arith) upper) found)
  ]

  -- A name that is not cached is resolved by the first of 20000 polls after which it is, with the address in the cache.
  pub dns_resolve-first :
      (t : ℕ) (r : Stack) (name : Bytes) (ip : ℕ)
      → dns_get_cached r.dns.cache name ≡ none
      → t < 20000
      → ((j : ℕ)
          → j < t
          → dns_get_cached (after_polls (suc j) (dns_query_async r name).1).dns.cache name ≡ none)
      → dns_get_cached (after_polls (suc t) (dns_query_async r name).1).dns.cache name ≡ some ip
      → dns_resolve r name ≡ (some ip, after_polls (suc t) (dns_query_async r name).1)
  unfolding dns_resolve
  dns_resolve-first t r name ip uncached soon none_yet found =
      rw (uncached, dns_resolve)
        (await_answer-first 20000 0 t (dns_query_async r name).1 name ip (omega arith) (omega arith)
          (λ j lower upper. none_yet j upper) found)
