-- ===== src/Dns/Resolve.antt =====
-- dns.c: a query and the response that comes back for it.
use os_from_scratch_graphic.Prelude.{
  ℕ, ◌+◌, ◌*◌, ◌/◌, ◌%◌, ◌^◌, ◌≡◌, ◌≢◌, ◌<◌, refl, sym, ap, ◌∙◌, Option, none, some, List, [], ◌∷◌,
  arith, length, ◌==◌, Bool-cases, Option-cases, inl, inr,
}
use mathlib.Core.Path.{subst}
use os_from_scratch_graphic.Endian.{Bytes}
use os_from_scratch_graphic.Text.{copy_name}
use os_from_scratch_graphic.Text.Compare.{text}
use os_from_scratch_graphic.Dns.Cache.{
  Dns, Qtrack, track, dns_get_cached, dns_cache_store, qtrack_claim, qtrack_evict, qtrack_add,
  qtrack_getname,
}
use os_from_scratch_graphic.Dns.Query.{Stack, query_bytes, pack_name, dns_query_async}
use os_from_scratch_graphic.Dns.Response.{dns_on_response}
use os_from_scratch_graphic.Dns.Lookup.{
  AreNames, IsShort, text-copy_name, dns_get_cached-cong, dns_cache_store-finds,
}
use os_from_scratch_graphic.Dns.Names.{pack_name-IsPacked}
use os_from_scratch_graphic.Dns.Answer.{response, dns_on_response-response}

-- Every name of an outstanding query is an array of 128 chars, and no query has the id.
abbrev pub AreTracks : ℕ → List Qtrack → Type 0
AreTracks id [] = Unit
AreTracks id (q ∷ qs) = (length q.name ≡ 128) × (q.qid ≢ id) × AreTracks id qs

-- The query of the id is found, with the text of the name.
abbrev Found : List Qtrack → ℕ → Bytes → Type 0
Found qs id name = (buf : Bytes) × (qtrack_getname qs id ≡ some buf) × (text buf ≡ text name)

Found-track :
    (q : Qtrack) (qs : List Qtrack) (id : ℕ) (name : Bytes)
    → length q.name ≡ 128
    → IsShort name
    → Found (track q id name ∷ qs) id name
unfolding qtrack_getname
Found-track q qs id name h short =
    (copy_name q.name name, ground arith, text-copy_name q.name name h short)

Found-cons :
    (q : Qtrack) (qs : List Qtrack) (id : ℕ) (name : Bytes)
    → q.qid ≢ id
    → Found qs id name
    → Found (q ∷ qs) id name
unfolding qtrack_getname
Found-cons q qs id name ne (buf, e, same) = (buf, ground arith, same)

-- What the loop for a free slot leaves.
abbrev Claimed : Option (List Qtrack) → ℕ → Bytes → Type 0
Claimed none id name = Unit
Claimed (some qs) id name = Found qs id name

Claimed-cons :
    (q : Qtrack) (o : Option (List Qtrack)) (id : ℕ) (name : Bytes)
    → q.qid ≢ id
    → Claimed o id name
    → Claimed (elim o [ none ↦ none | some qs ↦ some (q ∷ qs) ]) id name
Claimed-cons q none id name ne h = tt
Claimed-cons q (some qs) id name ne h = Found-cons q qs id name ne h

claim-Claimed :
    (qs : List Qtrack) (id : ℕ) (name : Bytes)
    → AreTracks id qs
    → IsShort name
    → Claimed (qtrack_claim qs id name) id name
unfolding qtrack_claim
claim-Claimed [] id name h short = tt
claim-Claimed (q ∷ qs) id name h short = elim (Bool-cases (q.qid == 0)) [
  | inl free ↦ rw free (Found-track q qs id name h.0 short)
  | inr used ↦
      rw used
        (Claimed-cons q (qtrack_claim qs id name) id name h.1 (claim-Claimed qs id name h.2 short))
]

evict-Found :
    (qs : List Qtrack) (id : ℕ) (name : Bytes)
    → 0 < length qs
    → AreTracks id qs
    → IsShort name
    → Found (qtrack_evict qs id name) id name
evict-Found [] id name room h short = absurd (omega arith)
evict-Found (q ∷ qs) id name room h short = Found-track q qs id name h.0 short

-- A query that is added is found by its id, with its name, also if it takes the slot of another.
pub qtrack_add-Found :
    (qs : List Qtrack) (id : ℕ) (name : Bytes)
    → 0 < length qs
    → AreTracks id qs
    → IsShort name
    → Found (qtrack_add qs id name) id name
unfolding qtrack_add
qtrack_add-Found qs id name room h short = elim (Option-cases (qtrack_claim qs id name)) [
  | inl full ↦ rw (full, qtrack_add) (evict-Found qs id name room h short)
  | inr (claimed, e) ↦
      rw (e, qtrack_add) (subst (λ o. Claimed o id name) e (claim-Claimed qs id name h short))
]

query-qtracks :
    (s : Stack) (name packed : Bytes)
    → dns_get_cached s.dns.cache name ≡ none
    → pack_name name query_bytes ≡ some packed
    → ((dns_query_async s name).1.dns.qtracks
        ≡ qtrack_add s.dns.qtracks ((s.dns.qid_counter + 1) % 2 ^ 16) name)
      × ((dns_query_async s name).1.dns.cache ≡ s.dns.cache)
unfolding dns_query_async
query-qtracks s name packed fresh fits = ground arith

module _ (s : Stack) (name packed : Bytes) (t0 t1 t2 t3 a b c d : ℕ) where
  -- The address of the answer.
  abbrev pub address : ℕ
  address = a * 2 ^ 24 + b * 2 ^ 16 + c * 2 ^ 8 + d

  -- The id of the query.
  abbrev pub query_id : ℕ
  query_id = (s.dns.qid_counter + 1) % 2 ^ 16

  abbrev pub reply : Bytes
  reply =
      response (query_id / 256) (query_id % 256) packed (t0 ∷ t1 ∷ t2 ∷ t3 ∷ [])
        (a ∷ b ∷ c ∷ d ∷ [])

  -- A query for a short name that is not cached, answered by a complete response with the query's
  -- id and a non-zero address, makes the next look-up of the name return that address: the id leads
  -- back to the name, the parser finds the record, and the cache keeps it. (No other query has the
  -- id, and the tables have their name arrays.)
  pub query_resolves :
      dns_get_cached s.dns.cache name ≡ none
      → pack_name name query_bytes ≡ some packed
      → IsShort name
      → address ≢ 0
      → (0 < length s.dns.cache) × (0 < length s.dns.qtracks)
      → AreNames s.dns.cache
      → AreTracks query_id s.dns.qtracks
      → let asked = (dns_query_async s name).1 in
        dns_get_cached (dns_on_response asked.dns reply (length reply)).cache name ≡ some address
  query_resolves fresh fits short ne room names tracks =
      go (qtrack_add-Found s.dns.qtracks query_id name room.1 tracks short)
    where
      asked : Dns
      asked = (dns_query_async s name).1.dns

      whole : query_id / 256 * 256 + query_id % 256 ≡ query_id
      whole = omega arith

      missed :
          (buf : Bytes)
          → text buf ≡ text name
          → elim (dns_get_cached s.dns.cache buf) as (λ o. Option ℕ) [
            | some old ↦ some old
            | none ↦ some address
          ]
            ≡ some address
      missed buf same = rw (dns_get_cached-cong s.dns.cache buf name same, fresh) refl

      go :
          Found (qtrack_add s.dns.qtracks query_id name) query_id name
          → dns_get_cached (dns_on_response asked reply (length reply)).cache name ≡ some address
      go (buf, e, same) =
          ap (λ dns. dns_get_cached dns.cache name)
            (dns_on_response-response (query_id / 256) (query_id % 256) packed
              (pack_name-IsPacked name packed query_bytes fits).0 t0 t1 t2 t3 a b c d asked buf
              (rw (whole, (query-qtracks s name packed fresh fits).0) e))
          ∙ (ap (λ cache. dns_get_cached (dns_cache_store cache buf address) name)
                (query-qtracks s name packed fresh fits).1
              ∙ (dns_get_cached-cong (dns_cache_store s.dns.cache buf address) name buf (sym same)
                  ∙ (dns_cache_store-finds s.dns.cache buf address ne (rw same short) names room.0
                      ∙ missed buf same)))
