-- ===== src/Dns/Tests.antt =====
-- dns.c on a concrete query: example.com, asked with the first id.
use os_from_scratch_graphic.Prelude.{
  ℕ, zero, ◌+◌, ◌*◌, ◌^◌, ◌≡◌, ◌≢◌, ◌≤◌, refl, none, some, [], ◌∷◌, arith, length, replicate,
}
use os_from_scratch_graphic.Endian.{Bytes}
use os_from_scratch_graphic.Text.{strlen, strchr}
use os_from_scratch_graphic.Text.Compare.{text}
use os_from_scratch_graphic.Dns.Cache.{Dns, empty_name, dns_get_cached, qtrack_getname}
use os_from_scratch_graphic.Dns.Wait.{dns_resolve, after_polls, dns_resolve-first}
use os_from_scratch_graphic.Dns.Query.{
  Stack, query_bytes, pack_loop, pack_name, dns_query_async, boot,
}
use os_from_scratch_graphic.Dns.Response.{dns_on_response}
use os_from_scratch_graphic.Dns.Lookup.{AreNames}
use os_from_scratch_graphic.Dns.Names.{IsPacked, end, label, pack_name-IsPacked}
use os_from_scratch_graphic.Dns.Resolve.{AreTracks, reply, query_resolves}

-- "example.com"
abbrev name : Bytes
name = 101 ∷ 120 ∷ 97 ∷ 109 ∷ 112 ∷ 108 ∷ 101 ∷ 46 ∷ 99 ∷ 111 ∷ 109 ∷ 0 ∷ []

abbrev packed : Bytes
packed = 7 ∷ 101 ∷ 120 ∷ 97 ∷ 109 ∷ 112 ∷ 108 ∷ 101 ∷ 3 ∷ 99 ∷ 111 ∷ 109 ∷ 0 ∷ []

-- "a"
abbrev other : Bytes
other = 97 ∷ 0 ∷ []

name-pack_name : pack_name name query_bytes ≡ some packed
unfolding pack_name pack_loop strchr strlen
name-pack_name = refl

packed-IsPacked : IsPacked packed
packed-IsPacked =
    label (101 ∷ 120 ∷ 97 ∷ 109 ∷ 112 ∷ 108 ∷ 101 ∷ []) (3 ∷ 99 ∷ 111 ∷ 109 ∷ 0 ∷ []) (omega arith)
      (omega arith) (label (99 ∷ 111 ∷ 109 ∷ []) (0 ∷ []) (omega arith) (omega arith) end)

cache-AreNames : AreNames boot.dns.cache
cache-AreNames = (refl, (refl, (refl, (refl, (refl, (refl, (refl, (refl, tt))))))))

not_cached : dns_get_cached boot.dns.cache name ≡ none
unfolding dns_get_cached
not_cached = refl

tracks-AreTracks : AreTracks 16385 boot.dns.qtracks
tracks-AreTracks = (
  refl,
  free,
  (
    refl,
    free,
    (refl, free, (refl, free, (refl, free, (refl, free, (refl, free, (refl, free, tt)))))),
  ),
)
  where
    free : zero ≢ 16385
    free e = omega arith

query_resolves_example :
    let asked = (dns_query_async boot name).1 in
    dns_get_cached
      (dns_on_response asked.dns
        (reply boot name packed 0 0 1 44 93 184 216 34)
        (length (reply boot name packed 0 0 1 44 93 184 216 34))).cache
      name
    ≡ some (93 * 2 ^ 24 + 184 * 2 ^ 16 + 216 * 2 ^ 8 + 34)
unfolding text
query_resolves_example =
    query_resolves boot name packed 0 0 1 44 93 184 216 34 not_cached name-pack_name (omega arith)
      (omega arith) (omega arith, omega arith) cache-AreNames tracks-AreTracks

-- Every poll brings the reply.
abbrev server : ℕ → Stack → Stack
server i r = record r {
  dns =
      dns_on_response r.dns (reply boot name packed 0 0 1 44 93 184 216 34)
        (length (reply boot name packed 0 0 1 44 93 184 216 34));
}

dns_resolve-first_example : dns_resolve server boot name ≡ (
  some (93 * 2 ^ 24 + 184 * 2 ^ 16 + 216 * 2 ^ 8 + 34),
  after_polls server 1 (dns_query_async boot name).1,
)
unfolding text
dns_resolve-first_example =
    dns_resolve-first server 0 boot name (93 * 2 ^ 24 + 184 * 2 ^ 16 + 216 * 2 ^ 8 + 34) not_cached
      (omega arith) (λ j below. absurd (omega arith))
      (query_resolves boot name packed 0 0 1 44 93 184 216 34 not_cached name-pack_name
        (omega arith) (omega arith) (omega arith, omega arith) cache-AreNames tracks-AreTracks)

-- The query is outstanding in slot 0.
abbrev asked : Dns
asked = record (boot.dns) {
  qtracks =
      record { qid = 16385; name = name } ∷ replicate 7 (record { qid = 0; name = empty_name });
}

asked_name : qtrack_getname asked.qtracks (64 * 256 + 1) ≡ some name
unfolding qtrack_getname
asked_name = refl

pack_name-IsPacked_example : IsPacked packed × (length packed ≤ query_bytes)
pack_name-IsPacked_example = pack_name-IsPacked name packed query_bytes name-pack_name
