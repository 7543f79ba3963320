-- ===== src/Dns/Cache.antt =====
-- dns.c: the cache and the table of outstanding queries.
use os_from_scratch_graphic.Prelude.{
  ℕ, Bool, not, ◌&&◌, Option, none, some, List, [], ◌∷◌, replicate, set, ◌==◌, if◌then◌else◌,
}
use os_from_scratch_graphic.Prelude.Int.{ℤ, pos, negsuc}
use os_from_scratch_graphic.Endian.{Bytes}
use os_from_scratch_graphic.Text.{strcmp, copy_name}

-- `struct dns_cache_entry`. An entry whose `ip` is 0 is free. `name` is the array of 128 chars.
pub record DnsEntry : Type 0 where
  pub name : Bytes
  pub ip : ℕ

-- `struct qtrack`. A slot whose `qid` is 0 is free.
pub record Qtrack : Type 0 where
  pub qid : ℕ
  pub name : Bytes

-- The globals of dns.c.
pub record Dns : Type 0 where
  pub cache : List DnsEntry
  pub qtracks : List Qtrack
  pub qid_counter : ℕ

abbrev pub empty_name : Bytes
empty_name = replicate 128 0

abbrev pub boot : Dns
boot = record {
  cache = replicate 8 (record { name = empty_name; ip = 0 });
  qtracks = replicate 8 (record { qid = 0; name = empty_name });
  qid_counter = 0x4000;
}

-- `strcmp(...)==0`
abbrev pub is_zero : ℤ → Bool
is_zero (pos n) = n == 0
is_zero (negsuc n) = Bool.false

-- The entry is in use and has the name.
abbrev pub holds : DnsEntry → Bytes → Bool
holds e name = not (e.ip == 0) && is_zero (strcmp e.name name)

-- `dns_get_cached`: the address that goes out through `out_ip` if the call returns 1.
unfoldable pub dns_get_cached : List DnsEntry → Bytes → Option ℕ
dns_get_cached [] name = none
dns_get_cached (e ∷ cache) name = if holds e name then some e.ip else dns_get_cached cache name

abbrev pub filled : DnsEntry → Bytes → ℕ → DnsEntry
filled e name ip = record { name = copy_name e.name name; ip = ip }

-- The second loop of `dns_cache_store`: the first free entry is filled.
unfoldable pub dns_claim : List DnsEntry → Bytes → ℕ → Option (List DnsEntry)
dns_claim [] name ip = none
dns_claim (e ∷ cache) name ip =
    let rest = dns_claim cache name ip in
    if e.ip == 0
    then some (filled e name ip ∷ cache)
    else elim rest [ none ↦ none | some cache' ↦ some (e ∷ cache') ]

-- Entry 0 is filled when none is free.
abbrev pub dns_evict : List DnsEntry → Bytes → ℕ → List DnsEntry
dns_evict [] name ip = []
dns_evict (e ∷ cache) name ip = filled e name ip ∷ cache

-- The first loop returns at an entry that holds the name already, whatever its address.
unfoldable pub dns_cache_store : List DnsEntry → Bytes → ℕ → List DnsEntry
dns_cache_store cache name ip = elim (dns_get_cached cache name) [
  | some old ↦ cache
  | none ↦ elim (dns_claim cache name ip) [
    | some claimed ↦ claimed
    | none ↦ dns_evict cache name ip
  ]
]

abbrev pub track : Qtrack → ℕ → Bytes → Qtrack
track q qid name = record { qid = qid; name = copy_name q.name name }

unfoldable pub qtrack_claim : List Qtrack → ℕ → Bytes → Option (List Qtrack)
qtrack_claim [] qid name = none
qtrack_claim (q ∷ qs) qid name =
    let rest = qtrack_claim qs qid name in
    if q.qid == 0
    then some (track q qid name ∷ qs)
    else elim rest [ none ↦ none | some qs' ↦ some (q ∷ qs') ]

abbrev pub qtrack_evict : List Qtrack → ℕ → Bytes → List Qtrack
qtrack_evict [] qid name = []
qtrack_evict (q ∷ qs) qid name = track q qid name ∷ qs

unfoldable pub qtrack_add : List Qtrack → ℕ → Bytes → List Qtrack
qtrack_add qs qid name = elim (qtrack_claim qs qid name) [
  | some claimed ↦ claimed
  | none ↦ qtrack_evict qs qid name
]

unfoldable pub qtrack_getname : List Qtrack → ℕ → Option Bytes
qtrack_getname [] qid = none
qtrack_getname (q ∷ qs) qid = if q.qid == qid then some q.name else qtrack_getname qs qid

-- Every slot of the query is freed: `qid=0; name[0]=0`.
unfoldable pub qtrack_clear : List Qtrack → ℕ → List Qtrack
qtrack_clear [] qid = []
qtrack_clear (q ∷ qs) qid =
    (if q.qid == qid then record { qid = 0; name = set q.name 0 0 } else q) ∷ qtrack_clear qs qid
