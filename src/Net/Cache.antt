-- ===== src/Net/Cache.antt =====
-- net.c: the ARP cache is a bounded map from addresses to hardware addresses.
use os_from_scratch_graphic.Prelude.{
  ℕ, ◌≡◌, ◌≢◌, ◌<◌, refl, Bool, true, false, ◌||◌, Option, none, some, List, [], ◌∷◌, arith, length,
  set, drop, ◌==◌, if◌then◌else◌,
}
use os_from_scratch_graphic.Endian.{Bytes}
use os_from_scratch_graphic.Net.State.{ArpEntry}
use os_from_scratch_graphic.Net.Arp.{arp_lookup, arp_replace, arp_claim, arp_store}

abbrev pub is_some {ℓ} : {A : Type ℓ} → Option A → Bool
is_some none = false
is_some (some a) = true

-- The two loops of the store look for the entry of the address, and for a free one.
abbrev pub has_room : List ArpEntry → ℕ → Bool
has_room cache ip = is_some (arp_lookup cache ip) || is_some (arp_lookup cache 0)

-- A look-up in what a loop of the store leaves, if it found its entry.
abbrev Finds : Option (List ArpEntry) → Option Bytes → ℕ → ℕ → Bytes → Option Bytes → Type 0
Finds none found j ip mac before = found ≡ none
Finds (some cache) found j ip mac before =
    (is_some found ≡ true) × (arp_lookup cache j ≡ (if j == ip then some mac else before))

replace-Finds :
    (cache : List ArpEntry) (ip j : ℕ) (mac : Bytes)
    → Finds (arp_replace cache ip mac) (arp_lookup cache ip) j ip mac (arp_lookup cache j)
unfolding arp_replace arp_lookup
replace-Finds [] ip j mac = refl
replace-Finds (e ∷ cache) ip j mac = ground (arith, replace-Finds cache ip j mac)

claim-Finds :
    (cache : List ArpEntry) (ip j : ℕ) (mac : Bytes)
    → j ≢ 0
    → arp_lookup cache ip ≡ none
    → Finds (arp_claim cache ip mac) (arp_lookup cache 0) j ip mac (arp_lookup cache j)
unfolding arp_claim arp_lookup
claim-Finds [] ip j mac h k = refl
claim-Finds (e ∷ cache) ip j mac h k = ground (arith, claim-Finds cache ip j mac h)

evict-lookup :
    (cache : List ArpEntry) (ip j : ℕ) (mac : Bytes)
    → 0 < length cache
    → arp_lookup (set cache 0 (record { ip = ip; mac = mac })) j
      ≡ (if j == ip then some mac else arp_lookup (drop 1 cache) j)
unfolding arp_lookup
evict-lookup [] ip j mac h = absurd (omega arith)
evict-lookup (e ∷ cache) ip j mac h = ground arith

-- After a store of a non-zero address in a cache with at least one entry, a look-up of that address
-- finds the stored one. A look-up of any other non-zero address finds what it found before, but that
-- entry 0 is lost if the cache held neither the address nor a free entry.
pub lookup-arp_store :
    (cache : List ArpEntry) (ip j : ℕ) (mac : Bytes)
    → 0 < length cache
    → j ≢ 0
    → arp_lookup (arp_store cache ip mac) j ≡ (
        if j == ip
        then some mac
        else arp_lookup (if has_room cache ip then cache else drop 1 cache) j)
unfolding arp_store
lookup-arp_store cache ip j mac room h = ground (
  arith,
  replace-Finds cache ip j mac,
  claim-Finds cache ip j mac h,
  evict-lookup cache ip j mac room,
)
