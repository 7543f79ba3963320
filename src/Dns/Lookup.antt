-- ===== src/Dns/Lookup.antt =====
-- dns.c: the name cache is a bounded map from names to addresses.
use os_from_scratch_graphic.Prelude.{
  ℕ, zero, suc, ◌≡◌, ◌≢◌, ◌≤◌, ◌<◌, ◌↔◌, refl, ap, ◌∙◌, Bool, true, false, Option, none, some, List,
  [], ◌∷◌, arith, length, take, drop, ◌==◌, if◌then◌else◌, Bool-cases, Option-cases, inl, inr, ◌||◌,
}
use mathlib.Core.Path.{subst}
use os_from_scratch_graphic.Endian.{Bytes}
use os_from_scratch_graphic.Text.{strcmp, copy_name}
use os_from_scratch_graphic.Text.Compare.{text, strcmp-eq-zero}
use os_from_scratch_graphic.Text.Copy.{copy_name_lem}
use os_from_scratch_graphic.Dns.Cache.{
  DnsEntry, is_zero, filled, dns_get_cached, dns_claim, dns_evict, dns_cache_store,
}

-- Each name is an array of 128 chars.
abbrev pub AreNames : List DnsEntry → Type 0
AreNames [] = Unit
AreNames (e ∷ cache) = (length e.name ≡ 128) × AreNames cache

-- The text fits a name array with its terminator and the cut byte: 126 bytes.
abbrev pub IsShort : Bytes → Type 0
IsShort name = length (text name) ≤ 126

take-whole : (n : ℕ) (s : Bytes) → length s ≤ n → take n s ≡ s
take-whole zero [] h = refl
take-whole zero (c ∷ s) h = absurd (omega arith)
take-whole (suc n) [] h = refl
take-whole (suc n) (c ∷ s) h = ap (λ r. c ∷ r) (take-whole n s (omega arith))

-- A short name is stored whole.
pub text-copy_name :
    (dst name : Bytes) → length dst ≡ 128 → IsShort name → text (copy_name dst name) ≡ text name
text-copy_name dst name h short =
    (copy_name_lem dst name 126 h).1 ∙ take-whole 126 (text name) short

is_zero-strcmp : (s t : Bytes) → (is_zero (strcmp s t) ≡ true) ↔ (text s ≡ text t)
is_zero-strcmp s t = ground (arith, strcmp-eq-zero s t)

abbrev pub is_some {ℓ} : {A : Type ℓ} → Option A → Bool
is_some none = false
is_some (some a) = true

-- Some entry is free.
pub has_free : List DnsEntry → Bool
has_free [] = false
has_free (e ∷ cache) = let rest = has_free cache in if e.ip == 0 then true else rest

-- A look-up depends on the text of the name alone.
pub dns_get_cached-cong :
    (cache : List DnsEntry) (s t : Bytes)
    → text s ≡ text t
    → dns_get_cached cache s ≡ dns_get_cached cache t
unfolding dns_get_cached
dns_get_cached-cong [] s t h = refl
dns_get_cached-cong (e ∷ cache) s t h =
    ground
      (arith, is_zero-strcmp e.name s, is_zero-strcmp e.name t, dns_get_cached-cong cache s t h)

module _ (name other : Bytes) (ip : ℕ) (ne : ip ≢ 0) (short : IsShort name) where
  -- A look-up of the other name behind a fresh entry for the name.
  filled-lookup :
      (e : DnsEntry) (cache : List DnsEntry)
      → length e.name ≡ 128
      → ((text other ≡ text name) → dns_get_cached (filled e name ip ∷ cache) other ≡ some ip)
        × ((text other ≢ text name)
            → dns_get_cached (filled e name ip ∷ cache) other ≡ dns_get_cached cache other)
  unfolding dns_get_cached
  filled-lookup e cache h = (
    λ same.
        ground
          (arith, is_zero-strcmp (copy_name e.name name) other, text-copy_name e.name name h short),
    λ differ.
        ground
          (arith, is_zero-strcmp (copy_name e.name name) other, text-copy_name e.name name h short),
  )

  -- What the loop for a free entry leaves.
  abbrev Claims : Option (List DnsEntry) → List DnsEntry → Type 0
  Claims none cache = has_free cache ≡ false
  Claims (some claimed) cache =
      (has_free cache ≡ true)
      × ((text other ≡ text name)
          → dns_get_cached cache other ≡ none
          → dns_get_cached claimed other ≡ some ip)
      × ((text other ≢ text name) → dns_get_cached claimed other ≡ dns_get_cached cache other)

  Claims-cons :
      (e : DnsEntry) (cache : List DnsEntry) (o : Option (List DnsEntry))
      → (e.ip == 0) ≡ false
      → Claims o cache
      → Claims (elim o [ none ↦ none | some claimed ↦ some (e ∷ claimed) ]) (e ∷ cache)
  unfolding dns_get_cached has_free
  Claims-cons e cache none used h = ground arith
  Claims-cons e cache (some claimed) used h = (
    ground (arith, h.0),
    λ same fresh. ground (arith, h.1 same),
    λ differ. ground (arith, h.2 differ),
  )

  claim-Claims : (cache : List DnsEntry) → AreNames cache → Claims (dns_claim cache name ip) cache
  unfolding dns_claim has_free
  claim-Claims [] h = refl
  claim-Claims (e ∷ cache) h = elim (Bool-cases (e.ip == 0)) [
    | inl free ↦ rw free (
      rw free,
      λ same fresh. (filled-lookup e cache h.0).0 same,
      λ differ. (filled-lookup e cache h.0).1 differ ∙ free-lookup free,
    )
    | inr used ↦
        rw used (Claims-cons e cache (dns_claim cache name ip) used (claim-Claims cache h.1))
  ]
    where
      free-lookup :
          (e.ip == 0) ≡ true → dns_get_cached cache other ≡ dns_get_cached (e ∷ cache) other
      free-lookup free = unfold dns_get_cached in ground arith

evict-lookup :
    (cache : List DnsEntry) (name other : Bytes) (ip : ℕ)
    → ip ≢ 0
    → IsShort name
    → AreNames cache
    → 0 < length cache
    → ((text other ≡ text name) → dns_get_cached (dns_evict cache name ip) other ≡ some ip)
      × ((text other ≢ text name)
          → dns_get_cached (dns_evict cache name ip) other ≡ dns_get_cached (drop 1 cache) other)
evict-lookup [] name other ip ne short names room = absurd (omega arith)
evict-lookup (e ∷ cache) name other ip ne short names room =
    filled-lookup name other ip ne short e cache names.0

-- A store of a short name with a non-zero address makes a look-up of the name succeed: with the
-- address that was cached before, if there was one, and else with the stored one.
pub dns_cache_store-finds :
    (cache : List DnsEntry) (name : Bytes) (ip : ℕ)
    → ip ≢ 0
    → IsShort name
    → AreNames cache
    → 0 < length cache
    → dns_get_cached (dns_cache_store cache name ip) name
      ≡ elim (dns_get_cached cache name) [ some old ↦ some old | none ↦ some ip ]
unfolding dns_cache_store
dns_cache_store-finds cache name ip ne short names room =
    elim (Option-cases (dns_get_cached cache name)) [
      | inl fresh ↦
          rw (fresh, dns_cache_store)
            (elim (Option-cases (dns_claim cache name ip)) [
              | inl full ↦ rw full ((evict-lookup cache name name ip ne short names room).0 refl)
              | inr (claimed, e) ↦ rw e (
                  (subst (λ o. Claims name name ip ne short o cache) e
                      (claim-Claims name name ip ne short cache names)).1
                    refl fresh)
            ])
      | inr (old, e) ↦ rw (e, dns_cache_store) e
    ]

-- The same store leaves the look-up of every other name as it was, but that entry 0 is lost if the
-- name was not cached and no entry was free.
pub dns_cache_store-others :
    (cache : List DnsEntry) (name other : Bytes) (ip : ℕ)
    → ip ≢ 0
    → IsShort name
    → AreNames cache
    → 0 < length cache
    → text other ≢ text name
    → dns_get_cached (dns_cache_store cache name ip) other
      ≡ dns_get_cached
          (if is_some (dns_get_cached cache name) || has_free cache then cache else drop 1 cache)
          other
unfolding dns_cache_store
dns_cache_store-others cache name other ip ne short names room differ =
    elim (Option-cases (dns_get_cached cache name)) [
      | inl fresh ↦
          rw (fresh, dns_cache_store)
            (elim (Option-cases (dns_claim cache name ip)) [
              | inl full ↦
                  rw (full, subst (λ o. claims o) full loop)
                    ((evict-lookup cache name other ip ne short names room).1 differ)
              | inr (claimed, e) ↦
                  rw (e, (subst (λ o. claims o) e loop).0) ((subst (λ o. claims o) e loop).2 differ)
            ])
      | inr (old, e) ↦ rw (e, dns_cache_store) refl
    ]
  where
    claims : Option (List DnsEntry) → Type 0
    claims o = Claims name other ip ne short o cache

    loop : claims (dns_claim cache name ip)
    loop = claim-Claims name other ip ne short cache names
