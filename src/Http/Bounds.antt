-- ===== src/Http/Bounds.antt =====
-- http.c: the buffers of the client, whatever the server sends.
use os_from_scratch_graphic.Prelude.{
  ℕ, suc, ◌-◌, ◌≡◌, ◌≤◌, ◌<◌, inl, inr, Option, none, some, [], ◌∷◌, arith, length, length-append,
  ltb, leb, ◌==◌, ◌&&◌, Bool-cases, Option-cases, drop,
}
use os_from_scratch_graphic.Endian.{Bytes, byte, load_bytes}
use os_from_scratch_graphic.Endian.Layout.{length-load_bytes}
use os_from_scratch_graphic.Text.{strlen, strcmp, strncmp, copy_name}
use os_from_scratch_graphic.Text.Literals.{codes}
use os_from_scratch_graphic.Dns.Cache.{is_zero}
use os_from_scratch_graphic.Text.Copy.{copy_name_lem}
use os_from_scratch_graphic.Http.Parse.{parse_ipv4_literal, parse_http_status}
use os_from_scratch_graphic.Http.Redirect.{
  Target, Outcome, failed, follow, body, find_location, location_value, follow_absolute,
  follow_location, body_start, copy_body, redirect, handle_response, copy_until, is_host_end,
}

-- The two buffers have their sizes.
pub record IsTarget (t : Target) : Type 0 where
  pub host : length t.hostbuf ≡ 128
  pub path : length t.pathbuf ≡ 1024

-- What a round may decide with a buffer of `cap` bytes for the body.
abbrev pub IsOutcome : ℕ → Outcome → Type 0
IsOutcome cap (failed n) = Unit
IsOutcome cap (follow t) = IsTarget t
IsOutcome cap (body b) = (0 < length b) × (length b ≤ cap)

pub length-copy_name :
    (dst src : Bytes) (n : ℕ) → length dst ≡ suc (suc n) → length (copy_name dst src) ≡ suc (suc n)
length-copy_name dst src n h = (copy_name_lem dst src n h).0

with_path-IsTarget :
    (t : Target) (p : Bytes) → IsTarget t → IsTarget (record t { pathbuf = copy_name t.pathbuf p })
with_path-IsTarget t p h = record { host = h.host; path = length-copy_name t.pathbuf p 1022 h.path }

with_host-IsTarget :
    (t : Target) (ip : ℕ) (p q : Bytes)
    → IsTarget t
    → IsTarget
        (record { ip = ip; hostbuf = copy_name t.hostbuf p; pathbuf = copy_name t.pathbuf q })
with_host-IsTarget t ip p q h = record {
  host = length-copy_name t.hostbuf p 126 h.host;
  path = length-copy_name t.pathbuf q 1022 h.path;
}

module _ (size : ℕ) where
  follow_absolute-IsOutcome :
      (t : Target) (p : Bytes) → IsTarget t → IsOutcome size (follow_absolute t p)
  unfolding follow_absolute
  follow_absolute-IsOutcome t p h = elim (Option-cases (parse_ipv4_literal newhost)) [
    | inl unread ↦
        rw (unread, follow_absolute)
          (elim (Bool-cases (is_zero (strcmp newhost t.hostbuf))) [
            | inl same ↦ rw same (with_path-IsTarget t _ h)
            | inr other ↦ rw other tt
          ])
    | inr (ip, e) ↦ rw (e, follow_absolute) (with_host-IsTarget t ip newhost _ h)
  ]
    where
      newhost : Bytes
      newhost = copy_until is_host_end 127 p

  follow_location-IsOutcome :
      (t : Target) (loc : Bytes) → IsTarget t → IsOutcome size (follow_location t loc)
  unfolding follow_location
  follow_location-IsOutcome t loc h =
      elim (Bool-cases (is_zero (strncmp loc (codes "https://") 8))) [
        | inl s ↦ rw s tt
        | inr s ↦ rw s (elim (Bool-cases (is_zero (strncmp loc (codes "http://") 7))) [
          | inl a ↦ rw a (follow_absolute-IsOutcome t (drop 7 loc) h)
          | inr a ↦ rw a (elim (Bool-cases (byte loc 0 == b'/')) [
            | inl p ↦ rw p (with_path-IsTarget t loc h)
            | inr p ↦ rw p tt
          ])
        ])
      ]

  length-copy_body :
      (b : Bytes) → 0 < size → (0 < length (copy_body b size)) × (length (copy_body b size) ≤ size)
  unfolding copy_body
  length-copy_body b h = ground (
    arith,
    length-append (load_bytes (size - 1) b) (0 ∷ []),
    length-append (load_bytes (strlen b) b) (0 ∷ []),
    length-load_bytes (size - 1) b,
    length-load_bytes (strlen b) b,
  )

  redirect-IsOutcome :
      (t : Target) (raw : Bytes) (o : Option ℕ) → IsTarget t → IsOutcome size (redirect t raw o)
  redirect-IsOutcome t raw none h = tt
  redirect-IsOutcome t raw (some k) h = elim (Option-cases (location_value (drop k raw))) [
    | inl missing ↦ rw (missing, redirect) tt
    | inr (loc, e) ↦ rw (e, redirect) (follow_location-IsOutcome t loc h)
  ]

  pub handle_response-IsOutcome :
      (t : Target) (raw : Bytes)
      → 0 < size
      → IsTarget t
      → IsOutcome size (handle_response t raw size)
  unfolding handle_response
  handle_response-IsOutcome t raw room h =
      elim (Bool-cases (leb 300 (parse_http_status raw) && ltb (parse_http_status raw) 400)) [
        | inl moved ↦ rw moved (redirect-IsOutcome t raw (find_location raw) h)
        | inr final ↦ rw final (length-copy_body (body_start raw) room)
      ]
