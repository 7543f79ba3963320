-- ===== src/Http/Page.antt =====
-- http.c: a page that a server delivers.
use os_from_scratch_graphic.Prelude.{
  ℕ, zero, suc, ◌+◌, ◌-◌, ◌≡◌, ◌≢◌, ◌≤◌, ◌<◌, refl, sym, ap, ◌∙◌, false, Option, none, some, [],
  ◌∷◌, ◌++◌, arith, length, length-append, take, drop, leb, ltb, ◌&&◌, Bool-cases, inl, inr,
}
use mathlib.Core.List.{append_assoc}
use os_from_scratch_graphic.Endian.{Bytes, load_bytes}
use os_from_scratch_graphic.Endian.Layout.{drop-append}
use os_from_scratch_graphic.Text.{strlen, strstr}
use os_from_scratch_graphic.Text.Compare.{text, strlen-eq-length}
use os_from_scratch_graphic.Text.Search.{OccursAt, IsFirstMatch, strstr-IsFirstMatch}
use os_from_scratch_graphic.Http.Parse.{parse_http_status}
use os_from_scratch_graphic.Http.Redirect.{Target, body, body_start, copy_body, handle_response}

-- No byte is a terminator.
abbrev pub IsText : Bytes → Type 0
IsText [] = Unit
IsText (c ∷ s) = (c ≢ 0) × IsText s

-- The empty line behind the headers.
abbrev pub blank : Bytes
blank = 13 ∷ 10 ∷ 13 ∷ 10 ∷ []

text-terminated : (s : Bytes) → IsText s → text (s ++ (0 ∷ [])) ≡ s
unfolding text
text-terminated [] h = refl
text-terminated (c ∷ s) h = ground (arith, text-terminated s h.1)

IsText-append : (s t : Bytes) → IsText s → IsText t → IsText (s ++ t)
IsText-append [] t h k = k
IsText-append (c ∷ s) t h k = (h.0, IsText-append s t h.1 k)

take-append : (s t : Bytes) → take (length s) (s ++ t) ≡ s
take-append [] t = refl
take-append (c ∷ s) t = ap (λ r. c ∷ r) (take-append s t)

load_bytes-eq-take : (n : ℕ) (s t : Bytes) → n ≤ length s → load_bytes n (s ++ t) ≡ take n s
load_bytes-eq-take zero s t h = refl
load_bytes-eq-take (suc n) [] t h = absurd (omega arith)
load_bytes-eq-take (suc n) (c ∷ s) t h = ap (λ r. c ∷ r) (load_bytes-eq-take n s t (omega arith))

take-whole : (n : ℕ) (s : Bytes) → length s ≤ n → take n s ≡ take (length s) s
take-whole zero [] h = refl
take-whole (suc n) [] h = refl
take-whole zero (c ∷ s) h = absurd (omega arith)
take-whole (suc n) (c ∷ s) h = ap (λ r. c ∷ r) (take-whole n s (omega arith))

copy_body-text :
    (s : Bytes) (size : ℕ)
    → IsText s
    → copy_body (s ++ (0 ∷ [])) size ≡ take (size - 1) s ++ (0 ∷ [])
unfolding copy_body
copy_body-text s size h =
    ap (λ r. r ++ (0 ∷ []))
      (rw whole (elim (Bool-cases (ltb (size - 1) (length s))) [
        | inl cut ↦ rw cut (load_bytes-eq-take (size - 1) s (0 ∷ []) (ground arith))
        | inr fits ↦ rw fits (
            load_bytes-eq-take (length s) s (0 ∷ []) (omega arith)
            ∙ sym (take-whole (size - 1) s (ground arith)))
      ]))
  where
    whole : strlen (s ++ (0 ∷ [])) ≡ length s
    whole = strlen-eq-length (s ++ (0 ∷ [])) ∙ ap length (text-terminated s h)

-- A first match is unique.
first_unique :
    (h n : Bytes) (o : Option ℕ) (k : ℕ)
    → IsFirstMatch h n o
    → IsFirstMatch h n (some k)
    → o ≡ some k
first_unique h n none k f g = absurd (f k g.0)
first_unique h n (some j) k f g = elim (Bool-cases (ltb j k)) [
  | inl l ↦ absurd (g.1 j (ground arith) f.0)
  | inr l ↦ elim (Bool-cases (ltb k j)) [
    | inl r ↦ absurd (f.1 k (ground arith) g.0)
    | inr r ↦ ap some (ground arith)
  ]
]

module _ (head page : Bytes) (heads : IsText head) (pages : IsText page)
    (first : (i : ℕ) → i < length head → ¬ OccursAt (head ++ (blank ++ page)) blank i) where
  -- The response as it stands in `raw`.
  abbrev pub raw : Bytes
  raw = (head ++ (blank ++ page)) ++ (0 ∷ [])

  raw-text : text raw ≡ head ++ (blank ++ page)
  raw-text = text-terminated (head ++ (blank ++ page)) (
      IsText-append head (blank ++ page) heads
        (omega arith, (omega arith, (omega arith, (omega arith, pages)))))

  blank_found : strstr raw blank ≡ some (length head)
  unfolding text
  blank_found =
      first_unique (text raw) blank (strstr raw blank) (length head) (strstr-IsFirstMatch raw blank)
        (rw raw-text (here, first))
    where
      here : OccursAt (head ++ (blank ++ page)) blank (length head)
      here =
          ap (take 4) (drop-append head (blank ++ page) (length head) refl) ∙ take-append blank page

  regroup : raw ≡ (head ++ blank) ++ (page ++ (0 ∷ []))
  regroup =
      append_assoc head (blank ++ page) (0 ∷ []) ∙ sym (append_assoc head blank (page ++ (0 ∷ [])))

  -- A response that is no redirect is answered with the text behind its first empty line, cut to one
  -- byte less than the caller's buffer, and a terminator.
  pub handle_response-page :
      (t : Target) (size : ℕ)
      → (leb 300 (parse_http_status raw) && ltb (parse_http_status raw) 400) ≡ false
      → handle_response t raw size ≡ body (take (size - 1) page ++ (0 ∷ []))
  unfolding handle_response body_start
  handle_response-page t size final = rw (final, body_start-page, copied) refl
    where
      body_start-page : body_start raw ≡ page ++ (0 ∷ [])
      body_start-page =
          rw (blank_found, body_start)
            (ap (drop (length head + 4)) regroup
              ∙ drop-append (head ++ blank) (page ++ (0 ∷ [])) (length head + 4)
                  (omega (arith, length-append head blank)))

      copied : copy_body (page ++ (0 ∷ [])) size ≡ take (size - 1) page ++ (0 ∷ [])
      copied = copy_body-text page size pages
