-- ===== src/Dns/Names.antt =====
-- dns.c: the packed form of a name, and the loops that write it and step over it.
use os_from_scratch_graphic.Prelude.{
  ℕ, zero, suc, ◌+◌, ◌-◌, ◌≡◌, ◌≤◌, ◌<◌, refl, sym, ap, ◌∙◌, Bool, true, false, ◌||◌, Option, none,
  some, [], ◌∷◌, ◌++◌, arith, length, length-append, drop, ltb, leb, ◌==◌, if◌then◌else◌,
  Bool-cases, inl, inr,
}
use mathlib.Core.List.{append_assoc}
use mathlib.Core.Path.{subst}
use os_from_scratch_graphic.Endian.{Bytes, byte, load_bytes}
use os_from_scratch_graphic.Endian.Layout.{byte-append_right, length-load_bytes}
use os_from_scratch_graphic.Text.{strchr}
use os_from_scratch_graphic.Dns.Query.{end_name, label_len, pack_loop, pack_name}
use os_from_scratch_graphic.Dns.Response.{skip_labels}

-- The packed form of a name: labels of 1 to 63 bytes, each behind its length, and a zero.
pub data IsPacked : Bytes → Type 0 where
  end : IsPacked (0 ∷ [])
  label :
      (l rest : Bytes)
      → 0 < length l
      → length l ≤ 63
      → IsPacked rest
      → IsPacked (length l ∷ (l ++ rest))

length-drop : (n : ℕ) (m : Bytes) → length (drop n m) ≡ length m - n
length-drop zero m = omega arith
length-drop (suc n) [] = omega arith
length-drop (suc n) (b ∷ m) = omega (arith, length-drop n m)

-- What the loop leaves in a call that does not fail: the bytes written before, and a packed name.
abbrev Packs : Bytes → ℕ → Option Bytes → Type 0
Packs out cap none = Unit
Packs out cap (some result) =
    (packed : Bytes) × (result ≡ out ++ packed) × IsPacked packed × (length result ≤ cap)

end_name-Packs : (out : Bytes) (cap : ℕ) → Packs out cap (end_name out cap)
end_name-Packs out cap = elim (Bool-cases (leb cap (length out))) [
  | inl full ↦ rw full tt
  | inr room ↦ rw room (0 ∷ [], refl, end, ground (arith, length-append out (0 ∷ [])))
]

-- A label in front of what the rest of the loop packs.
Packs-label :
    (out l : Bytes) (cap : ℕ) (o : Option Bytes)
    → 0 < length l
    → length l ≤ 63
    → Packs (out ++ (length l ∷ l)) cap o
    → Packs out cap o
Packs-label out l cap none pos short h = tt
Packs-label out l cap (some result) pos short (packed, e, p, fits) = (
  length l ∷ (l ++ packed),
  e ∙ append_assoc out (length l ∷ l) packed,
  label l packed pos short p,
  fits,
)

Packs-run :
    (out p : Bytes) (len cap : ℕ) (o : Option Bytes)
    → 0 < len
    → len ≤ 63
    → Packs (out ++ (len ∷ load_bytes len p)) cap o
    → Packs out cap o
Packs-run out p len cap o pos short h =
    Packs-label out (load_bytes len p) cap o (omega (arith, length-load_bytes len p))
      (omega (arith, length-load_bytes len p)) (rw length-load_bytes h)

Packs-if :
    (out : Bytes) (cap : ℕ) (b : Bool) (x y : Option Bytes)
    → Packs out cap x
    → (b ≡ false → Packs out cap y)
    → Packs out cap (if b then x else y)
Packs-if out cap true x y hx hy = hx
Packs-if out cap false x y hx hy = hy refl

Packs-elim :
    (out : Bytes) (cap : ℕ) (o : Option ℕ) (x y : Option Bytes)
    → Packs out cap x
    → Packs out cap y
    → Packs out cap (elim o [ none ↦ x | some dot ↦ y ])
Packs-elim out cap none x y hx hy = hx
Packs-elim out cap (some dot) x y hx hy = hy

in_range : (len : ℕ) → (len == 0 || ltb 63 len) ≡ false → (0 < len) × (len ≤ 63)
in_range len h = ground arith

pack_loop-Packs : (fuel : ℕ) (p out : Bytes) (cap : ℕ) → Packs out cap (pack_loop fuel p out cap)
unfolding pack_loop
pack_loop-Packs zero p out cap = tt
pack_loop-Packs (suc fuel) p out cap =
    Packs-if out cap (byte p 0 == 0 || leb cap (length out)) (end_name out cap) sized
      (end_name-Packs out cap)
      λ more. Packs-if out cap (len == 0 || ltb 63 len) none fitted tt λ size.
        Packs-if out cap (leb cap (length out + 1 + len)) none written tt λ fits.
          Packs-run out p len cap written (in_range len size).0 (in_range len size).1 (
            Packs-elim out' cap (strchr p b'.') (end_name out' cap) rest (end_name-Packs out' cap)
              (pack_loop-Packs fuel (drop (len + 1) p) out' cap))
  where
    len : ℕ
    len = label_len p

    out' : Bytes
    out' = out ++ (len ∷ load_bytes len p)

    rest : Option Bytes
    rest = pack_loop fuel (drop (len + 1) p) out' cap

    written : Option Bytes
    written = elim (strchr p b'.') [ none ↦ end_name out' cap | some dot ↦ rest ]

    fitted : Option Bytes
    fitted = if leb cap (length out + 1 + len) then none else written

    sized : Option Bytes
    sized = if len == 0 || ltb 63 len then none else fitted

-- A name that is packed comes out as labels of 1 to 63 bytes and a zero, in no more than the bytes
-- that the caller has.
pub pack_name-IsPacked :
    (name packed : Bytes) (cap : ℕ)
    → pack_name name cap ≡ some packed
    → IsPacked packed × (length packed ≤ cap)
unfolding pack_name
pack_name-IsPacked name packed cap h =
    read (subst (λ o. Packs [] cap o) h (pack_loop-Packs (suc (length name)) name [] cap))
  where
    read : Packs [] cap (some packed) → IsPacked packed × (length packed ≤ cap)
    read (q, e, p, fits) = (subst (λ m. IsPacked m) (sym e) p, fits)

-- The skip loop of the response parser, with fuel for each byte, ends at the zero of a packed name.
pub skip_labels-IsPacked :
    (packed pre post : Bytes) (len fuel : ℕ)
    → IsPacked packed
    → length pre + length packed ≤ len
    → length packed ≤ fuel
    → skip_labels fuel (pre ++ (packed ++ post)) len (length pre) + 1 ≡ length pre + length packed
unfolding skip_labels
skip_labels-IsPacked _ pre post len zero end fits enough = absurd (omega arith)
skip_labels-IsPacked _ pre post len (suc fuel) end fits enough =
    ground (arith, byte-append_right pre (0 ∷ post) 0 (length pre))
skip_labels-IsPacked _ pre post len zero (label l rest pos short p) fits enough =
    absurd (omega arith)
skip_labels-IsPacked _ pre post len (suc fuel) (label l rest pos short p) fits enough = ground (
  arith,
  regroup,
  skip_labels-IsPacked rest (pre ++ (length l ∷ l)) post len fuel p,
  byte-append_right pre (length l ∷ ((l ++ rest) ++ post)) 0 (length pre),
  length-append pre (length l ∷ l),
  length-append l rest,
)
  where
    regroup : pre ++ ((length l ∷ (l ++ rest)) ++ post) ≡ (pre ++ (length l ∷ l)) ++ (rest ++ post)
    regroup =
        ap (λ t. pre ++ (length l ∷ t)) (append_assoc l rest post)
        ∙ sym (append_assoc pre (length l ∷ l) (rest ++ post))

-- The fuel of the loop is enough: with more fuel than bytes the result no longer depends on it.
pub pack_loop_fuel :
    (f : ℕ) (p out : Bytes) (cap : ℕ)
    → length p < f
    → pack_loop f p out cap ≡ pack_loop (suc f) p out cap
unfolding pack_loop
pack_loop_fuel zero p out cap h = absurd (omega arith)
pack_loop_fuel (suc f) [] out cap h = ground arith
pack_loop_fuel (suc f) (b ∷ p) out cap h = ground (
  arith,
  pack_loop_fuel f (drop (label_len (b ∷ p) + 1) (b ∷ p))
      (out ++ (label_len (b ∷ p) ∷ load_bytes (label_len (b ∷ p)) (b ∷ p))) cap,
  length-drop (label_len (b ∷ p) + 1) (b ∷ p),
)

-- The skip loop ends however the bytes lie: with fuel for each byte from the offset to the length,
-- the offset at which it stops no longer depends on the fuel.
pub skip_labels_fuel :
    (f : ℕ) (m : Bytes) (len off : ℕ)
    → len ≤ off + f
    → skip_labels f m len off ≡ skip_labels (suc f) m len off
unfolding skip_labels
skip_labels_fuel zero m len off h = ground arith
skip_labels_fuel (suc f) m len off h =
    ground (arith, skip_labels_fuel f m len (off + (1 + byte m off)))
