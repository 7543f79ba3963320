-- ===== src/Usb/Interfaces.antt =====
-- usb/xhci.c: the walk over a configuration descriptor, against the list of its descriptors.
use os_from_scratch_graphic.Prelude.{
  ℕ, zero, suc, ◌+◌, ◌≡◌, ◌≤◌, ◌<◌, inl, inr, refl, ap, sym, ◌∙◌, Bool, Bool-cases, true, false,
  ◌&&◌, ◌||◌, some, List, [], ◌∷◌, ◌++◌, arith, length, length-append, leb, ltb, ◌==◌,
  if◌then◌else◌,
}
use mathlib.Core.List.{append_assoc}
use os_from_scratch_graphic.Endian.{Bytes, byte}
use os_from_scratch_graphic.Endian.Layout.{byte-append_left, byte-append_right}
use os_from_scratch_graphic.Usb.Descriptors.{is_net_class, is_net_interface, find_net, found_net}

-- A descriptor: its first byte is its length, its second its type.
abbrev pub IsDescriptor : Bytes → Type 0
IsDescriptor d = (2 ≤ length d) × (byte d 0 ≡ length d)

abbrev pub AreDescriptors : List Bytes → Type 0
AreDescriptors [] = Unit
AreDescriptors (d ∷ ds) = IsDescriptor d × AreDescriptors ds

-- The descriptors one behind the other, in front of other bytes, and how long they are.
abbrev pub laid : List Bytes → Bytes → Bytes
laid [] post = post
laid (d ∷ ds) post = d ++ laid ds post

abbrev pub total : List Bytes → ℕ
total [] = 0
total (d ∷ ds) = length d + total ds

-- An interface descriptor of a class for networks.
unfoldable pub is_net : Bytes → Bool
is_net d = byte d 1 == 0x04 && leb 9 (length d) && is_net_class (byte d 5)

-- Some descriptor is such an interface.
unfoldable pub declares_net : List Bytes → Bool
declares_net [] = false
declares_net (d ∷ ds) = is_net d || declares_net ds

byte-laid :
    (pre d post : Bytes) (i j : ℕ)
    → i < length d
    → j ≡ length pre + i
    → byte (pre ++ (d ++ post)) j ≡ byte d i
byte-laid pre d post i j l at =
    byte-append_right pre (d ++ post) i j at ∙ byte-append_left d post i l

-- A test behind two others counts only where they hold.
and_cong : (a b x y : Bool) → (b ≡ true → x ≡ y) → a && b && x ≡ a && b && y
and_cong true true x y same = same refl
and_cong true false x y same = refl
and_cong false b x y same = refl

is_net_interface-laid :
    (pre d post : Bytes)
    → IsDescriptor d
    → is_net_interface (pre ++ (d ++ post)) (length pre) ≡ is_net d
unfolding is_net_interface is_net
is_net_interface-laid pre d post e =
    rw (size, kind)
      (and_cong (byte d 1 == 0x04) (leb 9 (length d))
        (is_net_class (byte (pre ++ (d ++ post)) (length pre + 5))) (is_net_class (byte d 5))
        (λ long.
          ap is_net_class
            (byte-laid pre d post 5 (length pre + 5) (omega (arith, nine long)) refl)))
  where
    size : byte (pre ++ (d ++ post)) (length pre) ≡ length d
    size = byte-laid pre d post 0 (length pre) (omega (arith, e.0)) (omega arith) ∙ e.1

    kind : byte (pre ++ (d ++ post)) (length pre + 1) ≡ byte d 1
    kind = byte-laid pre d post 1 (length pre + 1) (omega (arith, e.0)) refl

    nine : leb 9 (length d) ≡ true → 9 ≤ length d
    nine long = ground arith

or_false : (b : Bool) → b || false ≡ b
or_false true = refl
or_false false = refl

or_assoc : (a b c : Bool) → (a || b) || c ≡ a || (b || c)
or_assoc true b c = refl
or_assoc false b c = refl

find_net-laid :
    (ds : List Bytes) (pre post : Bytes) (fuel totlen : ℕ) (found : Bool)
    → AreDescriptors ds
    → totlen ≡ length pre + total ds
    → total ds < fuel
    → find_net fuel (pre ++ laid ds post) totlen (length pre) found
      ≡ some (found || declares_net ds)
unfolding find_net declares_net
find_net-laid ds pre post zero totlen found each at room = absurd (omega arith)
find_net-laid [] pre post (suc fuel) totlen found each at room = rw (stops, or_false found) refl
  where
    stops : leb (length pre + 2) totlen ≡ false
    stops = ground arith
find_net-laid (d ∷ ds) pre post (suc fuel) totlen found each at room =
    rw (goes, is_net_interface-laid pre d (laid ds post) each.0, size, wide)
      (last
        (find_net-laid ds (pre ++ d) post fuel totlen (found || is_net d) each.1
          (omega (arith, at, length-append pre d)) (omega (arith, room, each.0.0)))
        ds each.1 refl)
  where
    goes : leb (length pre + 2) totlen ≡ true
    goes = let two = each.0.0 in ground arith

    size : byte (pre ++ (d ++ laid ds post)) (length pre) ≡ length d
    size =
        byte-laid pre d (laid ds post) 0 (length pre) (omega (arith, each.0.0)) (omega arith)
        ∙ each.0.1

    wide : ltb (length d) 2 ≡ false
    wide = let two = each.0.0 in ground arith

    last :
        find_net fuel ((pre ++ d) ++ laid ds post) totlen (length (pre ++ d)) (found || is_net d)
          ≡ some ((found || is_net d) || declares_net ds)
        → (es : List Bytes) → AreDescriptors es
        → es ≡ ds
        → (if leb totlen (length pre + length d)
            then some (found || is_net d)
            else find_net fuel
                (pre ++ (d ++ laid ds post))
                totlen
                (length pre + length d)
                (found || is_net d))
          ≡ some (found || (is_net d || declares_net ds))
    last again [] none_left same =
        rw (end, ← same, ← or_assoc found (is_net d) false, or_false (found || is_net d)) refl
      where
        nothing : total ds ≡ 0
        nothing = rw (← same) refl

        end : leb totlen (length pre + length d) ≡ true
        end = let n = nothing in ground arith
    last again (e ∷ es) left same =
        rw (more, moved) (rest ∙ ap some (or_assoc found (is_net d) (declares_net ds)))
      where
        two : 2 ≤ total ds
        two = rw (← same) (omega (arith, left.0.0))

        more : leb totlen (length pre + length d) ≡ false
        more = let l = two in ground arith

        moved : length pre + length d ≡ length (pre ++ d)
        moved = sym (length-append pre d)

        rest :
            find_net fuel
              (pre ++ (d ++ laid ds post))
              totlen
              (length (pre ++ d))
              (found || is_net d)
            ≡ some ((found || is_net d) || declares_net ds)
        rest = rw (← append_assoc pre d (laid ds post)) again

-- The walk over a configuration descriptor, given as descriptors one behind the other of which each says its
-- length, in front of any bytes, ends, and finds an interface for a network if and only if one of the descriptors
-- is such an interface.
pub found_net-laid :
    (ds : List Bytes) (post : Bytes)
    → AreDescriptors ds
    → found_net (laid ds post) (total ds) ≡ some (declares_net ds)
unfolding found_net
found_net-laid ds post each =
    find_net-laid ds [] post (suc (total ds)) (total ds) false each (omega arith) (omega arith)

find_net-returns :
    (fuel : ℕ) (full : Bytes) (totlen off : ℕ) (found : Bool)
    → 0 < fuel
    → totlen < fuel + off
    → (b : Bool) × (find_net fuel full totlen off found ≡ some b)
unfolding find_net
find_net-returns zero full totlen off found some_fuel room = absurd (omega arith)
find_net-returns (suc fuel) full totlen off found some_fuel room =
    elim (Bool-cases (leb (off + 2) totlen)) [
      | inr outside ↦ (found, rw outside refl)
      | inl inside ↦ elim (Bool-cases (ltb (byte full off) 2)) [
        | inl short ↦ (found, rw (inside, short) refl)
        | inr two ↦ elim (Bool-cases (leb totlen (off + byte full off))) [
          | inl last ↦ (found || is_net_interface full off, rw (inside, two, last) refl)
          | inr more ↦
              rw (inside, two, more)
                (find_net-returns fuel full totlen (off + byte full off)
                  (found || is_net_interface full off) (fuel_left more) (room_left (long two)))
        ]
      ]
    ]
  where
    long : ltb (byte full off) 2 ≡ false → 2 ≤ byte full off
    long two = ground arith

    fuel_left : leb totlen (off + byte full off) ≡ false → 0 < fuel
    fuel_left more = ground arith

    room_left : 2 ≤ byte full off → totlen < fuel + (off + byte full off)
    room_left two = omega arith

-- The walk ends on any bytes, whatever length is claimed for them.
pub found_net-ends : (full : Bytes) (totlen : ℕ) → (b : Bool) × (found_net full totlen ≡ some b)
unfolding found_net
found_net-ends full totlen =
    find_net-returns (suc totlen) full totlen 0 false (omega arith) (omega arith)
