-- ===== src/Kernel/Tokens.antt =====
-- kernel.c: the lines of the viewer of JSON.
use os_from_scratch_graphic.Prelude.{
  ℕ, zero, suc, ◌-◌, ◌≡◌, refl, ap, ◌∙◌, ◌&&◌, List, [], ◌∷◌, ◌++◌, map, take, drop, min, arith,
  if◌then◌else◌,
}
use os_from_scratch_graphic.Endian.{Bytes, load_bytes}
use os_from_scratch_graphic.Text.Compare.{text}
use os_from_scratch_graphic.Text.Format.{expand_pair, snprintf-eq-take}
use os_from_scratch_graphic.Kernel.Viewer.{Token, token_text, pair_line, pair_lines}

-- Each token with the one behind it.
abbrev pub neighbours : Token → List Token → List (Token × Token)
neighbours k [] = []
neighbours k (v ∷ ts) = (k, v) ∷ neighbours v ts

abbrev pub only_strings : List (Token × Token) → List (Token × Token)
only_strings [] = []
only_strings ((k, v) ∷ ps) =
    if k.is_string && v.is_string then (k, v) ∷ only_strings ps else only_strings ps

-- The characters of a token that are shown, at most 63.
abbrev pub shown : Bytes → Token → Bytes
shown bodybuf t = text (load_bytes (min 63 (t.end - t.start)) (drop t.start bodybuf))

-- The key, a colon, a blank and the value, at most 127 characters.
abbrev pub shown_pair : Bytes → Token × Token → Bytes
shown_pair bodybuf (k, v) =
    take 127 (shown bodybuf k ++ (b':' ∷ b' ' ∷ shown bodybuf v)) ++ (0 ∷ [])

text-terminated : (s : Bytes) → text (s ++ (0 ∷ [])) ≡ text s
unfolding text
text-terminated [] = refl
text-terminated (c ∷ s) = ground (arith, text-terminated s)

text-token_text : (bodybuf : Bytes) (t : Token) → text (token_text bodybuf t) ≡ shown bodybuf t
text-token_text bodybuf t =
    text-terminated _ ∙ ap (λ n. text (load_bytes n (drop t.start bodybuf))) (ground arith)

pair_line-eq-shown_pair :
    (bodybuf : Bytes) (k v : Token) → pair_line bodybuf k v ≡ shown_pair bodybuf (k, v)
pair_line-eq-shown_pair bodybuf k v =
    snprintf-eq-take 127 _ _
    ∙ rw
        (
          expand_pair (token_text bodybuf k) (token_text bodybuf v),
          text-token_text bodybuf k,
          text-token_text bodybuf v,
        )
        refl

-- The viewer shows one line for each two tokens in a row that are both strings, in their order and up to the room
-- of the window: the first one's text, a colon, a blank and the second one's text, each text cut to 63 characters and
-- the line to 127. Whether the first is a key plays no part: a value is also shown with the next key.
pub pair_lines-neighbours :
    (ts : List Token) (room : ℕ) (bodybuf : Bytes) (k : Token)
    → pair_lines room bodybuf k ts
      ≡ take room (map (shown_pair bodybuf) (only_strings (neighbours k ts)))
unfolding pair_lines
pair_lines-neighbours [] zero bodybuf k = refl
pair_lines-neighbours [] (suc room) bodybuf k = refl
pair_lines-neighbours (v ∷ ts) zero bodybuf k = refl
pair_lines-neighbours (v ∷ ts) (suc room) bodybuf k = ground (
  arith,
  pair_line-eq-shown_pair bodybuf k v,
  pair_lines-neighbours ts room bodybuf v,
  pair_lines-neighbours ts (suc room) bodybuf v,
)
