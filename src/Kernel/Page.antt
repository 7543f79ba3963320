-- ===== src/Kernel/Page.antt =====
-- kernel.c: the lines of a page that fit the window of the browser.
use os_from_scratch_graphic.Prelude.{
  ℕ, zero, suc, ◌≡◌, ◌≤◌, refl, false, ◌||◌, List, [], ◌∷◌, ◌++◌, map, take, drop, arith, length,
  ◌==◌,
}
use os_from_scratch_graphic.Endian.{Bytes}
use os_from_scratch_graphic.Kernel.Browser.{read_line, skip_newline, trim, is_end, page_lines}

-- A line without the two bytes that end it, that fits the buffer.
abbrev pub HasNoEnd : Bytes → Type 0
HasNoEnd [] = Unit
HasNoEnd (c ∷ l) = (c == 0 || c == 10 ≡ false) × HasNoEnd l

abbrev pub AreLines : List Bytes → Type 0
AreLines [] = Unit
AreLines (l ∷ ls) = HasNoEnd l × (length l ≤ 127) × AreLines ls

-- The lines, each with its newline.
abbrev pub text_of_lines : List Bytes → Bytes
text_of_lines [] = []
text_of_lines (l ∷ ls) = l ++ (10 ∷ text_of_lines ls)

read_line-HasNoEnd :
    (l s : Bytes) (room : ℕ)
    → HasNoEnd l
    → length l ≤ room
    → read_line room (l ++ (10 ∷ s)) ≡ (l, 10 ∷ s)
unfolding read_line
read_line-HasNoEnd [] s zero ok fits = refl
read_line-HasNoEnd [] s (suc room) ok fits = refl
read_line-HasNoEnd (c ∷ l) s zero ok fits = absurd (omega arith)
read_line-HasNoEnd (c ∷ l) s (suc room) ok fits =
    rw (read_line-HasNoEnd l s room ok.1 (omega arith), ok.0) refl

is_end-line : (l s : Bytes) → HasNoEnd l → is_end (l ++ (10 ∷ s)) ≡ false
is_end-line [] s ok = refl
is_end-line (c ∷ l) s ok = let this = ok.0 in ground arith

-- Of a page whose lines fit the line buffer the first lines that the window has room for are shown, each without its
-- leading blanks, in order, empty ones too, and the text from the first line without room on is left, for the
-- mark of a page that was cut.
pub page_lines-text :
    (ls : List Bytes) (n : ℕ)
    → AreLines ls
    → page_lines n (text_of_lines ls) ≡ (map trim (take n ls), text_of_lines (drop n ls))
unfolding page_lines skip_newline
page_lines-text [] zero ok = refl
page_lines-text (l ∷ ls) zero ok = refl
page_lines-text [] (suc n) ok = refl
page_lines-text (l ∷ ls) (suc n) ok =
    rw
      (
        is_end-line l (text_of_lines ls) ok.0,
        read_line-HasNoEnd l (text_of_lines ls) 127 ok.0 ok.1,
        page_lines-text ls n ok.2,
      )
      refl
