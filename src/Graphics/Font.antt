-- ===== src/Graphics/Font.antt =====
-- font.c: the glyphs, eight rows of eight pixels each, the highest bit of a row at the left.
use os_from_scratch_graphic.Prelude.{ℕ, List, [], ◌∷◌, ◌++◌, replicate}
use os_from_scratch_graphic.Endian.{Bytes}

abbrev glyph : ℕ → ℕ → ℕ → ℕ → ℕ → ℕ → ℕ → ℕ → Bytes
glyph a b c d e f g h = a ∷ b ∷ c ∷ d ∷ e ∷ f ∷ g ∷ h ∷ []

-- The 128 characters that a char which is not negative can name.
unfoldable pub font_ascii : List Bytes
font_ascii =
    glyph 0x00 0x00 0x00 0x00 0x00 0x00 0x00 0x00
    ∷ glyph 0x18 0x3c 0x3c 0x18 0x3c 0x24 0x3c 0x18
    ∷ glyph 0xc3 0xc3 0xc3 0x66 0x3c 0x18 0x3c 0x66
    ∷ glyph 0x6c 0x99 0x99 0x6c 0x99 0x99 0x6c 0x00
    ∷ glyph 0x66 0x95 0x81 0xff 0x81 0x95 0x66 0x00
    ∷ glyph 0x48 0x5a 0x14 0x3e 0x14 0x5a 0x48 0x00
    ∷ glyph 0x3c 0x42 0x5c 0x44 0x5c 0x42 0x3c 0x00
    ∷ glyph 0x00 0x18 0x18 0x18 0x18 0x00 0x18 0x00
    ∷ glyph 0x18 0x28 0x48 0x00 0x48 0x28 0x18 0x00
    ∷ glyph 0x3c 0x42 0x42 0x42 0x42 0x42 0x3c 0x00
    ∷ glyph 0x00 0x66 0x66 0x66 0xff 0x00 0x00 0x00
    ∷ glyph 0x0c 0x1c 0x3e 0x6e 0x3e 0x1c 0x0c 0x00
    ∷ glyph 0x00 0x00 0xff 0x66 0x66 0x66 0x00 0x00
    ∷ glyph 0x00 0x00 0x00 0x00 0x00 0xff 0x66 0x66
    ∷ glyph 0x0e 0x1e 0x3d 0x7b 0x77 0x6f 0x5e 0x1c
    ∷ glyph 0x7c 0xfe 0xdb 0xdb 0xdb 0xfe 0x7c 0x00
    ∷ glyph 0x04 0x0e 0x0e 0x0e 0x1f 0x1f 0x0e 0x04
    ∷ glyph 0x18 0x3c 0x7e 0x18 0x18 0x18 0x18 0x00
    ∷ glyph 0x18 0x3c 0x7e 0x3c 0x7e 0x3c 0x18 0x00
    ∷ glyph 0x6c 0x99 0x6c 0x99 0x6c 0x99 0x6c 0x00
    ∷ glyph 0x18 0x18 0x18 0x18 0x7e 0x3c 0x18 0x00
    ∷ glyph 0x00 0x00 0x00 0xe0 0x70 0x38 0x1c 0x0e
    ∷ glyph 0x3e 0x41 0x55 0x55 0x55 0x49 0x3e 0x00
    ∷ glyph 0x18 0x3c 0x7e 0x18 0x7e 0x3c 0x18 0x00
    ∷ glyph 0x18 0x18 0x18 0x18 0x18 0x18 0x18 0x18
    ∷ glyph 0x18 0x18 0x18 0x18 0x18 0x18 0x18 0x00
    ∷ glyph 0x18 0x3c 0x7e 0x18 0x7e 0x3c 0x18 0x00
    ∷ glyph 0x00 0x00 0x00 0x00 0x00 0x7c 0x38 0x10
    ∷ glyph 0x7f 0x40 0x40 0x40 0x40 0x40 0x40 0x7f
    ∷ glyph 0x7f 0x01 0x01 0x01 0x01 0x01 0x01 0x7f
    ∷ glyph 0x18 0x3c 0x7e 0x00 0x7e 0x3c 0x18 0x00
    ∷ glyph 0x7f 0x7f 0x7f 0x7f 0x7f 0x7f 0x7f 0x7f
    ∷ glyph 0x00 0x00 0x00 0x00 0x00 0x00 0x00 0x00
    ∷ glyph 0x18 0x18 0x18 0x18 0x18 0x00 0x18 0x00
    ∷ glyph 0x24 0x24 0x24 0x00 0x00 0x00 0x00 0x00
    ∷ glyph 0x24 0x24 0x7e 0x24 0x7e 0x24 0x24 0x00
    ∷ glyph 0x18 0x2a 0x2a 0x18 0x2a 0x2a 0x18 0x00
    ∷ glyph 0x63 0x66 0x0c 0x18 0x30 0x66 0xc6 0x00
    ∷ glyph 0x38 0x44 0x54 0x28 0x54 0x44 0x38 0x00
    ∷ glyph 0x18 0x18 0x18 0x00 0x00 0x00 0x00 0x00
    ∷ glyph 0x0c 0x18 0x20 0x20 0x20 0x18 0x0c 0x00
    ∷ glyph 0x30 0x18 0x04 0x04 0x04 0x18 0x30 0x00
    ∷ glyph 0x00 0x28 0x18 0x7e 0x18 0x28 0x00 0x00
    ∷ glyph 0x00 0x18 0x18 0x7e 0x18 0x18 0x00 0x00
    ∷ glyph 0x00 0x00 0x00 0x00 0x00 0x18 0x18 0x30
    ∷ glyph 0x00 0x00 0x00 0x7e 0x00 0x00 0x00 0x00
    ∷ glyph 0x00 0x00 0x00 0x00 0x00 0x18 0x18 0x00
    ∷ glyph 0x03 0x06 0x0c 0x18 0x30 0x60 0xc0 0x00
    ∷ glyph 0x3c 0x42 0x4a 0x52 0x5a 0x42 0x3c 0x00
    ∷ glyph 0x18 0x38 0x18 0x18 0x18 0x18 0x3c 0x00
    ∷ glyph 0x3c 0x42 0x02 0x04 0x08 0x10 0x7e 0x00
    ∷ glyph 0x3c 0x42 0x04 0x18 0x04 0x42 0x3c 0x00
    ∷ glyph 0x0c 0x1c 0x2c 0x4c 0x7e 0x0c 0x0c 0x00
    ∷ glyph 0x7e 0x40 0x7c 0x02 0x02 0x42 0x3c 0x00
    ∷ glyph 0x1c 0x20 0x40 0x7c 0x42 0x42 0x3c 0x00
    ∷ glyph 0x7e 0x02 0x04 0x08 0x10 0x20 0x20 0x00
    ∷ glyph 0x3c 0x42 0x42 0x3c 0x42 0x42 0x3c 0x00
    ∷ glyph 0x3c 0x42 0x42 0x3e 0x02 0x04 0x38 0x00
    ∷ glyph 0x00 0x18 0x18 0x00 0x18 0x18 0x00 0x00
    ∷ glyph 0x00 0x18 0x18 0x00 0x18 0x18 0x30 0x00
    ∷ glyph 0x0c 0x18 0x20 0x40 0x20 0x18 0x0c 0x00
    ∷ glyph 0x00 0x00 0x7e 0x00 0x7e 0x00 0x00 0x00
    ∷ glyph 0x30 0x18 0x04 0x02 0x04 0x18 0x30 0x00
    ∷ glyph 0x3c 0x42 0x04 0x08 0x18 0x00 0x18 0x00
    ∷ glyph 0x3c 0x42 0x55 0x55 0x5d 0x41 0x3e 0x00
    ∷ glyph 0x18 0x24 0x24 0x24 0x7e 0x42 0x42 0x00
    ∷ glyph 0x7c 0x42 0x42 0x7c 0x42 0x42 0x7c 0x00
    ∷ glyph 0x3c 0x42 0x40 0x40 0x40 0x42 0x3c 0x00
    ∷ glyph 0x7c 0x42 0x42 0x42 0x42 0x42 0x7c 0x00
    ∷ glyph 0x7e 0x40 0x40 0x7c 0x40 0x40 0x7e 0x00
    ∷ glyph 0x7e 0x40 0x40 0x7c 0x40 0x40 0x40 0x00
    ∷ glyph 0x3c 0x42 0x40 0x4e 0x42 0x42 0x3c 0x00
    ∷ glyph 0x42 0x42 0x42 0x7e 0x42 0x42 0x42 0x00
    ∷ glyph 0x3c 0x18 0x18 0x18 0x18 0x18 0x3c 0x00
    ∷ glyph 0x06 0x02 0x02 0x02 0x42 0x42 0x3c 0x00
    ∷ glyph 0x42 0x44 0x48 0x70 0x48 0x44 0x42 0x00
    ∷ glyph 0x40 0x40 0x40 0x40 0x40 0x40 0x7e 0x00
    ∷ glyph 0x42 0x66 0x5a 0x42 0x42 0x42 0x42 0x00
    ∷ glyph 0x42 0x62 0x52 0x4a 0x46 0x42 0x42 0x00
    ∷ glyph 0x3c 0x42 0x42 0x42 0x42 0x42 0x3c 0x00
    ∷ glyph 0x7c 0x42 0x42 0x7c 0x40 0x40 0x40 0x00
    ∷ glyph 0x3c 0x42 0x42 0x42 0x52 0x4a 0x3c 0x04
    ∷ glyph 0x7c 0x42 0x42 0x7c 0x48 0x44 0x42 0x00
    ∷ glyph 0x3c 0x42 0x40 0x3c 0x02 0x42 0x3c 0x00
    ∷ glyph 0x7e 0x18 0x18 0x18 0x18 0x18 0x18 0x00
    ∷ glyph 0x42 0x42 0x42 0x42 0x42 0x42 0x3c 0x00
    ∷ glyph 0x42 0x42 0x42 0x42 0x42 0x24 0x18 0x00
    ∷ glyph 0x42 0x42 0x42 0x5a 0x66 0x42 0x42 0x00
    ∷ glyph 0x42 0x24 0x18 0x18 0x24 0x42 0x42 0x00
    ∷ glyph 0x42 0x42 0x24 0x18 0x18 0x18 0x18 0x00
    ∷ glyph 0x7e 0x04 0x08 0x10 0x20 0x40 0x7e 0x00
    ∷ glyph 0x3c 0x20 0x20 0x20 0x20 0x20 0x3c 0x00
    ∷ glyph 0xc0 0x60 0x30 0x18 0x0c 0x06 0x03 0x00
    ∷ glyph 0x3c 0x04 0x04 0x04 0x04 0x04 0x3c 0x00
    ∷ glyph 0x18 0x24 0x00 0x00 0x00 0x00 0x00 0x00
    ∷ glyph 0x00 0x00 0x00 0x00 0x00 0x00 0x00 0xff
    ∷ glyph 0x18 0x0c 0x00 0x00 0x00 0x00 0x00 0x00
    ∷ glyph 0x00 0x00 0x3c 0x04 0x3e 0x44 0x3e 0x00
    ∷ glyph 0x40 0x40 0x7c 0x44 0x44 0x44 0x7c 0x00
    ∷ glyph 0x00 0x00 0x3c 0x40 0x40 0x40 0x3c 0x00
    ∷ glyph 0x04 0x04 0x3e 0x44 0x44 0x44 0x3e 0x00
    ∷ glyph 0x00 0x00 0x3c 0x44 0x7c 0x40 0x3c 0x00
    ∷ glyph 0x0c 0x10 0x7c 0x10 0x10 0x10 0x10 0x00
    ∷ glyph 0x00 0x00 0x3e 0x44 0x44 0x3e 0x04 0x78
    ∷ glyph 0x40 0x40 0x7c 0x44 0x44 0x44 0x44 0x00
    ∷ glyph 0x18 0x00 0x18 0x18 0x18 0x18 0x18 0x00
    ∷ glyph 0x0c 0x00 0x0c 0x0c 0x0c 0x0c 0x4c 0x38
    ∷ glyph 0x40 0x40 0x48 0x50 0x68 0x48 0x48 0x00
    ∷ glyph 0x18 0x18 0x18 0x18 0x18 0x18 0x1c 0x00
    ∷ glyph 0x00 0x00 0x6c 0x54 0x54 0x44 0x44 0x00
    ∷ glyph 0x00 0x00 0x7c 0x44 0x44 0x44 0x44 0x00
    ∷ glyph 0x00 0x00 0x3c 0x44 0x44 0x44 0x3c 0x00
    ∷ glyph 0x00 0x00 0x7c 0x44 0x44 0x7c 0x40 0x40
    ∷ glyph 0x00 0x00 0x3e 0x44 0x44 0x3e 0x04 0x04
    ∷ glyph 0x00 0x00 0x5c 0x64 0x40 0x40 0x40 0x00
    ∷ glyph 0x00 0x00 0x3e 0x40 0x3c 0x04 0x7c 0x00
    ∷ glyph 0x10 0x10 0x7c 0x10 0x10 0x14 0x0c 0x00
    ∷ glyph 0x00 0x00 0x44 0x44 0x44 0x44 0x3e 0x00
    ∷ glyph 0x00 0x00 0x44 0x44 0x44 0x28 0x18 0x00
    ∷ glyph 0x00 0x00 0x44 0x44 0x54 0x54 0x36 0x00
    ∷ glyph 0x00 0x00 0x48 0x30 0x30 0x48 0x48 0x00
    ∷ glyph 0x00 0x00 0x44 0x44 0x44 0x3e 0x04 0x78
    ∷ glyph 0x00 0x00 0x7c 0x08 0x10 0x20 0x7c 0x00
    ∷ glyph 0x0c 0x18 0x18 0x30 0x18 0x18 0x0c 0x00
    ∷ glyph 0x18 0x18 0x18 0x18 0x18 0x18 0x18 0x18
    ∷ glyph 0x30 0x18 0x18 0x0c 0x18 0x18 0x30 0x00
    ∷ glyph 0x36 0x18 0x00 0x00 0x00 0x00 0x00 0x00
    ∷ glyph 0x18 0x24 0x3c 0x42 0x7c 0x42 0x3c 0x00
    ∷ []

-- `// Fill the rest with zeros`: 120 rows of zeros, and the eight that the initializer leaves out.
unfoldable pub font_rest : List Bytes
font_rest = replicate 128 (glyph 0 0 0 0 0 0 0 0)

unfoldable pub font : List Bytes
unfolding font_ascii font_rest
font = font_ascii ++ font_rest
