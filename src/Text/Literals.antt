-- ===== src/Text/Literals.antt =====
-- The bytes of the text literals of the source.
use Prim.Native.Char.{code}
use Prim.Native.String.{String}
use os_from_scratch_graphic.Prelude.{[], ◌∷◌}
use os_from_scratch_graphic.Endian.{Bytes}

abbrev pub codes : String → Bytes
codes String.[] = []
codes (String.◌∷◌ c s) = code c ∷ codes s
