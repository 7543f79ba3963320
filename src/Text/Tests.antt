-- ===== src/Text/Tests.antt =====
-- string.c on concrete texts.
use os_from_scratch_graphic.Prelude.{◌≡◌, refl, some, [], ◌∷◌, ◌++◌}
use os_from_scratch_graphic.Endian.{Bytes}
use os_from_scratch_graphic.Text.{strstr, snprintf, atoi}
use os_from_scratch_graphic.Text.Literals.{codes}

-- "GET /" with bytes behind its terminator.
abbrev request : Bytes
request = codes "GET /" ++ (0 ∷ 71 ∷ [])

strstr_runs : strstr (codes "a: Location: /x") (codes "Location:") ≡ some 3
unfolding strstr
strstr_runs = refl

atoi_runs : atoi (codes "8080/") ≡ 8080
unfolding atoi
atoi_runs = refl

-- `%d` is no conversion: it is copied as it stands.
snprintf_percent_d : snprintf 16 (codes "ok=%d") [] ≡ codes "ok=%d" ++ (0 ∷ [])
unfolding snprintf
snprintf_percent_d = refl
