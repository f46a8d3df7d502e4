-- ===== src/Base/Text.antt =====
-- Byte-string literals.
use Prim.Native.Char.{code}
use Prim.Native.String.{String}
use fgtw.Base.Bytes.{Bytes}
use mathlib.Core.List.{[], ◌∷◌}

-- The bytes of an ASCII literal.
abbrev pub codes : String → Bytes
codes String.[] = []
codes (String.◌∷◌ c s) = code c ∷ codes s
