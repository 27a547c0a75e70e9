-- ===== src/Base/Text.antt =====
-- Texts as byte strings.
use Prim.Native.Char.{code}
use Prim.Native.String.{String}
use mathlib.Core.List.{[], ◌∷◌}
use armored_witness_os.Base.ByteStrings.{Bytes}

-- The code points of a text, which are its bytes if it is ASCII.
abbrev pub codes : String → Bytes
codes String.[] = []
codes (String.◌∷◌ c s) = code c ∷ codes s
