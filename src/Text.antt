-- ===== src/Text.antt =====
-- The bytes of the names that the C code writes as string literals.
use Prim.Native.Char.{code}
use Prim.Native.String.{String}
use move.Base.{ℕ, List, [], ◌∷◌}

abbrev pub codes : String → List ℕ
codes String.[] = []
codes (String.◌∷◌ c s) = code c ∷ codes s
