-- ===== src/Base/Codes.antt =====
-- The code points of a text.
use Prim.Native.Nat.{ℕ}
use Prim.Native.Char.{code}
use Prim.Native.String.{String, [], ◌∷◌}
use mathlib.Core.List.{List, [] as []ᴸ, ◌∷◌ as ◌∷ᴸ◌}

unfoldable pub codes : String → List ℕ
codes [] = []ᴸ
codes (c ∷ s) = code c ∷ᴸ codes s
