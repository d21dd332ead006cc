-- ===== src/Prelude/Strings.antt =====
-- Python's `str` as the native text: its characters are code points.
use Prim.Native.Nat.{ℕ, zero, suc}
use Prim.Native.String
use Prim.Native.String.{String, [], ◌∷◌}
use mathlib.Core.Bool.{Bool, true, false}

infixr 65 ◌+++◌
-- `a + b` on texts
abbrev pub ◌+++◌ : String → String → String
a +++ b = String.◌++◌ a b

-- `not s`
abbrev pub is_empty : String → Bool
is_empty [] = true
is_empty (_ ∷ _) = false

-- `len(s)`, in code points
abbrev pub str_len : String → ℕ
str_len [] = 0
str_len (_ ∷ s) = suc (str_len s)

-- `s[:n]`
abbrev pub str_take : ℕ → String → String
str_take zero s = []
str_take (suc n) [] = []
str_take (suc n) (c ∷ s) = c ∷ str_take n s
