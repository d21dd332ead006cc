-- ===== src/Common/Strip.antt =====
-- `str.strip` of Python, and the tests for blank texts of validation.py.
pub mod Laws
use Prim.Native.String
use Prim.Native.String.{[], ◌∷◌}
use gex_test_jonatha.Prelude.{
  ℕ, String, Char, code, ◌≡◌, refl, Bool, true, false, ◌||◌, ◌&&◌, arith, if◌then◌else◌, Bool-cases,
  inl, inr, ◌⊎◌, ap, sym, ◌∙◌,
}
use gex_test_jonatha.Prelude.Strings.{is_empty}
use gex_test_jonatha.Common.Library.{Library}

abbrev pub cons_unless : Bool → Char → String → String
cons_unless true c [] = []
cons_unless b c s = c ∷ s

module _ (l : Library) where
  unfoldable pub strip_left : String → String
  strip_left [] = []
  strip_left (c ∷ s) = let rest = strip_left s in if l.is_space (code c) then rest else c ∷ s

  -- a space is dropped where nothing but spaces follows
  unfoldable pub strip_right : String → String
  strip_right [] = []
  strip_right (c ∷ s) = cons_unless (l.is_space (code c)) c (strip_right s)

  unfoldable pub strip : String → String
  unfolding strip_left strip_right
  strip s = strip_right (strip_left s)

  -- `not s or not s.strip()`
  unfoldable pub is_blank : String → Bool
  unfolding strip
  is_blank s = is_empty s || is_empty (strip s)

  unfoldable pub normalize_email : String → String
  unfolding strip
  normalize_email email = l.lower (strip email)
