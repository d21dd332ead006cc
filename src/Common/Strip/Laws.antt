-- ===== src/Common/Strip/Laws.antt =====
-- What blank texts are: `not s or not s.strip()` of validation.py.
use Prim.Native.String.{[], ◌∷◌}
use gex_test_jonatha.Prelude.{String, Char, code, ◌≡◌, refl, Bool, true, false, ◌||◌, not, arith}
use gex_test_jonatha.Prelude.Strings.{is_empty}
use gex_test_jonatha.Common.Library.{Library}
use gex_test_jonatha.Common.Strip.{strip_left, strip_right, strip, is_blank, cons_unless}

module _ (l : Library) where
  -- Some character is no space.
  abbrev pub has_text : String → Bool
  has_text [] = false
  has_text (c ∷ s) = not (l.is_space (code c)) || has_text s

  has_text-strip_left : (s : String) → has_text (strip_left l s) ≡ has_text s
  unfolding strip_left
  has_text-strip_left [] = refl
  has_text-strip_left (c ∷ s) = ground (arith, has_text-strip_left s)

  is_empty-cons_unless :
      (b : Bool) (c : Char) (s : String) (t : Bool)
      → is_empty s ≡ not t
      → is_empty (cons_unless b c s) ≡ not (not b || t)
  is_empty-cons_unless true c [] t h = h
  is_empty-cons_unless true c (_ ∷ _) t h = h
  is_empty-cons_unless false c s t h = refl

  is_empty-strip_right : (s : String) → is_empty (strip_right l s) ≡ not (has_text s)
  unfolding strip_right
  is_empty-strip_right [] = refl
  is_empty-strip_right (c ∷ s) =
      is_empty-cons_unless (l.is_space (code c)) c (strip_right l s) (has_text s)
        (is_empty-strip_right s)

  pub is_empty-strip : (s : String) → is_empty (strip l s) ≡ not (has_text s)
  unfolding strip
  is_empty-strip s = rw (is_empty-strip_right (strip_left l s), has_text-strip_left s)

  -- A text is blank exactly when it has no character but spaces.
  pub is_blank-eq : (s : String) → is_blank l s ≡ not (has_text s)
  unfolding is_blank
  is_blank-eq [] = refl
  is_blank-eq (c ∷ s) = is_empty-strip (c ∷ s)
