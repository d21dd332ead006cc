-- ===== src/Common/Phone/Laws.antt =====
-- What the phone functions of validation.py return.
use Prim.Native.String.{[], ◌∷◌}
use text.Mathlib.TextLemmas.{nil-append, cons-append, append-nil, append_assoc}
use gex_test_jonatha.Prelude.{
  ℕ, suc, ◌≡◌, refl, sym, ap, ◌∙◌, String, Char, code, true, false, some, ◌⊎◌, inl, inr, arith, eqb,
  if◌then◌else◌, Bool-cases,
}
use gex_test_jonatha.Prelude.Strings.{◌+++◌}
use gex_test_jonatha.Common.Library.{Library}
use gex_test_jonatha.Common.Strip.{strip, strip_right}
use gex_test_jonatha.Common.Phone.{push, keep, phone_loop, normalize_phone}

single-append : (c : Char) (s : String) → (c ∷ []) +++ s ≡ c ∷ s
single-append c s = cons-append c [] s ∙ ap (λ (t : String). c ∷ t) (nil-append s)

module _ (l : Library) where
  -- the digits of a text, in order
  unfoldable pub digits_of : String → String
  digits_of [] = []
  digits_of (c ∷ s) = if l.is_digit (code c) then c ∷ digits_of s else digits_of s

  -- what is dialled: the digits, behind a plus sign if the text begins with one
  unfoldable pub dial : String → String
  unfolding digits_of
  dial [] = []
  dial (c ∷ s) = if eqb (code c) b'+' then c ∷ digits_of s else digits_of (c ∷ s)

  keep-suc :
      (i : ℕ) (result : String) (c : Char)
      → keep l (suc i) result c ≡ (if l.is_digit (code c) then push result c else result)
  keep-suc i result c = ground arith

  phone_loop-suc :
      (i : ℕ) (result s : String) → phone_loop l (suc i) result s ≡ result +++ digits_of s
  unfolding phone_loop digits_of
  phone_loop-suc i result [] = sym (append-nil result)
  phone_loop-suc i result (c ∷ s) = elim (Bool-cases (l.is_digit (code c))) [
    | inl is_one ↦
        phone_loop-suc (suc i) (keep l (suc i) result c) s
        ∙ rw (keep-suc i result c, is_one)
            (append_assoc result (c ∷ []) (digits_of s)
              ∙ ap (λ (t : String). result +++ t) (single-append c (digits_of s)))
    | inr is_not ↦
        phone_loop-suc (suc i) (keep l (suc i) result c) s ∙ rw (keep-suc i result c, is_not)
  ]

  phone_loop-zero : (s : String) → phone_loop l 0 "" s ≡ dial s
  unfolding phone_loop dial
  phone_loop-zero [] = refl
  phone_loop-zero (c ∷ s) =
      phone_loop-suc 0 (keep l 0 "" c) s
      ∙ ground (arith, nil-append (c ∷ []), nil-append (digits_of s), single-append c (digits_of s))

  -- Every character is a digit.
  abbrev pub AllDigits : String → Type 0
  AllDigits [] = Unit
  AllDigits (c ∷ s) = (l.is_digit (code c) ≡ true) × AllDigits s

  -- Digits, behind an optional plus sign.
  abbrev pub IsDialable : String → Type 0
  IsDialable [] = Unit
  IsDialable (c ∷ s) = ((code c ≡ b'+') ⊎ (l.is_digit (code c) ≡ true)) × AllDigits s

  digits_of-AllDigits : (s : String) → AllDigits (digits_of s)
  unfolding digits_of
  digits_of-AllDigits [] = tt
  digits_of-AllDigits (c ∷ s) = ground (arith, digits_of-AllDigits s)

  IsDialable-of_AllDigits : (s : String) → AllDigits s → IsDialable s
  IsDialable-of_AllDigits [] h = tt
  IsDialable-of_AllDigits (c ∷ s) (d, h) = (inr d, h)

  pub dial-IsDialable : (s : String) → IsDialable (dial s)
  unfolding dial
  dial-IsDialable [] = tt
  dial-IsDialable (c ∷ s) = elim (Bool-cases (eqb (code c) b'+')) [
    | inl plus ↦ rw plus (inl (ground arith), digits_of-AllDigits s)
    | inr other ↦
        rw other (IsDialable-of_AllDigits (digits_of (c ∷ s)) (digits_of-AllDigits (c ∷ s)))
  ]

  pub digits_of_self : (s : String) → AllDigits s → digits_of s ≡ s
  unfolding digits_of
  digits_of_self [] h = refl
  digits_of_self (c ∷ s) (d, h) = rw (d, digits_of_self s h)

  dial_self : (s : String) → IsDialable s → dial s ≡ s
  unfolding dial digits_of
  dial_self [] h = refl
  dial_self (c ∷ s) (d, h) = ground (arith, digits_of_self s h)

  -- `normalize_phone` returns the digits of the stripped text, with its plus sign if that comes first.
  pub normalize_phone-eq : (phone : String) → normalize_phone l (some phone) ≡ dial (strip l phone)
  unfolding normalize_phone
  normalize_phone-eq phone = phone_loop-zero (strip l phone)

  -- Neither a plus sign nor a digit is a space.
  abbrev pub MarksNoSpace : Type 0
  MarksNoSpace = (l.is_space b'+' ≡ false) × ((n : ℕ) → l.is_digit n ≡ true → l.is_space n ≡ false)

  strip_right-AllDigits : MarksNoSpace → (s : String) → AllDigits s → strip_right l s ≡ s
  unfolding strip_right
  strip_right-AllDigits m [] h = refl
  strip_right-AllDigits m (c ∷ s) (d, h) = rw (strip_right-AllDigits m s h, m.1 (code c) d)

  strip-IsDialable : MarksNoSpace → (s : String) → IsDialable s → strip l s ≡ s
  unfolding strip
  strip-IsDialable m [] h = refl
  strip-IsDialable m (c ∷ s) (d, h) =
      let solid : l.is_space (code c) ≡ false = elim d [
        | inl p ↦ rw p m.0
        | inr q ↦ m.1 (code c) q
      ] in
      rw solid (rw (solid, strip_right-AllDigits m s h))

  -- Normalising a phone number a second time changes nothing, if neither a plus sign nor a digit is
  -- a space.
  pub normalize_phone_idem :
      MarksNoSpace
      → (phone : String)
      → normalize_phone l (some (normalize_phone l (some phone))) ≡ normalize_phone l (some phone)
  normalize_phone_idem m phone =
      rw (normalize_phone-eq phone, normalize_phone-eq)
        (rw (strip-IsDialable m _ (dial-IsDialable (strip l phone)))
          (dial_self _ (dial-IsDialable (strip l phone))))
