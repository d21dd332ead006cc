-- ===== src/Common/Phone/Format.antt =====
-- `format_phone_e164` of validation.py: what its result can be.
use Prim.Native.String.{[], ◌∷◌}
use text.Mathlib.TextLemmas.{nil-append, cons-append}
use gex_test_jonatha.Prelude.{
  suc, ◌≤◌, ◌≡◌, refl, String, code, true, false, some, ◌⊎◌, inl, inr, arith, eqb, Bool-cases,
}
use gex_test_jonatha.Prelude.Strings.{◌+++◌, str_len}
use gex_test_jonatha.Common.Library.{Library}
use gex_test_jonatha.Common.Strip.{strip}
use gex_test_jonatha.Common.Phone.{
  plus_digits, is_phone_length, by_length, by_prefix, format_fallback, format_phone_e164,
}
use gex_test_jonatha.Common.Phone.Laws.{
  digits_of, dial, normalize_phone-eq, AllDigits, IsDialable, dial-IsDialable, digits_of_self,
}

module _ (l : Library) where
  -- Digits behind an optional plus sign, ten to fifteen of them.
  pub record IsPhone (s : String) : Type 0 where
    pub dialable : IsDialable l s
    pub enough : 10 ≤ str_len (digits_of l s)
    pub at_most : str_len (digits_of l s) ≤ 15

  module _ (plus_no_digit : l.is_digit b'+' ≡ false) (one_digit : l.is_digit b'1' ≡ true) where
    plus_one-IsPhone : (s : String) → AllDigits l s → str_len s ≡ 10 → IsPhone ("+1" +++ s)
    unfolding digits_of
    plus_one-IsPhone s h e = rw (cons-append "+" "1" s) (
        rw (cons-append "1" "" s) (
          rw (nil-append s) (record {
            dialable = (inl refl, (one_digit, h));
            enough = rw (plus_no_digit, one_digit, digits_of_self l s h) (omega arith);
            at_most = rw (plus_no_digit, one_digit, digits_of_self l s h) (omega arith);
          })))

    by_length-cases :
        (phone n d : String)
        → IsDialable l n
        → digits_of l n ≡ d
        → (by_length phone n d ≡ phone) ⊎ IsPhone (by_length phone n d)
    by_length-cases phone n d h e = elim (Bool-cases (is_phone_length (str_len d))) [
      | inl fits ↦ rw fits (
          inr
            (record { dialable = h; enough = rw e (ground arith); at_most = rw e (ground arith) }))
      | inr misfit ↦ rw misfit (inl refl)
    ]

    by_prefix-cases :
        (phone n : String)
        → IsDialable l n
        → (by_prefix phone n (plus_digits n) ≡ phone) ⊎ IsPhone (by_prefix phone n (plus_digits n))
    unfolding digits_of
    by_prefix-cases phone [] h = inl refl
    by_prefix-cases phone (c ∷ s) (m, h) = elim (Bool-cases (eqb (code c) b'+')) [
      | inl plus ↦
          rw plus (by_length-cases phone (c ∷ s) s (m, h) (ground (arith, digits_of_self l s h)))
      | inr other ↦
          let d : l.is_digit (code c) ≡ true = ground arith in
          rw other (elim (Bool-cases (eqb (suc (str_len s)) 10)) [
            | inl ten ↦ rw ten (inr (plus_one-IsPhone (c ∷ s) (d, h) (ground arith)))
            | inr longer ↦
                rw longer
                  (by_length-cases phone (c ∷ s) (c ∷ s) (m, h) (digits_of_self l (c ∷ s) (d, h)))
          ])
    ]

    format_fallback-cases :
        (phone : String) → (format_fallback l phone ≡ phone) ⊎ IsPhone (format_fallback l phone)
    unfolding format_fallback
    format_fallback-cases phone =
        rw (normalize_phone-eq l phone)
          (by_prefix-cases phone (dial l (strip l phone)) (dial-IsDialable l (strip l phone)))

    -- `format_phone_e164` leaves the text alone, or returns the library's E.164 form of a number that
    -- the library finds valid, or a text of ten to fifteen digits with an optional plus sign, if the
    -- plus sign is no digit and 1 is one.
    pub format_phone_e164-cases :
        (phone : String)
        → (format_phone_e164 l phone ≡ phone)
          ⊎ (((l.phone_check phone ≡ some true) × (format_phone_e164 l phone ≡ l.phone_e164 phone))
              ⊎ IsPhone (format_phone_e164 l phone))
    unfolding format_phone_e164
    format_phone_e164-cases phone = ground (arith, format_fallback-cases phone)
