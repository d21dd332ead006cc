-- ===== src/Common/Phone.antt =====
-- The phone functions of validation.py, and `normalize_name`.
pub mod Laws
pub mod Format
use Prim.Native.String
use Prim.Native.String.{[], ◌∷◌}
use gex_test_jonatha.Prelude.{
  ℕ, zero, suc, String, Char, code, Bool, true, false, Option, none, some, ◌&&◌, eqb, leb,
  if◌then◌else◌,
}
use gex_test_jonatha.Prelude.Strings.{◌+++◌, is_empty, str_len}
use gex_test_jonatha.Common.Library.{Library}
use gex_test_jonatha.Common.Strip.{strip, is_blank}

-- `result += ch`
abbrev pub push : String → Char → String
push s c = s +++ (c ∷ [])

-- `normalized.startswith("+")`, and the digits behind it
abbrev pub plus_digits : String → Option String
plus_digits [] = none
plus_digits (c ∷ s) = if eqb (code c) b'+' then some s else none

-- `10 <= len(digits_only) <= 15`
abbrev pub is_phone_length : ℕ → Bool
is_phone_length n = leb 10 n && leb n 15

abbrev pub by_length : String → String → String → String
by_length phone normalized digits_only =
    if is_phone_length (str_len digits_only) then normalized else phone

abbrev pub by_prefix : String → String → Option String → String
by_prefix phone normalized (some digits_only) = by_length phone normalized digits_only
by_prefix phone normalized none =
    if eqb (str_len normalized) 10
    then "+1" +++ normalized
    else by_length phone normalized normalized

module _ (l : Library) where
  -- one round of the loop of `normalize_phone`, at index `i`
  abbrev pub keep : ℕ → String → Char → String
  keep i result ch =
      if eqb (code ch) b'+' && eqb i 0
      then push result ch
      else if l.is_digit (code ch)
      then push result ch
      else result

  unfoldable pub phone_loop : ℕ → String → String → String
  phone_loop i result [] = result
  phone_loop i result (ch ∷ s) = phone_loop (suc i) (keep i result ch) s

  unfoldable pub normalize_phone : Option String → String
  unfolding phone_loop strip
  normalize_phone none = ""
  normalize_phone (some phone) = phone_loop 0 "" (strip l phone)

  unfoldable pub validate_phone : Option String → Bool
  validate_phone none = false
  validate_phone (some phone) =
      if is_empty phone then false else elim (l.phone_check phone) [ none ↦ false | some b ↦ b ]

  -- what follows the `try` of `format_phone_e164`
  unfoldable pub format_fallback : String → String
  unfolding normalize_phone
  format_fallback phone =
      let normalized = normalize_phone (some phone) in
      by_prefix phone normalized (plus_digits normalized)

  unfoldable pub format_phone_e164 : String → String
  unfolding format_fallback
  format_phone_e164 phone = if is_empty phone then phone else elim (l.phone_check phone) [
    | none ↦ format_fallback phone
    | some valid ↦ if valid then l.phone_e164 phone else format_fallback phone
  ]

  unfoldable pub normalize_name : Option String → String
  unfolding strip is_blank
  normalize_name none = "Customer"
  normalize_name (some name) = if is_blank l name then "Customer" else strip l name

  unfoldable pub validate_email : String → Bool
  validate_email email = l.email_ok email
