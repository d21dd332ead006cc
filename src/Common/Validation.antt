-- ===== src/Common/Validation.antt =====
-- `validate_schema` of validation.py. The payload is updated in place there: here each step returns
-- the payload with the field replaced.
pub mod Laws
use gex_test_jonatha.Prelude.{
  ℕ, String, Bool, true, false, Option, none, some, List, [], ◌∷◌, ◌++◌, map, any, ◌||◌, not, eqb,
  ◌==◌, if◌then◌else◌,
}
use gex_test_jonatha.Prelude.Strings.{◌+++◌, is_empty, str_len}
use gex_test_jonatha.Exec.{Exn, message}
use gex_test_jonatha.Json.{Json, Fields, null, text, dict, get_or, set, type_name}
use gex_test_jonatha.Common.Models.{CustomerData, ProductData, WebhookPayload}
use gex_test_jonatha.Common.Library.{Library, PydanticError, Construct, built, invalid, failed}
use gex_test_jonatha.Common.Strip.{strip, is_blank, normalize_email}
use gex_test_jonatha.Common.Phone.{format_phone_e164}

pub record ValidationError : Type 0 where
  pub field : String
  pub message : String

pub record ValidationResult : Type 0 where
  pub is_valid : Bool
  pub payload : Option WebhookPayload
  pub errors : List ValidationError
  pub email_valid : Bool
  pub phone_valid : Bool
  pub name_defaulted : Bool

-- `".".join(parts)`
abbrev pub join : String → List String → String
join sep [] = ""
join sep (p ∷ []) = p
join sep (p ∷ q ∷ ps) = p +++ sep +++ join sep (q ∷ ps)

-- One entry of the `except PydanticValidationError` loop.
abbrev pub of_pydantic : PydanticError → ValidationError
of_pydantic e = record { field = join "." e.loc; message = e.msg }

abbrev pub names_email : ValidationError → Bool
names_email e = e.field == "customer.email"

abbrev pub rejected_by_pydantic : List PydanticError → ValidationResult
rejected_by_pydantic es = record {
  is_valid = false;
  payload = none;
  errors = map of_pydantic es;
  email_valid = not (any names_email (map of_pydantic es));
  phone_valid = true;
  name_defaulted = false;
}

abbrev pub construct_failed : String → ValidationResult
construct_failed m = record {
  is_valid = false;
  payload = none;
  errors = record { field = "__construct__"; message = "Failed to construct payload: " +++ m } ∷ [];
  email_valid = true;
  phone_valid = true;
  name_defaulted = false;
}

-- `errors.append(...)` under a test
abbrev pub error_if : Bool → String → String → List ValidationError
error_if b f m = if b then record { field = f; message = m } ∷ [] else []

-- The keyword arguments of `WebhookPayload(**{**data, "gateway": …, "correlation_id": …})`.
abbrev pub with_defaults : Fields → Fields
with_defaults d =
    set (set d "gateway" (get_or d "gateway" (text ""))) "correlation_id"
      (get_or d "correlation_id" (text ""))

module _ (l : Library) where
  abbrev pub missing : String → String → List ValidationError
  missing f val = error_if (is_blank l val) f ("Missing required field: " +++ f)

  -- the email is blank once stripped
  unfoldable pub is_blank_email : String → Bool
  unfolding strip
  is_blank_email s = is_empty (strip l s)

  unfoldable pub is_bad_country : String → Bool
  unfolding strip
  is_bad_country s = is_empty s || not (eqb (str_len (strip l s)) 2)

  unfoldable pub is_blank_method : String → Bool
  unfolding strip
  is_blank_method s = is_empty (strip l s)

  -- all checks, in the order of the source
  unfoldable pub check_fields : WebhookPayload → List ValidationError
  check_fields p =
      missing "transaction_id" p.transaction_id
      ++ (missing "event" p.event
          ++ (error_if (is_blank_email p.customer.email) "customer.email"
                "Missing required field: customer.email"
              ++ (error_if (is_bad_country p.customer.country) "customer.country"
                    "customer.country must be a 2-letter ISO 3166-1 alpha-2 code"
                  ++ (missing "product.id" p.product.id
                      ++ (missing "product.name" p.product.name
                          ++ (missing "product.niche" p.product.niche
                              ++ error_if (is_blank_method p.payment.method) "payment.method"
                                  "Missing required field: payment.method"))))))

  -- the email that is normalised, and the name that is defaulted, along the checks
  unfoldable pub normalize_customer : CustomerData → CustomerData
  normalize_customer c = record c {
    email = if is_blank_email c.email then c.email else normalize_email l c.email;
    first_name = if is_blank l c.first_name then "Customer" else c.first_name;
  }

  -- `if payload.customer.phone:` and the formatting
  unfoldable pub normalize_customer_phone : Option String → Option String
  normalize_customer_phone none = none
  normalize_customer_phone (some phone) =
      some (if is_empty phone then phone else format_phone_e164 l phone)

  abbrev checked_phone : Option Bool → Bool
  checked_phone none = false
  checked_phone (some valid) = valid

  -- `phone_valid`, from the phone that was formatted
  unfoldable pub is_phone_valid : Option String → Bool
  is_phone_valid none = true
  is_phone_valid (some phone) =
      if is_empty phone then true else checked_phone (l.phone_check (format_phone_e164 l phone))

  unfoldable pub normalized_payload : WebhookPayload → WebhookPayload
  unfolding normalize_customer normalize_customer_phone
  normalized_payload p =
      let c = normalize_customer p.customer in
      record p { customer = record c { phone = normalize_customer_phone c.phone } }

  -- what follows the construction
  unfoldable pub conclude : WebhookPayload → List ValidationError → ValidationResult
  unfolding normalized_payload is_phone_valid
  conclude p [] = record {
    is_valid = true;
    payload = some (normalized_payload p);
    errors = [];
    email_valid = true;
    phone_valid = is_phone_valid p.customer.phone;
    name_defaulted = is_blank l p.customer.first_name;
  }
  conclude p (e ∷ es) = record {
    is_valid = false;
    payload = none;
    errors = e ∷ es;
    email_valid = not (is_blank_email p.customer.email);
    phone_valid = true;
    name_defaulted = false;
  }

  unfoldable pub after_construct : Construct → ValidationResult
  unfolding check_fields conclude
  after_construct (built p) = conclude p (check_fields p)
  after_construct (invalid es) = rejected_by_pydantic es
  after_construct (failed e) = construct_failed (message e)

  -- a body that is no dict raises a TypeError in `{**data, …}`
  unfoldable pub validate_schema : Json → ValidationResult
  unfolding after_construct
  validate_schema (dict d) = after_construct (l.webhook_payload (with_defaults d))
  validate_schema v = construct_failed ("'" +++ type_name v +++ "' object is not a mapping")
