-- ===== src/Common/Validation/Laws.antt =====
-- What `validate_schema` of validation.py promises.
use gex_test_jonatha.Prelude.{
  ◌≡◌, ◌↔◌, refl, String, Bool, true, false, none, some, List, [], ◌∷◌, ◌++◌, not, arith,
}
use gex_test_jonatha.Prelude.Strings.{str_len, is_empty}
use gex_test_jonatha.Json.{Json, Fields, dict}
use gex_test_jonatha.Common.Models.{WebhookPayload}
use gex_test_jonatha.Common.Library.{Library, Construct, built, invalid, failed}
use gex_test_jonatha.Common.Strip.{strip, is_blank}
use gex_test_jonatha.Common.Strip.Laws.{has_text, is_blank-eq, is_empty-strip}
use gex_test_jonatha.Common.Validation.{
  ValidationError, validate_schema, after_construct, conclude, check_fields, error_if,
  is_blank_email, is_bad_country, is_blank_method, normalized_payload, with_defaults,
}

append-eq-nil : {A : Type 0} (xs ys : List A) → xs ++ ys ≡ [] → (xs ≡ []) × (ys ≡ [])
append-eq-nil [] ys h = (refl, h)
append-eq-nil (x ∷ xs) ys h = cc

error_if-eq-nil : (b : Bool) (f m : String) → error_if b f m ≡ [] → b ≡ false
error_if-eq-nil true f m h = cc
error_if-eq-nil false f m h = refl

of_not-eq-false : (b : Bool) → not b ≡ false → b ≡ true
of_not-eq-false true h = refl
of_not-eq-false false h = cc

module _ (l : Library) where
  not_blank : (s : String) → is_blank l s ≡ false → has_text l s ≡ true
  not_blank s h = of_not-eq-false _ (rw is_blank-eq at h)

  not_blank-strip : (s : String) → is_empty (strip l s) ≡ false → has_text l s ≡ true
  not_blank-strip s h = of_not-eq-false _ (rw is_empty-strip at h)

  country-length : (s : String) → is_bad_country l s ≡ false → str_len (strip l s) ≡ 2
  unfolding is_bad_country
  country-length s h = ground arith

  is_bad_country-false : (s : String) → str_len (strip l s) ≡ 2 → is_bad_country l s ≡ false
  unfolding is_bad_country strip
  is_bad_country-false String.[] h = cc
  is_bad_country-false (String.◌∷◌ c s) h = ground arith

  -- The required texts have a character that is no space, and the country has two characters.
  pub record IsComplete (p : WebhookPayload) : Type 0 where
    pub transaction_id : has_text l p.transaction_id ≡ true
    pub event : has_text l p.event ≡ true
    pub email : has_text l p.customer.email ≡ true
    pub country : str_len (strip l p.customer.country) ≡ 2
    pub product_id : has_text l p.product.id ≡ true
    pub product_name : has_text l p.product.name ≡ true
    pub product_niche : has_text l p.product.niche ≡ true
    pub method : has_text l p.payment.method ≡ true

  check_fields_sound : (p : WebhookPayload) → check_fields l p ≡ [] → IsComplete p
  unfolding check_fields is_blank_email is_blank_method
  check_fields_sound p h =
      let (t, h1) = append-eq-nil _ _ h in
      let (e, h2) = append-eq-nil _ _ h1 in
      let (m, h3) = append-eq-nil _ _ h2 in
      let (c, h4) = append-eq-nil _ _ h3 in
      let (i, h5) = append-eq-nil _ _ h4 in
      let (n, h6) = append-eq-nil _ _ h5 in
      let (k, h7) = append-eq-nil _ _ h6 in
      record {
        transaction_id = not_blank _ (error_if-eq-nil _ _ _ t);
        event = not_blank _ (error_if-eq-nil _ _ _ e);
        email = not_blank-strip _ (error_if-eq-nil _ _ _ m);
        country = country-length _ (error_if-eq-nil _ _ _ c);
        product_id = not_blank _ (error_if-eq-nil _ _ _ i);
        product_name = not_blank _ (error_if-eq-nil _ _ _ n);
        product_niche = not_blank _ (error_if-eq-nil _ _ _ k);
        method = not_blank-strip _ (error_if-eq-nil _ _ _ h7);
      }

  check_fields_complete : (p : WebhookPayload) → IsComplete p → check_fields l p ≡ []
  unfolding check_fields is_blank_email is_blank_method
  check_fields_complete p h = simp (
    is_blank-eq,
    is_empty-strip,
    h.transaction_id,
    h.event,
    h.email,
    h.product_id,
    h.product_name,
    h.product_niche,
    h.method,
    is_bad_country-false p.customer.country h.country,
  )

  conclude-is_valid :
      (p : WebhookPayload) (es : List ValidationError)
      → (conclude l p es).is_valid ≡ true
      → (es ≡ []) × ((conclude l p es).payload ≡ some (normalized_payload l p))
  unfolding conclude
  conclude-is_valid p [] h = (refl, refl)
  conclude-is_valid p (e ∷ es) h = cc

  after_construct-is_valid :
      (c : Construct)
      → (after_construct l c).is_valid ≡ true
      → (p : WebhookPayload) × (c ≡ built p)
        × IsComplete p
        × ((after_construct l c).payload ≡ some (normalized_payload l p))
  unfolding after_construct
  after_construct-is_valid (built p) h =
      let (e, q) = conclude-is_valid p (check_fields l p) h in (p, refl, check_fields_sound p e, q)
  after_construct-is_valid (invalid es) h = cc
  after_construct-is_valid (failed e) h = cc

  -- The body is a dict that pydantic builds into a complete payload.
  pub record IsAccepted (v : Json) (p : WebhookPayload) : Type 0 where
    pub fields : Fields
    pub is_dict : v ≡ dict fields
    pub construct : l.webhook_payload (with_defaults fields) ≡ built p
    pub complete : IsComplete p

  validate_schema_sound :
      (v : Json)
      → (validate_schema l v).is_valid ≡ true
      → (p : WebhookPayload) × IsAccepted v p
        × ((validate_schema l v).payload ≡ some (normalized_payload l p))
  unfolding validate_schema
  validate_schema_sound (dict d) h =
      let (p, e, c, q) = after_construct-is_valid (l.webhook_payload (with_defaults d)) h in
      (p, record { fields = d; is_dict = refl; construct = e; complete = c }, q)
  validate_schema_sound v h = cc

  validate_schema_complete :
      (v : Json) (p : WebhookPayload)
      → IsAccepted v p
      → ((validate_schema l v).is_valid ≡ true)
        × ((validate_schema l v).payload ≡ some (normalized_payload l p))
  unfolding validate_schema conclude after_construct
  validate_schema_complete v p h =
      rw h.is_dict (rw h.construct (rw (check_fields_complete p h.complete) (refl, refl)))

  -- A body is found valid exactly when it is a dict that pydantic builds into a complete payload,
  -- and for such a payload the result carries it, normalised.
  pub validate_schema_iff :
      (v : Json)
      → (((validate_schema l v).is_valid ≡ true) ↔ ((p : WebhookPayload) × IsAccepted v p))
        × ((p : WebhookPayload)
            → IsAccepted v p
            → (validate_schema l v).payload ≡ some (normalized_payload l p))
  validate_schema_iff v = (
    (
      λ h. let (p, a, _) = validate_schema_sound v h in (p, a),
      λ h. (validate_schema_complete v h.0 h.1).0,
    ),
    λ p a. (validate_schema_complete v p a).1,
  )

  conclude-payload :
      (p : WebhookPayload) (es : List ValidationError)
      → ((conclude l p es).payload ≡ none) ↔ ((conclude l p es).is_valid ≡ false)
  unfolding conclude
  conclude-payload p [] = (λ h. cc, λ h. cc)
  conclude-payload p (e ∷ es) = (λ _. refl, λ _. refl)

  after_construct-payload :
      (c : Construct)
      → ((after_construct l c).payload ≡ none) ↔ ((after_construct l c).is_valid ≡ false)
  unfolding after_construct
  after_construct-payload (built p) = conclude-payload p (check_fields l p)
  after_construct-payload (invalid es) = (λ _. refl, λ _. refl)
  after_construct-payload (failed e) = (λ _. refl, λ _. refl)

  -- The result lacks a payload exactly when the body is found invalid.
  pub payload_iff :
      (v : Json) → ((validate_schema l v).payload ≡ none) ↔ ((validate_schema l v).is_valid ≡ false)
  unfolding validate_schema
  payload_iff (dict d) = after_construct-payload (l.webhook_payload (with_defaults d))
  payload_iff v = (λ _. refl, λ _. refl)
