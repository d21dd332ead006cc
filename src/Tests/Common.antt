-- ===== src/Tests/Common.antt =====
-- The theorems on the shared package, applied.
use gex_test_jonatha.Prelude.{◌≡◌, ◌↔◌, refl, true, some, arith, String}
use gex_test_jonatha.Exec.{decryption, ok}
use gex_test_jonatha.Json.{dict}
use gex_test_jonatha.Common.Models.{WebhookPayload}
use gex_test_jonatha.Common.Library.{Bytes}
use gex_test_jonatha.Common.Crypto.{decrypt_grummer, decrypt_bytes}
use gex_test_jonatha.Common.Crypto.Laws.{decrypt_error_class, decrypt_grummer_iff, HasLengths}
use gex_test_jonatha.Common.Strip.{strip}
use gex_test_jonatha.Common.Phone.{normalize_phone}
use gex_test_jonatha.Common.Phone.Laws.{normalize_phone-eq, dial, MarksNoSpace}
use gex_test_jonatha.Common.Validation.{validate_schema, normalized_payload}
use gex_test_jonatha.Common.Validation.Laws.{validate_schema_iff, IsAccepted}
use gex_test_jonatha.Tests.Data.{library, short_key, lead_fields}

decrypt_error_class_example :
    (m : String) × (decryption "Invalid AES key length: n bytes (expected one of [16, 24, 32])"
      ≡ decryption m)
unfolding decrypt_grummer
decrypt_error_class_example =
    decrypt_error_class short_key "iv" "text" "00"
      (decryption "Invalid AES key length: n bytes (expected one of [16, 24, 32])") refl

decrypt_grummer_iff_example : (decrypt_grummer library "iv" "text" "00" ≡ ok "{}") ↔ (
    (key : Bytes) × (iv : Bytes) × (ciphertext : Bytes) × (library.from_hex "00" ≡ ok key)
    × (library.b64decode "iv" ≡ ok iv)
    × (library.b64decode "text" ≡ ok ciphertext)
    × HasLengths key iv ciphertext
    × (decrypt_bytes library key iv ciphertext ≡ ok "{}"))
decrypt_grummer_iff_example = decrypt_grummer_iff library "iv" "text" "00" "{}"

normalize_phone-eq_example :
    normalize_phone library (some " +1 (555) 1") ≡ dial library (strip library " +1 (555) 1")
normalize_phone-eq_example = normalize_phone-eq library " +1 (555) 1"

marks : MarksNoSpace library
marks = (refl, λ n h. ground arith)

validate_schema_iff_example :
    (((validate_schema library (dict lead_fields)).is_valid ≡ true)
      ↔ ((p : WebhookPayload) × IsAccepted library (dict lead_fields) p))
    × ((p : WebhookPayload)
        → IsAccepted library (dict lead_fields) p
        → (validate_schema library (dict lead_fields)).payload
          ≡ some (normalized_payload library p))
validate_schema_iff_example = validate_schema_iff library (dict lead_fields)
