-- ===== src/Receiver/Routes/Encrypted.antt =====
-- An encrypted webhook of grummer against the same webhook in the clear.
use gex_test_jonatha.Prelude.{◌≡◌, refl, ap, String, true, false}
use gex_test_jonatha.Exec.{ok}
use gex_test_jonatha.Json.{Json, Fields, null, bool, integer, real, text, list, dict}
use gex_test_jonatha.Common.Config.{AppSettings}
use gex_test_jonatha.Common.Library.{Library, Bytes}
use gex_test_jonatha.Common.Crypto.Laws.{Cipher, sealed, Inverts, HasLengths, decrypt-encrypt}
use gex_test_jonatha.Receiver.Routes.{Request, is_encrypted, or_raw, validate, examine}

-- a JSON value other than null
abbrev pub IsGiven : Json → Type 0
IsGiven null = ⊥
IsGiven v = Unit {0}

or_raw-given : (v raw : Json) → IsGiven v → or_raw v raw ≡ v
or_raw-given null raw h = absurd h
or_raw-given (bool b) raw h = refl
or_raw-given (integer n) raw h = refl
or_raw-given (real n) raw h = refl
or_raw-given (text s) raw h = refl
or_raw-given (list xs) raw h = refl
or_raw-given (dict d) raw h = refl

-- If the libraries invert those of a sender that encrypts the text of a JSON body other than null
-- under the key of the settings, a request of grummer with the header of an encrypted body, and with
-- the iv and the ciphertext in it, is decided as a request with that body in the clear.
pub examine-encrypted :
    (l : Library) (s : AppSettings) (c : Cipher) (key iv : Bytes) (plaintext : String) (body : Json)
    (encrypted plain : Request) (d : Fields)
    → Inverts l c key iv plaintext
    → HasLengths key iv (sealed c key iv plaintext)
    → s.grummer_secret_hex ≡ c.hex key
    → l.loads plaintext ≡ ok body
    → IsGiven body
    → l.encrypted_body d
      ≡ ok (record { iv = c.b64encode iv; ciphertext = c.b64encode (sealed c key iv plaintext) })
    → is_encrypted l s encrypted ≡ true
    → is_encrypted l s plain ≡ false
    → examine l s encrypted (dict d) ≡ examine l s plain body
unfolding examine
examine-encrypted l s c key iv plaintext body encrypted plain d i h secret parsed given fields e p =
    rw (e, p, fields, secret, decrypt-encrypt l c key iv plaintext i h, parsed)
      (ap (validate l s) (or_raw-given body (dict d) given))
