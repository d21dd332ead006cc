-- ===== src/Common/Crypto/Laws.antt =====
-- What `decrypt_grummer` of crypto.py guarantees to its caller.
use gex_test_jonatha.Prelude.{◌%◌, ◌≡◌, ◌≢◌, ◌↔◌, refl, String, length, ◌⊎◌, arith}
use gex_test_jonatha.Exec.{Exn, decryption, message, Result, ok, raise, and_then}
use gex_test_jonatha.Prelude.Strings.{◌+++◌}
use gex_test_jonatha.Common.Library.{Library, Bytes}
use gex_test_jonatha.Common.Crypto.{
  decrypt_grummer, decrypt_steps, decrypt_bytes, check_lengths, hex_error, base64_error, wrap,
}

wrap-class :
    {A : Type 0} (r : Result A) (e : Exn) → wrap r ≡ raise e → (m : String) × (e ≡ decryption m)
wrap-class (ok a) e h = cc
wrap-class (raise (decryption m)) e h = (m, cc)
wrap-class (raise x) e h = ("Decryption failed: " +++ message x, cc)

-- Whatever the libraries raise, `decrypt_grummer` raises nothing but a DecryptionError.
pub decrypt_error_class :
    (l : Library) (iv_b64 ciphertext_b64 secret_hex : String) (e : Exn)
    → decrypt_grummer l iv_b64 ciphertext_b64 secret_hex ≡ raise e
    → (m : String) × (e ≡ decryption m)
unfolding decrypt_grummer
decrypt_error_class l iv_b64 ciphertext_b64 secret_hex e h =
    wrap-class (decrypt_steps l iv_b64 ciphertext_b64 secret_hex) e h

wrap-ok : {A : Type 0} (r : Result A) {a : A} → wrap r ≡ ok a → r ≡ ok a
wrap-ok (ok a) h = h
wrap-ok (raise (decryption m)) h = cc
wrap-ok (raise x) h = cc

hex_error-ok : {A : Type 0} (r : Result A) {a : A} → hex_error r ≡ ok a → r ≡ ok a
hex_error-ok (ok a) h = h
hex_error-ok (raise x) h = ground arith

base64_error-ok : {A : Type 0} (r : Result A) {a : A} → base64_error r ≡ ok a → r ≡ ok a
base64_error-ok (raise (Exn.binascii m)) h = cc
base64_error-ok r h = h

pub and_then-ok :
    {A B : Type 0} (r : Result A) (f : A → Result B) {b : B}
    → and_then r f ≡ ok b
    → (a : A) × (r ≡ ok a) × (f a ≡ ok b)
and_then-ok (ok a) f h = (a, refl, h)
and_then-ok (raise e) f h = cc

-- What the three guards let through.
pub record HasLengths (key iv ciphertext : Bytes) : Type 0 where
  pub key_length : (length key ≡ 16) ⊎ ((length key ≡ 24) ⊎ (length key ≡ 32))
  pub iv_length : length iv ≡ 16
  pub not_empty : length ciphertext ≢ 0
  pub whole_blocks : length ciphertext % 16 ≡ 0

check_lengths_iff :
    (l : Library) (key iv ciphertext : Bytes)
    → (check_lengths l key iv ciphertext ≡ ok tt) ↔ HasLengths key iv ciphertext
unfolding check_lengths
check_lengths_iff l key iv ciphertext = (λ h. ground arith, λ h. ground arith)

-- `decrypt_grummer` returns a text exactly when the key, the iv and the ciphertext decode, have the
-- lengths of AES-CBC, and the cipher, the padding and UTF-8 give that text.
pub decrypt_grummer_iff :
    (l : Library) (iv_b64 ciphertext_b64 secret_hex s : String)
    → (decrypt_grummer l iv_b64 ciphertext_b64 secret_hex ≡ ok s) ↔ (
        (key : Bytes) × (iv : Bytes) × (ciphertext : Bytes) × (l.from_hex secret_hex ≡ ok key)
        × (l.b64decode iv_b64 ≡ ok iv)
        × (l.b64decode ciphertext_b64 ≡ ok ciphertext)
        × HasLengths key iv ciphertext
        × (decrypt_bytes l key iv ciphertext ≡ ok s))
unfolding decrypt_grummer decrypt_steps
decrypt_grummer_iff l iv_b64 ciphertext_b64 secret_hex s = (
  λ h.
      let steps = wrap-ok _ h in
      let (key, eq_key, h1) = and_then-ok _ _ steps in
      let (iv, eq_iv, h2) = and_then-ok _ _ h1 in
      let (ciphertext, eq_ct, h3) = and_then-ok _ _ h2 in
      let (u, eq_len, h4) = and_then-ok _ _ h3 in
      (
        key,
        iv,
        ciphertext,
        hex_error-ok _ eq_key,
        base64_error-ok _ eq_iv,
        base64_error-ok _ eq_ct,
        (check_lengths_iff l key iv ciphertext).0 eq_len,
        h4,
      ),
  λ p. rw (p.3, p.4, p.5, (check_lengths_iff l p.0 p.1 p.2).1 p.6, p.7),
)

-- What a sender calls: `bytes.hex`, base64, PKCS7 padding, AES-CBC and UTF-8.
pub record Cipher : Type 0 where
  pub hex : Bytes → String
  pub b64encode : Bytes → String
  pub pad : Bytes → Bytes
  pub encrypt : Bytes → Bytes → Bytes → Bytes
  pub encode : String → Bytes

abbrev pub sealed : Cipher → Bytes → Bytes → String → Bytes
sealed c key iv s = c.encrypt key iv (c.pad (c.encode s))

-- For this key, iv and text, the libraries of the receiver invert those of the sender.
pub record Inverts (l : Library) (c : Cipher) (key iv : Bytes) (s : String) : Type 0 where
  pub from_hex : l.from_hex (c.hex key) ≡ ok key
  pub b64decode_iv : l.b64decode (c.b64encode iv) ≡ ok iv
  pub b64decode_sealed : l.b64decode (c.b64encode (sealed c key iv s)) ≡ ok (sealed c key iv s)
  pub aes_cbc_decrypt : l.aes_cbc_decrypt key iv (sealed c key iv s) ≡ ok (c.pad (c.encode s))
  pub pkcs7_unpad : l.pkcs7_unpad (c.pad (c.encode s)) ≡ ok (c.encode s)
  pub utf8_decode : l.utf8_decode (c.encode s) ≡ ok s

-- A text that is encoded, padded, encrypted under a key and an iv of the right lengths and sent as
-- base64 is what `decrypt_grummer` returns, if the library functions invert those of the sender.
pub decrypt-encrypt :
    (l : Library) (c : Cipher) (key iv : Bytes) (s : String)
    → Inverts l c key iv s
    → HasLengths key iv (sealed c key iv s)
    → decrypt_grummer l (c.b64encode iv) (c.b64encode (sealed c key iv s)) (c.hex key) ≡ ok s
unfolding decrypt_bytes
decrypt-encrypt l c key iv s i h = (decrypt_grummer_iff l _ _ _ s).1 (
  key,
  iv,
  sealed c key iv s,
  i.from_hex,
  i.b64decode_iv,
  i.b64decode_sealed,
  h,
  rw (i.aes_cbc_decrypt, i.pkcs7_unpad, i.utf8_decode),
)
