-- ===== src/Common/Crypto.antt =====
-- crypto.py: `decrypt_grummer`. The cipher, the padding and the codecs are the library's.
pub mod Laws
use gex_test_jonatha.Prelude.{
  ℕ, ◌%◌, String, Bool, true, false, List, [], ◌∷◌, ◌||◌, any, length, eqb, not, if◌then◌else◌,
}
use gex_test_jonatha.Prelude.Strings.{◌+++◌}
use gex_test_jonatha.Exec.{
  Exn, decryption, json_decode, binascii, value_error, message, Result, ok, raise, and_then,
}
use gex_test_jonatha.Common.Library.{Library, Bytes}

abbrev pub valid_aes_key_lengths : List ℕ
valid_aes_key_lengths = 16 ∷ 24 ∷ 32 ∷ []

-- AES_BLOCK_SIZE_BITS // 8
abbrev pub aes_block_size_bytes : ℕ
aes_block_size_bytes = 16

-- `except ValueError`; JSONDecodeError and binascii.Error are subclasses
abbrev pub is_value_error : Exn → Bool
is_value_error (json_decode _) = true
is_value_error (binascii _) = true
is_value_error (value_error _ _) = true
is_value_error _ = false

-- the inner `try` of the key
abbrev pub hex_error : {A : Type 0} → Result A → Result A
hex_error (ok a) = ok a
hex_error (raise e) =
    if is_value_error e then raise (decryption ("Invalid hex key: " +++ message e)) else raise e

-- the inner `try` of the two base64 texts: only `binascii.Error` is caught
abbrev pub base64_error : {A : Type 0} → Result A → Result A
base64_error (raise (binascii m)) = raise (decryption ("Invalid base64 input: " +++ m))
base64_error r = r

-- the outer `try`
abbrev pub wrap : {A : Type 0} → Result A → Result A
wrap (ok a) = ok a
wrap (raise (decryption m)) = raise (decryption m)
wrap (raise e) = raise (decryption ("Decryption failed: " +++ message e))

abbrev pub is_valid_key_length : ℕ → Bool
is_valid_key_length n = any (eqb n) valid_aes_key_lengths

-- `len(ciphertext) == 0 or len(ciphertext) % AES_BLOCK_SIZE_BYTES != 0`
abbrev pub is_bad_ciphertext_length : ℕ → Bool
is_bad_ciphertext_length n = eqb n 0 || not (eqb (n % aes_block_size_bytes) 0)

module _ (l : Library) where
  -- the three guards on lengths
  pub check_lengths : Bytes → Bytes → Bytes → Result (Unit {0})
  check_lengths key iv ciphertext =
      if not (is_valid_key_length (length key))
      then raise (
          decryption (
            "Invalid AES key length: "
            +++ l.show (length key)
            +++ " bytes (expected one of [16, 24, 32])"))
      else if not (eqb (length iv) aes_block_size_bytes)
      then raise
          (decryption ("Invalid IV length: " +++ l.show (length iv) +++ " bytes (expected 16)"))
      else if is_bad_ciphertext_length (length ciphertext)
      then raise (
          decryption (
            "Invalid ciphertext length: "
            +++ l.show (length ciphertext)
            +++ " bytes (must be a non-zero multiple of 16)"))
      else ok tt

  -- the decryptor, the unpadder and the decoding
  pub decrypt_bytes : Bytes → Bytes → Bytes → Result String
  decrypt_bytes key iv ciphertext =
      and_then (l.aes_cbc_decrypt key iv ciphertext)
        λ padded. and_then (l.pkcs7_unpad padded) λ plaintext_bytes. l.utf8_decode plaintext_bytes

  -- the body of the outer `try`
  pub decrypt_steps : String → String → String → Result String
  decrypt_steps iv_b64 ciphertext_b64 secret_hex =
      and_then (hex_error (l.from_hex secret_hex)) λ key.
        and_then (base64_error (l.b64decode iv_b64)) λ iv.
          and_then (base64_error (l.b64decode ciphertext_b64)) λ ciphertext.
            and_then (check_lengths key iv ciphertext) λ _. decrypt_bytes key iv ciphertext

  unfoldable pub decrypt_grummer : String → String → String → Result String
  unfolding decrypt_steps check_lengths decrypt_bytes
  decrypt_grummer iv_b64 ciphertext_b64 secret_hex =
      wrap (decrypt_steps iv_b64 ciphertext_b64 secret_hex)
