-- ===== src/Common/Library.antt =====
-- What the program calls and does not implement: the standard library's text tables, codecs and
-- json, pydantic, email-validator, phonenumbers and cryptography. All are parameters.
use gex_test_jonatha.Prelude.{ℕ, String, Bool, Option, List}
use gex_test_jonatha.Json.{Json, Fields}
use gex_test_jonatha.Exec.{Exn, Result}
use gex_test_jonatha.Common.Models.{WebhookPayload, GrummerEncryptedBody, DistributionMessage}

abbrev pub Bytes : Type 0
Bytes = List ℕ

-- One entry of `e.errors()`: the location with each part as text, and the message.
pub record PydanticError : Type 0 where
  pub loc : List String
  pub msg : String

-- What `WebhookPayload(**fields)` does.
pub data Construct : Type 0 where
  built : WebhookPayload → Construct
  invalid : List PydanticError → Construct
  failed : Exn → Construct

pub record Library : Type 0 where
  -- `str.isspace` and `str.isdigit` of a code point, and `str.lower`
  pub is_space : ℕ → Bool
  pub is_digit : ℕ → Bool
  pub lower : String → String
  -- `email_validator.validate_email(s, check_deliverability=False)` does not raise
  pub email_ok : String → Bool
  -- `is_valid_number(parse(s, None))`, none on NumberParseException
  pub phone_check : String → Option Bool
  -- `format_number(parse(s, None), E164)`, where the parse succeeds
  pub phone_e164 : String → String
  pub webhook_payload : Fields → Construct
  pub encrypted_body : Fields → Result GrummerEncryptedBody
  pub loads : String → Result Json
  pub loads_bytes : Bytes → Result Json
  pub dumps : Json → String
  pub from_hex : String → Result Bytes
  -- `base64.b64decode(s, validate=True)`
  pub b64decode : String → Result Bytes
  -- AES-CBC with a key and an iv, and the removal of PKCS7 padding in blocks of 128 bits
  pub aes_cbc_decrypt : Bytes → Bytes → Bytes → Result Bytes
  pub pkcs7_unpad : Bytes → Result Bytes
  pub utf8_decode : Bytes → Result String
  pub sha256_hex : String → String
  -- `str(n)` of a length
  pub show : ℕ → String
  -- the n-th `str(uuid.uuid7())` of a run, and the n-th `str(uuid.uuid4())`
  pub uuid7 : ℕ → String
  pub uuid4 : ℕ → String
  -- the text of pydantic's error on a `DLQMessage` whose original payload is no dict
  pub dlq_payload_error : Json → String
  -- what MySQL's collation compares of a text: two texts are one key if these are equal
  pub collate : String → String
  -- the `rowcount` of an upsert that leaves its row as it was: 1 where the client connects with
  -- CLIENT.FOUND_ROWS, as SQLAlchemy does, else 0
  pub unchanged_rowcount : ℕ
  -- `bool(n)` of a number, by its literal
  pub is_nonzero : String → Bool
  -- `msg.model_dump()` of a distribution message
  pub dump_distribution : DistributionMessage → Fields
