-- ===== src/Exec.antt =====
-- Python exceptions, calls that may raise, and calls that also change state. What was written
-- before a raise stays written, so the state comes back beside the exception too.
pub mod Keeps
pub mod Gives
use gex_test_jonatha.Prelude.{String, ℕ}
use gex_test_jonatha.Prelude.Strings.{◌+++◌}

-- The exceptions that the program raises, catches by class, or lets pass. `lib` is any exception
-- of a library, by its class name and its text.
pub data Exn : Type 0 where
  http : ℕ → String → Exn
  decryption : String → Exn
  json_decode : String → Exn
  binascii : String → Exn
  value_error : String → String → Exn
  type_error : String → Exn
  attribute_error : String → Exn
  runtime_error : String → Exn
  index_error : String → Exn
  simulated : String → Exn
  transient : String → Exn
  permanent : String → Exn
  lib : String → String → Exn

-- `type(e).__name__`
abbrev pub class_name : Exn → String
class_name (http _ _) = "HTTPException"
class_name (decryption _) = "DecryptionError"
class_name (json_decode _) = "JSONDecodeError"
class_name (binascii _) = "Error"
class_name (value_error c _) = c
class_name (type_error _) = "TypeError"
class_name (attribute_error _) = "AttributeError"
class_name (runtime_error _) = "RuntimeError"
class_name (index_error _) = "IndexError"
class_name (simulated _) = "SimulatedDistributorFailure"
class_name (transient _) = "TransientDistributorFailure"
class_name (permanent _) = "PermanentDistributorFailure"
class_name (lib c _) = c

-- `str(e)`
abbrev pub message : Exn → String
message (http _ m) = m
message (decryption m) = m
message (json_decode m) = m
message (binascii m) = m
message (value_error _ m) = m
message (type_error m) = m
message (attribute_error m) = m
message (runtime_error m) = m
message (index_error m) = m
message (simulated m) = m
message (transient m) = m
message (permanent m) = m
message (lib _ m) = m

-- `f"{type(e).__name__}: {e}"`
abbrev pub describe : Exn → String
describe e = class_name e +++ ": " +++ message e

pub data Result {ℓ} (A : Type ℓ) : Type ℓ where
  ok : A → Result A
  raise : Exn → Result A

-- the next call of a chain that keeps no state
abbrev pub and_then {ℓ κ} : {A : Type ℓ} {B : Type κ} → Result A → (A → Result B) → Result B
and_then (ok a) f = f a
and_then (raise e) f = raise e

abbrev pub Exec : Type 0 → Type 0 → Type 0
Exec S A = S → Result A × S

module _ {S A : Type 0} where
  abbrev pub pure : A → Exec S A
  pure a s = (ok a, s)

  abbrev pub throw : Exn → Exec S A
  throw e s = (raise e, s)

  abbrev pub lift : Result A → Exec S A
  lift r s = (r, s)

  abbrev pub gets : (S → A) → Exec S A
  gets f s = (ok (f s), s)

abbrev pub modify : {S : Type 0} → (S → S) → Exec S (Unit {0})
modify f s = (ok tt, f s)

abbrev pub continue : {S A B : Type 0} → (A → Exec S B) → Result A × S → Result B × S
continue f (ok a, s) = f a s
continue f (raise e, s) = (raise e, s)

abbrev pub recover : {S A : Type 0} → (Exn → Exec S A) → Result A × S → Result A × S
recover h (ok a, s) = (ok a, s)
recover h (raise e, s) = h e s

infixl 5 ◌>>=◌ ◌>>◌
abbrev pub ◌>>=◌ : {S A B : Type 0} → Exec S A → (A → Exec S B) → Exec S B
◌>>=◌ m f s = continue f (m s)

abbrev pub ◌>>◌ : {S A B : Type 0} → Exec S A → Exec S B → Exec S B
m >> k = m >>= λ _. k

-- `try: m; except Exception as e: h e`
abbrev pub catch : {S A : Type 0} → Exec S A → (Exn → Exec S A) → Exec S A
catch m h s = recover h (m s)

abbrev pub finished : {S A : Type 0} → Result A → Result (Unit {0}) × S → Result A × S
finished r (ok _, s) = (r, s)
finished r (raise e, s) = (raise e, s)

-- `try: m; finally: f`
abbrev pub finally : {S A : Type 0} → Exec S A → Exec S (Unit {0}) → Exec S A
finally m f s = let (r, s') = m s in finished r (f s')
