-- ===== src/Scripts/LoadPayloads/Report.antt =====
-- The lines that `main` of scripts/load_payloads.py prints. Times are nanoseconds.
pub mod Laws
use Prim.Native.Char.{code}
use Prim.Native.String.{[] as nil, ◌∷◌ as cons}
use gex_test_jonatha.Prelude.{
  ℕ, ◌+◌, String, Bool, true, false, Option, none, some, List, [], ◌∷◌, ◌++◌, ◌||◌, ◌&&◌, map, any,
  eqb, ltb, if◌then◌else◌,
}
use gex_test_jonatha.Prelude.Strings.{◌+++◌}
use gex_test_jonatha.Exec.{Exn, lib, type_error, value_error, Result, ok, raise, and_then}
use gex_test_jonatha.Json.{Json, text}
use gex_test_jonatha.Scripts.LoadPayloads.Counting.{Counter, value_of}

-- What f-strings make of their values, and the texts of two exceptions.
pub record Formats : Type 0 where
  -- `{n}`, and `{x:.1f}` of a time in seconds
  pub show : ℕ → String
  pub seconds : ℕ → String
  -- `{n / x:.1f}`, of a number and a time that is not 0
  pub rate : ℕ → ℕ → String
  -- `{st:30s}`
  pub padded : String → String
  -- of the TypeError of `<`, and of the ValueError of a format code
  pub unordered : String
  pub unformattable : String

-- `k not in (200, 202, 503)`, the other way round
abbrev pub is_shown : ℕ → Bool
is_shown k = eqb k 200 || (eqb k 202 || eqb k 503)

unfoldable pub other : Counter ℕ → ℕ
other [] = 0
other ((k, n) ∷ c) = (if is_shown k then 0 else n) + other c

-- `a < b` of texts, by their code points
abbrev pub before : String → String → Bool
before nil nil = false
before nil (cons _ _) = true
before (cons _ _) nil = false
before (cons c s) (cons d t) =
    let rest = before s t in ltb (code c) (code d) || (eqb (code c) (code d) && rest)

unfoldable pub insert_item : String × ℕ → List (String × ℕ) → List (String × ℕ)
insert_item (k, n) [] = (k, n) ∷ []
insert_item (k, n) ((j, m) ∷ items) =
    let rest = insert_item (k, n) items in
    if before k j then (k, n) ∷ (j, m) ∷ items else (j, m) ∷ rest

-- `sorted(statuses.items())`, of distinct texts
unfoldable pub sorted_items : List (String × ℕ) → List (String × ℕ)
unfolding insert_item
sorted_items [] = []
sorted_items (item ∷ items) = insert_item item (sorted_items items)

abbrev pub add_text : Json → ℕ → Option (List (String × ℕ)) → Option (List (String × ℕ))
add_text (text k) n (some items) = some ((k, n) ∷ items)
add_text k n items = none

-- the items, if all keys are texts
abbrev pub text_items : Counter Json → Option (List (String × ℕ))
text_items [] = some []
text_items ((k, n) ∷ c) = add_text k n (text_items c)

abbrev pub is_text : Json × ℕ → Bool
is_text (text k, n) = true
is_text _ = false

module _ (f : Formats) where
  -- A text and a number cannot be sorted, and a number has no format code `s`.
  abbrev pub unprintable : Counter Json → Exn
  unprintable c =
      if any is_text c then type_error f.unordered else value_error "ValueError" f.unformattable

  abbrev pub status_line : String × ℕ → String
  status_line (k, n) = "  " +++ f.padded k +++ " " +++ f.show n

  abbrev pub items_lines : Exn → Option (List (String × ℕ)) → Result (List String)
  items_lines e none = raise e
  items_lines e (some items) = ok ("By response status:" ∷ map status_line (sorted_items items))

  unfoldable pub status_lines : Counter Json → Result (List String)
  unfolding sorted_items
  status_lines [] = ok []
  status_lines (item ∷ c) = items_lines (unprintable (item ∷ c)) (text_items (item ∷ c))

  unfoldable pub http_line : Counter ℕ → String
  unfolding other
  http_line c =
      "HTTP 200: "
      +++ f.show (value_of eqb 200 c)
      +++ "   HTTP 202: "
      +++ f.show (value_of eqb 202 c)
      +++ "   HTTP 503: "
      +++ f.show (value_of eqb 503 c)
      +++ "   Other: "
      +++ f.show (other c)

  -- `sent / elapsed if elapsed > 0 else 0.0`
  abbrev pub run_rate : ℕ → ℕ → String
  run_rate sent elapsed = if eqb elapsed 0 then "0.0" else f.rate sent elapsed

  -- after the i-th run; a line starts with an empty one where the text starts with a newline
  unfoldable pub run_lines : ℕ → ℕ → ℕ → ℕ → Counter ℕ → Counter Json → Result (List String)
  unfolding status_lines http_line
  run_lines i repeat sent elapsed http status = and_then (status_lines status) λ lines. ok (
      ""
      ∷ ("=== Run "
          +++ f.show i
          +++ "/"
          +++ f.show repeat
          +++ " ===  Sent "
          +++ f.show sent
          +++ " in "
          +++ f.seconds elapsed
          +++ "s ("
          +++ run_rate sent elapsed
          +++ " req/s)")
      ∷ http_line http
      ∷ lines)

  abbrev pub error_lines : ℕ → List String
  error_lines errors =
      if eqb errors 0
      then []
      else ""
        ∷ ("⚠ " +++ f.show errors +++ " request(s) had errors (503 or connection failure)")
        ∷ []

  -- at the end; here the rate is not guarded
  unfoldable pub total_lines : ℕ → ℕ → ℕ → Counter ℕ → Counter Json → Result (List String)
  unfolding status_lines http_line
  total_lines sent elapsed errors http status =
      if eqb elapsed 0
      then raise (lib "ZeroDivisionError" "division by zero")
      else and_then (status_lines status) λ lines. ok (
          "=================================================="
            ∷ ("=== TOTAL ===  "
                +++ f.show sent
                +++ " sent in "
                +++ f.seconds elapsed
                +++ "s ("
                +++ f.rate sent elapsed
                +++ " req/s)")
            ∷ http_line http
            ∷ lines
          ++ error_lines errors)

  -- before the runs
  abbrev pub loaded_line : ℕ → String → String
  loaded_line n path = "Loaded " +++ f.show n +++ " payloads from " +++ path
