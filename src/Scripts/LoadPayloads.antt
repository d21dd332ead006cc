-- ===== src/Scripts/LoadPayloads.antt =====
-- scripts/load_payloads.py: sends the sample payloads to a receiver, some times over. The semaphore,
-- which only holds requests back, is left out.
pub mod Counting
pub mod Sending
pub mod Summary
pub mod Report
use gex_test_jonatha.Prelude.{
  ℕ, zero, suc, ◌+◌, ◌*◌, String, Bool, true, false, Option, none, some, List, [], ◌∷◌, ◌++◌, any,
  length, eqb, ltb, not, ◌==◌, if◌then◌else◌,
}
use gex_test_jonatha.Prelude.Strings.{◌+++◌, str_take}
use gex_test_jonatha.Exec.{
  Exn, lib, type_error, attribute_error, Result, ok, raise, and_then, Exec, pure, throw, lift,
  modify, continue, ◌>>=◌, ◌>>◌,
}
use gex_test_jonatha.Json.{
  Json, Fields, null, bool, integer, real, text, list, dict, end, field, get, get_or, type_name,
}
use gex_test_jonatha.Common.Library.{Library}
use gex_test_jonatha.Scripts.LoadPayloads.Counting.{Counter, value_of, total, counted, update}
use gex_test_jonatha.Scripts.LoadPayloads.Report.{Formats, run_lines, total_lines, loaded_line}

-- A response of httpx: `parsed` is what `resp.json()` does.
pub record Response : Type 0 where
  pub status_code : ℕ
  pub content_type : String
  pub parsed : Result Json

-- The outcome of one POST: `unreachable` is a RequestError or TimeoutException, `broken` any other.
pub data Attempt : Type 0 where
  answered : Response → Attempt
  unreachable : Attempt
  broken : Exn → Attempt

pub record Post : Type 0 where
  pub url : String
  pub headers : Fields
  pub body : Json

-- One call of `_send_one`: what its POSTs will come to, and what it has sent and slept, in seconds.
pub record Client : Type 0 where
  pub outcomes : List Attempt
  pub posts : List Post
  pub slept : ℕ

abbrev pub max_retries : ℕ
max_retries = 3

-- `range(MAX_RETRIES + 1)`
abbrev pub attempts : List ℕ
attempts = 0 ∷ 1 ∷ 2 ∷ 3 ∷ []

-- `2**n`
abbrev pub power_of_two : ℕ → ℕ
power_of_two zero = 1
power_of_two (suc n) = power_of_two n + power_of_two n

-- `ALLOWED_HEADERS`
abbrev pub is_allowed : String → Bool
is_allowed k = any (λ a. a == k) ("content-type" ∷ "x-gr-encrypted" ∷ "x-correlation-id" ∷ [])

-- `v[k]`
abbrev pub item : Json → String → Result Json
item (dict d) k = elim (get d k) [
  | none ↦ raise (lib "KeyError" ("'" +++ k +++ "'"))
  | some v ↦ ok v
]
item (text _) k = raise (type_error "string indices must be integers, not 'str'")
item (list _) k = raise (type_error "list indices must be integers or slices, not str")
item v k = raise (type_error ("'" +++ type_name v +++ "' object is not subscriptable"))

-- `payload.get("headers", {})`, of a dict
abbrev pub headers_of : Json → Json
headers_of (dict d) = get_or d "headers" (dict end)
headers_of v = null

-- the status in a response's JSON body; `null` is None
unfoldable pub status_of : Response → Json
status_of r =
    if str_take 16 r.content_type == "application/json"
    then elim r.parsed [ ok (dict d) ↦ get_or d "status" null | ok _ ↦ null | raise _ ↦ null ]
    else null

-- past the end no receiver answers
abbrev pub next_outcome : List Attempt → Client → Attempt × Client
next_outcome [] c = (unreachable, c)
next_outcome (a ∷ rest) c = (a, record c { outcomes = rest })

-- `client.post`
unfoldable pub post : Post → Exec Client Attempt
post p c =
    let (a, c') = next_outcome c.outcomes c in (ok a, record c' { posts = c'.posts ++ p ∷ [] })

abbrev pub sleep : ℕ → Client → Client
sleep seconds c = record c { slept = c.slept + seconds }

-- what the body of the loop does with an outcome, before the next round
unfoldable pub after_post : Exec Client (ℕ × Json) → ℕ → Attempt → Exec Client (ℕ × Json)
unfolding status_of
after_post next attempt (answered r) =
    if not (eqb r.status_code 503)
    then pure (r.status_code, status_of r)
    else (do modify (sleep (power_of_two attempt)); next)
after_post next attempt unreachable =
    if eqb attempt max_retries
    then pure (0, null)
    else (do modify (sleep (power_of_two attempt)); next)
after_post next attempt (broken e) = throw e

unfoldable pub send_loop : Post → List ℕ → Exec Client (ℕ × Json)
unfolding post after_post
send_loop p [] = pure (503, null)
send_loop p (attempt ∷ rest) = do outcome ← post p; after_post (send_loop p rest) attempt outcome

module _ (l : Library) (format : Json → String) where
  -- `_filter_headers`
  unfoldable pub filter_headers : Fields → Fields
  filter_headers end = end
  filter_headers (field k v d) =
      let rest = filter_headers d in if is_allowed (l.lower k) then field k v rest else rest

  -- `raw.items()`, which only a dict has
  abbrev pub filtered : Json → Result Fields
  filtered (dict d) = ok (filter_headers d)
  filtered v = raise (attribute_error ("'" +++ type_name v +++ "' object has no attribute 'items'"))

  -- the url, the headers and the body of a payload
  unfoldable pub prepare : String → Json → Result Post
  unfolding filter_headers
  prepare receiver payload = and_then (item payload "gateway") λ gateway.
      and_then (filtered (headers_of payload)) λ headers. and_then (item payload "body") λ body.
        ok (record {
          url = receiver +++ "/webhooks/" +++ format gateway;
          headers = headers;
          body = body;
        })

  unfoldable pub send_one : String → Json → Exec Client (ℕ × Json)
  unfolding prepare send_loop
  send_one receiver payload = do p ← lift (prepare receiver payload); send_loop p attempts

  abbrev pub fresh_client : List Attempt → Client
  fresh_client outcomes = record { outcomes = outcomes; posts = []; slept = 0 }

  -- `asyncio.gather` over the payloads, each with the outcomes of its POSTs
  unfoldable pub gather : String → (ℕ → List Attempt) → ℕ → List Json → Result (List (ℕ × Json))
  unfolding send_one
  gather receiver outcomes j [] = ok []
  gather receiver outcomes j (p ∷ ps) =
      and_then (send_one receiver p (fresh_client (outcomes j))).0
        λ r. and_then (gather receiver outcomes (suc j) ps) λ rs. ok (r ∷ rs)

-- dict keys: a list or a dict is unhashable
abbrev pub hashable : Json → Result Json
hashable (list _) = raise (type_error "unhashable type: 'list'")
hashable (dict _) = raise (type_error "unhashable type: 'dict'")
hashable v = ok v

-- the statuses that are not None
unfoldable pub statuses_of : List (ℕ × Json) → Result (List Json)
statuses_of [] = ok []
statuses_of ((code, null) ∷ rs) = statuses_of rs
statuses_of ((code, v) ∷ rs) =
    and_then (hashable v) λ k. and_then (statuses_of rs) λ ks. ok (k ∷ ks)

abbrev pub codes_of : List (ℕ × Json) → List ℕ
codes_of [] = []
codes_of ((code, v) ∷ rs) = code ∷ codes_of rs

-- `total_http` and `total_status`, and what has been printed
pub record Totals : Type 0 where
  pub http : Counter ℕ
  pub status : Counter Json
  pub printed : List String

abbrev pub no_totals : List String → Totals
no_totals lines = record { http = []; status = []; printed = lines }

-- `return 1` if there were errors
abbrev pub exit_status : ℕ → ℕ
exit_status errors = if eqb errors 0 then 0 else 1

-- How long each run takes, by its number, and all of them together.
pub record Clock : Type 0 where
  pub run : ℕ → ℕ
  pub overall : ℕ

-- `format` is what an f-string makes of a value, and `same_value` the equality of dict keys.
module _ (l : Library) (format : Json → String) (same_value : Json → Json → Bool)
    (f : Formats) where
  -- `_run_one`: the codes, the statuses and the number of results
  unfoldable pub run_one :
      String → (ℕ → List Attempt) → List Json → Result (Counter ℕ × Counter Json × ℕ)
  unfolding gather statuses_of
  run_one receiver outcomes payloads =
      and_then (gather l format receiver outcomes 0 payloads) λ results.
        and_then (statuses_of results) λ statuses.
          ok (counted eqb [] (codes_of results), counted same_value [] statuses, length results)

  -- `run_all`, with the number of all runs, those that are left, and the outcomes of the POSTs of each
  unfoldable pub run_all :
      String → (ℕ → ℕ → List Attempt) → Clock → List Json → ℕ → ℕ → ℕ → Totals → Result Totals
  unfolding run_one run_lines
  run_all receiver outcomes clock payloads repeat i zero t = ok t
  run_all receiver outcomes clock payloads repeat i (suc runs) t =
      and_then (run_one receiver (outcomes i) payloads) λ (http, status, sent).
        and_then (run_lines f i repeat sent (clock.run i) http status) λ lines.
          run_all receiver outcomes clock payloads repeat (suc i) runs (record {
            http = update eqb t.http http;
            status = update same_value t.status status;
            printed = t.printed ++ lines;
          })

  -- what `main` prints and returns, from the path of the payloads and their list
  unfoldable pub main :
      String → (ℕ → ℕ → List Attempt) → Clock → String → List Json → ℕ → Result (List String × ℕ)
  unfolding run_all
  main receiver outcomes clock path payloads repeat =
      let loaded = loaded_line f (length payloads) path in
      and_then (run_all receiver outcomes clock payloads repeat 1 repeat (no_totals (loaded ∷ [])))
        λ t.
          let errors = value_of eqb 0 t.http + value_of eqb 503 t.http in
          and_then (total_lines f (total t.http) clock.overall errors t.http t.status)
            λ lines. ok (t.printed ++ lines, exit_status errors)
