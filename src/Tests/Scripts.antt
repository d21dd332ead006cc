-- ===== src/Tests/Scripts.antt =====
-- The theorems on the scripts, applied.
use gex_test_jonatha.Prelude.{
  ℕ, ◌≡◌, refl, ◌*◌, String, Bool, false, List, [], ◌∷◌, eqb, if◌then◌else◌, arith, All, Bool-cases,
  inl, inr,
}
use gex_test_jonatha.Exec.{ok}
use gex_test_jonatha.Json.{Json, text, dict, end, field}
use gex_test_jonatha.Scripts.LoadPayloads.Counting.{total, value_of, size}
use gex_test_jonatha.Scripts.LoadPayloads.{
  Response, Attempt, answered, unreachable, Post, Totals, Clock, status_of, send_one, fresh_client,
  main, prepare,
}
use gex_test_jonatha.Prelude.{◌++◌}
use gex_test_jonatha.Scripts.LoadPayloads.Report.{Formats, total_lines}
use gex_test_jonatha.Scripts.LoadPayloads.Sending.{client, copies, send_one-answered}
use gex_test_jonatha.Scripts.LoadPayloads.Summary.{ended, main-counts, IsClean}
use gex_test_jonatha.Tests.Data.{library}

abbrev format : Json → String
format (text s) = s
format _ = "None"

abbrev same_value : Json → Json → Bool
same_value a b = false

abbrev receiver : String
receiver = "http://localhost:8000"

abbrev sample : Json
sample = dict (
    field "gateway" (text "lous")
      (field "headers" (dict (field "host" (text "h") end)) (field "body" (text "b") end)))

abbrev sample_post : Post
sample_post = record { url = "http://localhost:8000/webhooks/lous"; headers = end; body = text "b" }

sample-prepared : prepare library format receiver sample ≡ ok sample_post
unfolding prepare
sample-prepared = refl

abbrev unavailable : Response
unavailable = record { status_code = 503; content_type = "text/plain"; parsed = ok (text "") }

abbrev taken : Response
taken = record {
  status_code = 202;
  content_type = "application/json";
  parsed = ok (dict (field "status" (text "decrypt_failed") end));
}

send_one-answered_example :
    send_one library format receiver sample
      (fresh_client library format (answered unavailable ∷ unreachable ∷ answered taken ∷ []))
    ≡ (ok (202, status_of taken), client [] (copies 3 sample_post) 3)
send_one-answered_example =
    send_one-answered library format receiver sample sample_post sample-prepared
      (answered unavailable ∷ unreachable ∷ []) taken [] (omega arith) (refl, (tt, tt))
      (omega arith)

-- the first run is answered, the second is not
abbrev schedule : ℕ → ℕ → List Attempt
schedule i j = if eqb i 1 then answered taken ∷ [] else []

schedule-IsClean : (i j : ℕ) → All IsClean (schedule i j)
unfolding status_of
schedule-IsClean i j = elim (Bool-cases (eqb i 1)) [
  | inl first ↦ rw first (inr ("decrypt_failed", refl), tt)
  | inr other ↦ rw other tt
]

abbrev formats : Formats
formats = record {
  show = λ n. "n";
  seconds = λ n. "s";
  rate = λ n x. "r";
  padded = λ s. s;
  unordered = "'<' not supported";
  unformattable = "Unknown format code 's'";
}

-- two seconds for each run
abbrev clock : Clock
clock = record { run = λ i. 2000000000; overall = 5000000000 }

main-counts_example :
    (t : Totals) × (lines : List String) × (total_lines formats
        (2 * size (sample ∷ []))
        5000000000
        1
        t.http
        t.status
      ≡ ok lines)
    × (main library format same_value formats receiver schedule clock "p" (sample ∷ []) 2
        ≡ ok (t.printed ++ lines, 1))
    × (total t.http ≡ 2 * size (sample ∷ []))
    × ((code : ℕ) → value_of eqb code t.http ≡ ended code schedule (sample ∷ []) 1 2)
main-counts_example =
    main-counts library format same_value formats receiver schedule clock (sample ∷ [])
      ((sample_post, sample-prepared), tt) schedule-IsClean "p" 2 (λ e. omega (arith, e))
