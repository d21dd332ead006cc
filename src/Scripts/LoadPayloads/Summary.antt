-- ===== src/Scripts/LoadPayloads/Summary.antt =====
-- What `main` counts over all runs, from the outcomes of the POSTs.
use gex_test_jonatha.Prelude.{
  ℕ, zero, suc, ◌+◌, ◌*◌, ◌≡◌, ◌≢◌, ◌⊎◌, length, refl, ap, String, Bool, false, List, [], ◌∷◌, ◌++◌,
  All, eqb, if◌then◌else◌, Bool-cases, inl, inr, arith,
}
use gex_test_jonatha.Exec.{Result, ok, and_then}
use gex_test_jonatha.Json.{Json, null, text}
use gex_test_jonatha.Common.Library.{Library}
use gex_test_jonatha.Scripts.LoadPayloads.Counting.{
  Counter, counted, update, value_of, total, occurrences, size, total-update-counted,
  value_of-update-counted,
}
use gex_test_jonatha.Scripts.LoadPayloads.Report.{Formats, total_lines, loaded_line}
use gex_test_jonatha.Scripts.LoadPayloads.Report.Laws.{
  IsText, IsPrintable, run_lines-ok, total_lines-ok, counted-IsPrintable, update-IsPrintable,
}
use gex_test_jonatha.Scripts.LoadPayloads.{
  Attempt, answered, unreachable, broken, Post, Client, power_of_two, status_of, send_loop, prepare,
  send_one, gather, statuses_of, codes_of, Totals, no_totals, Clock, run_one, run_all, main,
}
use gex_test_jonatha.Scripts.LoadPayloads.Sending.{client}

-- A text or None.
abbrev pub IsCountable : Json → Type 0
IsCountable v = (v ≡ null) ⊎ IsText v

-- an outcome that does not end the script
abbrev pub IsClean : Attempt → Type 0
IsClean (answered r) = IsCountable (status_of r)
IsClean unreachable = Unit {0}
IsClean (broken e) = ⊥

-- The code that a request ends with, by the POSTs left: the first answer other than 503, or else 0 or
-- 503 by the last POST.
abbrev pub final_code : ℕ → List Attempt → ℕ
final_code zero os = 503
final_code (suc n) [] = 0
final_code (suc n) (answered r ∷ os) =
    let later = final_code n os in if eqb r.status_code 503 then later else r.status_code
final_code (suc zero) (unreachable ∷ os) = 0
final_code (suc (suc n)) (unreachable ∷ os) = final_code (suc n) os
final_code (suc n) (broken e ∷ os) = 0

-- the codes of one run
abbrev pub final_codes : (ℕ → List Attempt) → ℕ → List Json → List ℕ
final_codes outcomes j [] = []
final_codes outcomes j (p ∷ ps) = final_code 4 (outcomes j) ∷ final_codes outcomes (suc j) ps

-- the requests of the runs from the i-th on that end with a code
abbrev pub ended : ℕ → (ℕ → ℕ → List Attempt) → List Json → ℕ → ℕ → ℕ
ended code outcomes payloads i zero = 0
ended code outcomes payloads i (suc runs) =
    occurrences code (final_codes (outcomes i) 0 payloads)
    + ended code outcomes payloads (suc i) runs

abbrev rounds : ℕ → ℕ → List ℕ
rounds n zero = []
rounds n (suc k) = n ∷ rounds (suc n) k

-- a loop that returns a code and a countable status
abbrev Ends : ℕ → Result (ℕ × Json) × Client → Type 0
Ends code r = (v : Json) × (c : Client) × (r ≡ (ok (code, v), c)) × IsCountable v

exhausted_lem :
    (p : Post) (posts : List Post) (slept n k : ℕ)
    → n + suc k ≡ 4
    → Ends 0 (send_loop p (rounds n (suc k)) (client [] posts slept))
unfolding send_loop
exhausted_lem p posts slept n zero e =
    let last : n ≡ 3 = omega arith in
    rw last (null, client [] (posts ++ p ∷ []) slept, refl, inl refl)
exhausted_lem p posts slept n (suc k) e =
    let early : eqb n 3 ≡ false = ground arith in
    rw early (exhausted_lem p (posts ++ p ∷ []) (slept + power_of_two n) (suc n) k (omega arith))

send_loop-Ends :
    (p : Post) (os : List Attempt) (posts : List Post) (slept n k : ℕ)
    → n + k ≡ 4
    → All IsClean os
    → Ends (final_code k os) (send_loop p (rounds n k) (client os posts slept))
unfolding send_loop
send_loop-Ends p os posts slept n zero e h = (null, client os posts slept, refl, inl refl)
send_loop-Ends p [] posts slept n (suc k) e h = exhausted_lem p posts slept n k e
send_loop-Ends p (answered r ∷ os) posts slept n (suc k) e (h, hs) =
    elim (Bool-cases (eqb r.status_code 503)) [
      | inl again ↦ rw again (
          send_loop-Ends p os (posts ++ p ∷ []) (slept + power_of_two n) (suc n) k (omega arith) hs)
      | inr final ↦ rw final (status_of r, client os (posts ++ p ∷ []) slept, refl, h)
    ]
send_loop-Ends p (unreachable ∷ os) posts slept n (suc zero) e (h, hs) =
    let last : n ≡ 3 = omega arith in
    rw last (null, client os (posts ++ p ∷ []) slept, refl, inl refl)
send_loop-Ends p (unreachable ∷ os) posts slept n (suc (suc k)) e (h, hs) =
    let early : eqb n 3 ≡ false = ground arith in
    rw early (
      send_loop-Ends p os (posts ++ p ∷ []) (slept + power_of_two n) (suc n) (suc k) (omega arith)
        hs)
send_loop-Ends p (broken x ∷ os) posts slept n (suc k) e (h, hs) = absurd h

-- the results of a run that ends
abbrev Gathers : List ℕ → Result (List (ℕ × Json)) → Type 0
Gathers codes r =
    (rs : List (ℕ × Json)) × (r ≡ ok rs) × (codes_of rs ≡ codes) × All (λ x. IsCountable x.1) rs

size-final_codes :
    (outcomes : ℕ → List Attempt) (j : ℕ) (ps : List Json)
    → size (final_codes outcomes j ps) ≡ size ps
size-final_codes outcomes j [] = refl
size-final_codes outcomes j (p ∷ ps) = ap suc_of (size-final_codes outcomes (suc j) ps)
  where
    suc_of : ℕ → ℕ
    suc_of n = 1 + n

statuses_of-ok :
    (rs : List (ℕ × Json))
    → All (λ x. IsCountable x.1) rs
    → (ks : List Json) × (statuses_of rs ≡ ok ks) × All IsText ks
unfolding statuses_of
statuses_of-ok [] h = ([], refl, tt)
statuses_of-ok ((code, v) ∷ rs) (inl e, hs) =
    let (ks, e', texts) = statuses_of-ok rs hs in (ks, rw e e', texts)
statuses_of-ok ((code, v) ∷ rs) (inr (s, e), hs) =
    let (ks, e', texts) = statuses_of-ok rs hs in (text s ∷ ks, rw (e, e') refl, ((s, refl), texts))

module _ (l : Library) (format : Json → String) (same_value : Json → Json → Bool) (f : Formats)
    (receiver : String) where
  -- a payload that has what a POST needs
  abbrev pub IsSendable : Json → Type 0
  IsSendable payload = (p : Post) × (prepare l format receiver payload ≡ ok p)

  gather-Gathers :
      (outcomes : ℕ → List Attempt) (j : ℕ) (ps : List Json)
      → All IsSendable ps
      → ((i : ℕ) → All IsClean (outcomes i))
      → Gathers (final_codes outcomes j ps) (gather l format receiver outcomes j ps)
  unfolding gather send_one
  gather-Gathers outcomes j [] s h = ([], refl, refl, tt)
  gather-Gathers outcomes j (payload ∷ ps) ((p, prepared), s) h =
      let (v, c, e, countable) = send_loop-Ends p (outcomes j) [] 0 0 4 refl (h j) in
      let (rs, e', codes, hs) = gather-Gathers outcomes (suc j) ps s h in
      (
        (final_code 4 (outcomes j), v) ∷ rs,
        rw (prepared, e, e') refl,
        ap (λ (xs : List ℕ). final_code 4 (outcomes j) ∷ xs) codes,
        (countable, hs),
      )

  module _ (outcomes : ℕ → ℕ → List Attempt) (clock : Clock) (payloads : List Json)
      (sendable : All IsSendable payloads) (clean : (i j : ℕ) → All IsClean (outcomes i j)) where
    run_one-ok :
        (i : ℕ)
        → (status : Counter Json) × (sent : ℕ) × (run_one l format same_value f receiver
              (outcomes i)
              payloads
            ≡ ok (counted eqb [] (final_codes (outcomes i) 0 payloads), status, sent))
          × IsPrintable status
    unfolding run_one
    run_one-ok i =
        let (rs, e, codes, hs) = gather-Gathers (outcomes i) 0 payloads sendable (clean i) in
        let (ks, e', texts) = statuses_of-ok rs hs in
        (
          counted same_value [] ks,
          length rs,
          rw (e, e', codes) refl,
          counted-IsPrintable same_value ks [] texts tt,
        )

    run_all-counts :
        (repeat runs i : ℕ) (t : Totals)
        → IsPrintable t.status
        → (t' : Totals) × (run_all l format same_value f receiver outcomes clock payloads repeat i
              runs t
            ≡ ok t')
          × IsPrintable t'.status
          × (total t'.http ≡ total t.http + runs * size payloads)
          × ((code : ℕ)
              → value_of eqb code t'.http
                ≡ value_of eqb code t.http + ended code outcomes payloads i runs)
    unfolding run_all
    run_all-counts repeat zero i t h = (t, refl, h, omega arith, λ code. omega arith)
    run_all-counts repeat (suc runs) i t h =
        let (status, sent, e, g) = run_one-ok i in
        let codes = final_codes (outcomes i) 0 payloads in
        let (lines, printed) =
          run_lines-ok f i repeat sent (clock.run i) (counted eqb [] codes) status g in
        let t1 : Totals = record {
          http = update eqb t.http (counted eqb [] codes);
          status = update same_value t.status status;
          printed = t.printed ++ lines;
        } in
        let (t', e', h', sum, each) =
          run_all-counts repeat runs (suc i) t1
            (update-IsPrintable same_value status t.status g h) in
        (
          t',
          rw (e, printed) e',
          h',
          omega (
            arith,
            sum,
            total-update-counted eqb t.http codes,
            size-final_codes (outcomes i) 0 payloads,
          ),
          λ code. omega (arith, each code, value_of-update-counted code t.http codes),
        )

    -- If every payload has a gateway, a body and headers that are a dict or missing, no POST ends with
    -- an exception other than a missing answer, nor with a status other than a text or None, and the
    -- clock has moved, the script ends: it has counted each payload once for each repeat, under the
    -- code that its request ended with, its last lines report these counts, and its exit status is 0
    -- exactly if none ended with 0 or 503, and else 1.
    pub main-counts :
        (path : String) (repeat : ℕ)
        → clock.overall ≢ 0
        → let errors = ended 0 outcomes payloads 1 repeat + ended 503 outcomes payloads 1 repeat in
          (t : Totals) × (lines : List String) × (total_lines f
              (repeat * size payloads)
              clock.overall
              errors
              t.http
              t.status
            ≡ ok lines)
          × (main l format same_value f receiver outcomes clock path payloads repeat
              ≡ ok (t.printed ++ lines, if eqb errors 0 then 0 else 1))
          × (total t.http ≡ repeat * size payloads)
          × ((code : ℕ) → value_of eqb code t.http ≡ ended code outcomes payloads 1 repeat)
    unfolding main
    main-counts path repeat moved =
        let start = no_totals (loaded_line f (length payloads) path ∷ []) in
        let (t, e, h, sum, each) = run_all-counts repeat repeat 1 start tt in
        let counts = λ (code : ℕ).
          let k : value_of eqb code t.http ≡ ended code outcomes payloads 1 repeat =
            omega (arith, each code) in
          k in
        let all : total t.http ≡ repeat * size payloads = omega (arith, sum) in
        let errors = ended 0 outcomes payloads 1 repeat + ended 503 outcomes payloads 1 repeat in
        let (lines, printed) =
          total_lines-ok f (repeat * size payloads) clock.overall errors t.http t.status moved h in
        let after = λ (r : Result (List String)).
          and_then r (λ ls. ok (t.printed ++ ls, if eqb errors 0 then 0 else 1)) in
        (t, lines, printed, rw (e, counts 0, counts 503, all) (ap after printed), all, counts)
