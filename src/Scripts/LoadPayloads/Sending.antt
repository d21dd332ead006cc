-- ===== src/Scripts/LoadPayloads/Sending.antt =====
-- `_send_one` over the outcomes of its POSTs.
use gex_test_jonatha.Prelude.{
  ℕ, zero, suc, ◌+◌, ◌-◌, ◌≤◌, ◌≡◌, ◌≢◌, refl, String, false, List, [], ◌∷◌, ◌++◌, All, eqb, arith,
}
use gex_test_jonatha.Exec.{ok}
use gex_test_jonatha.Json.{Json, null}
use gex_test_jonatha.Common.Library.{Library}
use gex_test_jonatha.Scripts.LoadPayloads.Counting.{size}
use gex_test_jonatha.Scripts.LoadPayloads.{
  Response, Attempt, answered, unreachable, broken, Post, Client, power_of_two, status_of,
  send_loop, prepare, send_one, fresh_client,
}

-- an outcome after which the loop goes on: a 503, or no answer
abbrev pub IsTransient : Attempt → Type 0
IsTransient (answered r) = r.status_code ≡ 503
IsTransient unreachable = Unit {0}
IsTransient (broken e) = ⊥

abbrev pub copies : {A : Type 0} → ℕ → A → List A
copies zero a = []
copies (suc n) a = a ∷ copies n a

-- a client after some rounds
abbrev pub client : List Attempt → List Post → ℕ → Client
client os posts slept = record { outcomes = os; posts = posts; slept = slept }

module _ (p : Post) (posts : List Post) (slept : ℕ) (os : List Attempt) where
  send_loop-transient :
      (n : ℕ) (rest : List ℕ) (a : Attempt)
      → eqb n 3 ≡ false
      → IsTransient a
      → send_loop p (n ∷ rest) (client (a ∷ os) posts slept)
        ≡ send_loop p rest (client os (posts ++ p ∷ []) (slept + power_of_two n))
  unfolding send_loop
  send_loop-transient n rest (answered r) early h = rw h refl
  send_loop-transient n rest unreachable early h = rw early refl
  send_loop-transient n rest (broken e) early h = absurd h

  send_loop-answered :
      (n : ℕ) (rest : List ℕ) (r : Response)
      → r.status_code ≢ 503
      → send_loop p (n ∷ rest) (client (answered r ∷ os) posts slept)
        ≡ (ok (r.status_code, status_of r), client os (posts ++ p ∷ []) slept)
  unfolding send_loop
  send_loop-answered n rest r h = let e : eqb r.status_code 503 ≡ false = ground arith in rw e refl

-- the result after the fourth transient outcome, and the seconds slept in all
abbrev pub given_up : Attempt → ℕ × Json
given_up unreachable = (0, null)
given_up a = (503, null)

abbrev pub seconds_until : Attempt → ℕ
seconds_until unreachable = 7
seconds_until a = 15

send_loop-last :
    (p : Post) (posts : List Post) (slept : ℕ) (os : List Attempt) (a : Attempt)
    → IsTransient a
    → slept ≡ 7
    → send_loop p (3 ∷ []) (client (a ∷ os) posts slept)
      ≡ (ok (given_up a), client os (posts ++ p ∷ []) (seconds_until a))
unfolding send_loop
send_loop-last p posts slept os (answered r) h s = rw (h, s) refl
send_loop-last p posts slept os unreachable h s = rw s refl
send_loop-last p posts slept os (broken e) h s = absurd h

module _ (l : Library) (format : Json → String) (receiver : String) (payload : Json) (p : Post)
    (prepared : prepare l format receiver payload ≡ ok p) where
  -- After at most three transient outcomes, an answer other than 503 is returned with the status in
  -- its body, one more POST has been sent than there were such outcomes, all the same, and the sleeps
  -- between them add up to a power of two less one.
  pub send_one-answered :
      (ts : List Attempt) (r : Response) (os : List Attempt)
      → size ts ≤ 3
      → All IsTransient ts
      → r.status_code ≢ 503
      → send_one l format receiver payload (fresh_client l format (ts ++ answered r ∷ os)) ≡ (
        ok (r.status_code, status_of r),
        client os (copies (suc (size ts)) p) (power_of_two (size ts) - 1),
      )
  unfolding send_one
  send_one-answered [] r os few ts h =
      rw prepared (send_loop-answered p [] 0 os 0 (1 ∷ 2 ∷ 3 ∷ []) r h)
  send_one-answered (a ∷ []) r os few (ha, _) h =
      rw (prepared, send_loop-transient p [] 0 (answered r ∷ os) 0 (1 ∷ 2 ∷ 3 ∷ []) a refl ha)
        (send_loop-answered p (p ∷ []) 1 os 1 (2 ∷ 3 ∷ []) r h)
  send_one-answered (a ∷ b ∷ []) r os few (ha, (hb, _)) h =
      rw
        (
          prepared,
          send_loop-transient p [] 0 (b ∷ answered r ∷ os) 0 (1 ∷ 2 ∷ 3 ∷ []) a refl ha,
          send_loop-transient p (p ∷ []) 1 (answered r ∷ os) 1 (2 ∷ 3 ∷ []) b refl hb,
        )
        (send_loop-answered p (p ∷ p ∷ []) 3 os 2 (3 ∷ []) r h)
  send_one-answered (a ∷ b ∷ c ∷ []) r os few (ha, (hb, (hc, _))) h =
      rw
        (
          prepared,
          send_loop-transient p [] 0 (b ∷ c ∷ answered r ∷ os) 0 (1 ∷ 2 ∷ 3 ∷ []) a refl ha,
          send_loop-transient p (p ∷ []) 1 (c ∷ answered r ∷ os) 1 (2 ∷ 3 ∷ []) b refl hb,
          send_loop-transient p (p ∷ p ∷ []) 3 (answered r ∷ os) 2 (3 ∷ []) c refl hc,
        )
        (send_loop-answered p (p ∷ p ∷ p ∷ []) 7 os 3 [] r h)
  send_one-answered (a ∷ b ∷ c ∷ d ∷ ts) r os few hs h = absurd (omega arith)

  -- Four transient outcomes end the loop: the result is 0 if the last POST got no answer and 503 else,
  -- without a status, four POSTs have been sent, and after a last 503 it has slept once more.
  pub send_one_exhausted :
      (a b c d : Attempt) (os : List Attempt)
      → All IsTransient (a ∷ b ∷ c ∷ d ∷ [])
      → send_one l format receiver payload (fresh_client l format (a ∷ b ∷ c ∷ d ∷ os))
        ≡ (ok (given_up d), client os (copies 4 p) (seconds_until d))
  unfolding send_one
  send_one_exhausted a b c d os (ha, (hb, (hc, (hd, _)))) =
      rw
        (
          prepared,
          send_loop-transient p [] 0 (b ∷ c ∷ d ∷ os) 0 (1 ∷ 2 ∷ 3 ∷ []) a refl ha,
          send_loop-transient p (p ∷ []) 1 (c ∷ d ∷ os) 1 (2 ∷ 3 ∷ []) b refl hb,
          send_loop-transient p (p ∷ p ∷ []) 3 (d ∷ os) 2 (3 ∷ []) c refl hc,
        )
        (send_loop-last p (p ∷ p ∷ p ∷ []) 7 os d hd refl)
