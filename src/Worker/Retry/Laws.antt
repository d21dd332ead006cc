-- ===== src/Worker/Retry/Laws.antt =====
-- How often the retry middleware calls its handler, and what it raises in the end.
use gex_test_jonatha.Prelude.{
  ℕ, suc, ◌≤◌, ◌+◌, ◌≡◌, ◌∙◌, ap, false, List, [], ◌∷◌, length, arith, if◌then◌else◌,
}
use gex_test_jonatha.Exec.{Exn, ok, raise, Exec}
use gex_test_jonatha.World.{World}
use gex_test_jonatha.Worker.Retry.{is_no_retry, sleep, after_try, retry_loop, consume_with_retry}

module _ {S A : Type 0} (pause : ℕ → S → S) (m : Exec S A) where
  -- a call that returns ends the loop
  retry_loop_returns :
      (backoffs : List ℕ) (a : A) (s s' : S)
      → m s ≡ (ok a, s')
      → retry_loop pause backoffs m s ≡ (ok a, s')
  unfolding retry_loop
  retry_loop_returns [] a s s' h = h
  retry_loop_returns (d ∷ ds) a s s' h = ap (after_try (λ t. retry_loop pause ds m (pause d t))) h

  -- a call that raises what may be retried leads to the next round
  pub retry_loop_raises :
      (d : ℕ) (ds : List ℕ) (e : Exn) (s s' : S)
      → m s ≡ (raise e, s')
      → is_no_retry e ≡ false
      → retry_loop pause (d ∷ ds) m s ≡ retry_loop pause ds m (pause d s')
  unfolding retry_loop
  retry_loop_raises d ds e s s' h k =
      ap (after_try (λ t. retry_loop pause ds m (pause d t))) h ∙ rw k

-- A first call that raises what may be retried, and a second one, a second later, that returns.
pub retry_second :
    {A : Type 0} (m : Exec World A) (e : Exn) (a : A) (w w1 w2 : World)
    → m w ≡ (raise e, w1)
    → is_no_retry e ≡ false
    → m (sleep 1000 w1) ≡ (ok a, w2)
    → consume_with_retry m w ≡ (ok a, w2)
unfolding consume_with_retry
retry_second m e a w w1 w2 h k j =
    retry_loop_raises sleep m 1000 (4000 ∷ 16000 ∷ []) e w w1 h k
    ∙ retry_loop_returns sleep m (4000 ∷ 16000 ∷ []) a (sleep 1000 w1) w2 j

-- A handler that raises whenever it is called, counted by `calls`, which a pause leaves alone.
module _ {S A : Type 0} (pause : ℕ → S → S) (calls : S → ℕ) (m : Exec S A)
    (paused : (d : ℕ) (s : S) → calls (pause d s) ≡ calls s)
    (counted : (s : S) → calls (m s).1 ≡ suc (calls s)) where
  -- If every call raises the same exception, the loop raises it: after one call if it says not to
  -- retry, and else after one call for each backoff and a last one, if each call is counted and a
  -- pause is not.
  pub retry_loop_failing :
      (e : Exn) (backoffs : List ℕ) (s : S)
      → ((t : S) → (m t).0 ≡ raise e)
      → let (r, s') = retry_loop pause backoffs m s in
        (r ≡ raise e) × (calls s' ≡ calls s + (if is_no_retry e then 1 else (length backoffs + 1)))
  unfolding retry_loop
  retry_loop_failing e [] s h = (h s, ground (arith, counted s))
  retry_loop_failing e (d ∷ ds) s h =
      ground (arith, h s, counted s, paused d (m s).1, retry_loop_failing e ds (pause d (m s).1) h)

  -- The loop makes at least one call, and no more than there are backoffs and one, if each call is
  -- counted and a pause is not.
  pub retry_loop_bounded :
      (backoffs : List ℕ) (s : S)
      → let (r, s') = retry_loop pause backoffs m s in
        (suc (calls s) ≤ calls s') × (calls s' ≤ calls s + (length backoffs + 1))
  unfolding retry_loop
  retry_loop_bounded [] s = ground (arith, counted s)
  retry_loop_bounded (d ∷ ds) s =
      ground (arith, counted s, paused d (m s).1, retry_loop_bounded ds (pause d (m s).1))
