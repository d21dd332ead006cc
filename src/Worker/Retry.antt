-- ===== src/Worker/Retry.antt =====
-- `RetryMiddleware` and `CorrelationIdMiddleware` of middleware.py.
pub mod Laws
use gex_test_jonatha.Prelude.{
  ℕ, ◌+◌, ◌*◌, String, Bool, true, false, Option, none, some, List, [], ◌∷◌, if◌then◌else◌,
}
use gex_test_jonatha.Prelude.Strings.{is_empty}
use gex_test_jonatha.Exec.{Exn, permanent, Result, ok, raise, Exec, throw, ◌>>=◌, ◌>>◌, continue}
use gex_test_jonatha.Common.Config.{retry_backoffs_ms}
use gex_test_jonatha.Common.Library.{Library}
use gex_test_jonatha.World.{World}

-- `getattr(e, "_no_retry", False)`
abbrev pub is_no_retry : Exn → Bool
is_no_retry (permanent _) = true
is_no_retry _ = false

-- `asyncio.sleep(delay_ms / 1000.0)`: time passes
abbrev pub sleep : ℕ → World → World
sleep delay_ms w = record w { now = w.now + delay_ms * 1000 }

-- What a round does with the outcome of its call: `return`, `raise`, or the next round.
unfoldable pub after_try : {S A : Type 0} → (S → Result A × S) → Result A × S → Result A × S
after_try next (ok a, s) = (ok a, s)
after_try next (raise e, s) = if is_no_retry e then (raise e, s) else next s

-- One round for each backoff that is left, and a last one whose exception is raised in any case.
unfoldable pub retry_loop : {S A : Type 0} → (ℕ → S → S) → List ℕ → Exec S A → Exec S A
unfolding after_try
retry_loop pause [] call_next s = call_next s
retry_loop pause (delay_ms ∷ backoffs) call_next s =
    after_try (λ s'. retry_loop pause backoffs call_next (pause delay_ms s')) (call_next s)

-- `RetryMiddleware.consume_scope`
unfoldable pub consume_with_retry : {A : Type 0} → Exec World A → Exec World A
unfolding retry_loop
consume_with_retry call_next = retry_loop sleep retry_backoffs_ms call_next

-- `CorrelationIdMiddleware.consume_scope`: the id of the message, or a fresh one
unfoldable pub scoped_correlation_id : Library → Option String → ℕ → String
scoped_correlation_id l none fresh = l.uuid4 fresh
scoped_correlation_id l (some id) fresh = if is_empty id then l.uuid4 fresh else id

-- `bind_structlog_context`: the context variables, whatever they were
abbrev pub bind_structlog_context :
    String → String → String → String → List (String × String) → List (String × String)
bind_structlog_context correlation_id gateway event customer_id context =
    ("correlation_id", correlation_id)
    ∷ ("gateway", gateway)
    ∷ ("event", event)
    ∷ ("customer_id", customer_id)
    ∷ []
