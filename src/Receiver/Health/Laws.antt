-- ===== src/Receiver/Health/Laws.antt =====
-- What the readiness check answers.
use gex_test_jonatha.Prelude.{
  ℕ, ◌≡◌, refl, ◌⊎◌, inl, inr, Bool, true, false, none, some, List, [], ◌∷◌,
}
use gex_test_jonatha.Exec.{Exn, lib, runtime_error, Result, ok, raise}
use gex_test_jonatha.World.{Fault}
use gex_test_jonatha.Receiver.App.{App}
use gex_test_jonatha.Receiver.Health.{
  JsonResponse, Checks, no_failures, note_db, note_rmq, health_ready,
}

-- the next call of the world works
abbrev pub Answers : List Fault → Type 0
Answers [] = Unit {0}
Answers (none ∷ fs) = Unit {0}
Answers (some f ∷ fs) = ⊥

-- Everything that the check looks at is there.
pub record IsReady (a : App) (is_closed : Result Bool) : Type 0 where
  pub factory : a.database.session_factory ≡ true
  pub answers : Answers a.world.faults
  pub connection : a.world.publisher.connection ≡ true
  pub opened : is_closed ≡ ok false

-- the status of the answer
abbrev pub code_of : Result JsonResponse → ℕ
code_of (ok r) = r.status_code
code_of (raise e) = 0

-- the answer is 200 and all is there, or it is 503 and something is not
abbrev Verdict : App → Result Bool → Type 0
Verdict a c =
    ((code_of (health_ready c a).0 ≡ 200) × IsReady a c)
    ⊎ ((code_of (health_ready c a).0 ≡ 503) × (¬ IsReady a c))

-- a process by what the check looks at
abbrev process : App → Bool → List Fault → Bool → App
process a made fs connection = record a {
  world = record a.world {
    faults = fs;
    publisher = record a.world.publisher { connection = connection };
  };
  database = record a.database { session_factory = made };
}

abbrev no_factory : Exn
no_factory = runtime_error "Database.connect() must be called before using the session factory"

module _ (a : App) where
  verdict_answered :
      (c : Result Bool) (fs : List Fault) (k : Bool) → Answers fs → Verdict (process a true fs k) c
  unfolding health_ready
  verdict_answered c [] false h = inr (refl, λ r. cc (r.connection))
  verdict_answered c (none ∷ fs) false h = inr (refl, λ r. cc (r.connection))
  verdict_answered (ok true) [] true h = inr (refl, λ r. cc (r.opened))
  verdict_answered (ok true) (none ∷ fs) true h = inr (refl, λ r. cc (r.opened))
  verdict_answered (ok false) [] true h =
      inl (refl, record { factory = refl; answers = tt; connection = refl; opened = refl })
  verdict_answered (ok false) (none ∷ fs) true h =
      inl (refl, record { factory = refl; answers = tt; connection = refl; opened = refl })
  verdict_answered (raise e) [] true h = inr (refl, λ r. cc (r.opened))
  verdict_answered (raise e) (none ∷ fs) true h = inr (refl, λ r. cc (r.opened))
  verdict_answered c (some f ∷ fs) k h = absurd h

  -- whatever the publisher's check notes, a failed ping stays noted
  note_rmq-failed :
      (k : Bool) (c : Result Bool) (checks : Checks)
      → checks.overall_ok ≡ false
      → (note_rmq k c checks).overall_ok ≡ false
  note_rmq-failed false c checks h = refl
  note_rmq-failed true (ok true) checks h = refl
  note_rmq-failed true (ok false) checks h = h
  note_rmq-failed true (raise e) checks h = refl

  verdict_reached :
      (c : Result Bool) (made : Bool) (fs : List Fault) (k : Bool) → Verdict (process a made fs k) c
  unfolding health_ready
  verdict_reached c false fs k = inr (
    rw (note_rmq-failed k c (note_db (raise no_factory) no_failures) refl) refl,
    λ r. cc (r.factory),
  )
  verdict_reached c true [] k = verdict_answered c [] k tt
  verdict_reached c true (none ∷ fs) k = verdict_answered c (none ∷ fs) k tt
  verdict_reached c true (some (x, m) ∷ fs) k =
      inr
        (rw (note_rmq-failed k c (note_db (raise (lib x m)) no_failures) refl) refl, λ r. r.answers)

  -- The readiness check answers 200 exactly if the database gives a session that answers and the
  -- connection to RabbitMQ is there and open; else it answers 503.
  pub health_ready_iff :
      (c : Result Bool)
      → ((code_of (health_ready c a).0 ≡ 200) × IsReady a c)
        ⊎ ((code_of (health_ready c a).0 ≡ 503) × (¬ IsReady a c))
  health_ready_iff c =
      verdict_reached c a.database.session_factory a.world.faults a.world.publisher.connection
