-- ===== src/World/Keeps.antt =====
-- Properties of the tables that are committed, of those that the open session sees, and of what is
-- published, which calls keep whatever MySQL and RabbitMQ raise.
use gex_test_jonatha.Prelude.{none, some, List, [], ◌∷◌, ◌++◌}
use gex_test_jonatha.Exec.{Exec, Result, ok, raise, modify}
use gex_test_jonatha.Exec.Keeps.{Keeps}
use gex_test_jonatha.World.{World, Tables, Fault, Published}
use gex_test_jonatha.Common.Library.{Library}
use gex_test_jonatha.World.Calls.{call, with_fault, send, new_uuid7, write}
use gex_test_jonatha.World.Session.{
  begin, commit_with, commit, after_commit, finish, with_session, with_dependency,
}

-- of the committed tables, the session's, and the messages
abbrev pub Property : Type 1
Property = Tables → Tables → List Published → Type 0

abbrev pub At : Property → World → Type 0
At Q w = Q w.tables w.session w.published

-- A commit keeps it, and so do the start of a session and a rollback.
pub record IsTransactional (Q : Property) : Type 0 where
  pub commits : (t s : Tables) (ps : List Published) → Q t s ps → Q s s ps
  pub opens : (t s : Tables) (ps : List Published) → Q t s ps → Q t t ps

-- A property of tables, of both.
pub record Both (T : Tables → Type 0) (t s : Tables) : Type 0 where
  pub committed : T t
  pub seen : T s

pub Both-IsTransactional : (T : Tables → Type 0) → IsTransactional (λ t s ps. Both T t s)
Both-IsTransactional T = record {
  commits = λ t s ps h. record { committed = h.seen; seen = h.seen };
  opens = λ t s ps h. record { committed = h.committed; seen = h.committed };
}

module _ (Q : Property) where
  pub Keeps-send :
      (p : Published)
      → ((t s : Tables) (ps : List Published) → Q t s ps → Q t s (ps ++ p ∷ []))
      → Keeps (At Q) (modify (send p))
  Keeps-send p k = record { at = λ w h. k w.tables w.session w.published h }

  At-with_fault : (fs : List Fault) (w : World) → At Q w → At Q (with_fault fs w).1
  At-with_fault [] w h = h
  At-with_fault (none ∷ fs) w h = h
  At-with_fault (some (c, m) ∷ fs) w h = h

  pub Keeps-call : Keeps (At Q) call
  Keeps-call = record { at = λ w h. At-with_fault w.faults w h }

  pub Keeps-new_uuid7 : (l : Library) → Keeps (At Q) (new_uuid7 l)
  Keeps-new_uuid7 l = record { at = λ w h. h }

  pub Keeps-write :
      (f : Tables → Tables)
      → ((t s : Tables) (ps : List Published) → Q t s ps → Q t (f s) ps)
      → Keeps (At Q) (modify (write f))
  Keeps-write f k = record { at = λ w h. k w.tables w.session w.published h }

  module _ (sessions : IsTransactional Q) where
    At-commit_with : (fs : List Fault) (w : World) → At Q w → At Q (commit_with fs w).1
    At-commit_with [] w h = sessions.commits _ _ _ h
    At-commit_with (none ∷ fs) w h = sessions.commits _ _ _ h
    At-commit_with (some (c, m) ∷ fs) w h = h

    pub Keeps-commit : Keeps (At Q) commit
    unfolding commit
    Keeps-commit = record { at = λ w h. At-commit_with w.commit_faults w h }

    At-after_commit :
        {A : Type 0} (a : A) (r : Result (Unit {0}) × World) → At Q r.1 → At Q (after_commit a r).1
    At-after_commit a (ok _, w) h = h
    At-after_commit a (raise e, w) h = sessions.opens _ _ _ h

    At-finish : {A : Type 0} (r : Result A × World) → At Q r.1 → At Q (finish r).1
    At-finish (ok a, w) h = At-after_commit a (commit w) (Keeps-commit.at w h)
    At-finish (raise e, w) h = sessions.opens _ _ _ h

    pub Keeps-with_session :
        {A : Type 0} (m : Exec World A) → Keeps (At Q) m → Keeps (At Q) (with_session m)
    unfolding with_session
    Keeps-with_session m k = record {
      at = λ w h. At-finish (m (begin w)) (k.at (begin w) (sessions.opens _ _ _ h));
    }

    pub Keeps-with_dependency :
        {A : Type 0} (m : Exec World A) → Keeps (At Q) m → Keeps (At Q) (with_dependency m)
    unfolding with_dependency
    Keeps-with_dependency m k = record {
      at = λ w h. At-finish (m (begin w)) (k.at (begin w) (sessions.opens _ _ _ h));
    }
