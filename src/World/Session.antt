-- ===== src/World/Session.antt =====
-- `get_db_session` of the receiver's dependencies.py and `db_session` of the worker's db.py: a
-- session that is committed when the block returns and rolled back when it raises.
use gex_test_jonatha.Prelude.{none, some, List, [], ◌∷◌}
use gex_test_jonatha.Exec.{Exec, Result, ok, raise, lib}
use gex_test_jonatha.World.{World, Fault}

-- a new session sees what is committed
abbrev pub begin : World → World
begin w = record w { session = w.tables }

abbrev pub rollback : World → World
rollback w = record w { session = w.tables }

abbrev pub commit_with : List Fault → Exec World (Unit {0})
commit_with [] w = (ok tt, record w { tables = w.session })
commit_with (none ∷ fs) w = (ok tt, record w { tables = w.session; commit_faults = fs })
commit_with (some (c, m) ∷ fs) w = (raise (lib c m), record w { commit_faults = fs })

-- `await session.commit()`
unfoldable pub commit : Exec World (Unit {0})
commit w = commit_with w.commit_faults w

-- what stands around the `yield`
abbrev pub after_commit : {A : Type 0} → A → Result (Unit {0}) × World → Result A × World
after_commit a (ok _, w) = (ok a, w)
after_commit a (raise e, w) = (raise e, rollback w)

abbrev pub finish : {A : Type 0} → Result A × World → Result A × World
finish (ok a, w) = after_commit a (commit w)
finish (raise e, w) = (raise e, rollback w)

unfoldable pub with_session : {A : Type 0} → Exec World A → Exec World A
unfolding commit
with_session m w = finish (m (begin w))

-- The same around a request: FastAPI sends the response when the handler returns, and runs what
-- follows the `yield` after that, so a commit that raises changes nothing of the answer.
abbrev pub answered : {A : Type 0} → Result A × World → Result A × World
answered p = (p.0, (finish p).1)

unfoldable pub with_dependency : {A : Type 0} → Exec World A → Exec World A
unfolding commit
with_dependency m w = answered (m (begin w))
