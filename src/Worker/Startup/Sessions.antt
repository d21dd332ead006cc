-- ===== src/Worker/Startup/Sessions.antt =====
-- The engine of the worker's db.py over its starts and stops, and its sessions.
use gex_test_jonatha.Prelude.{
  ℕ, ◌+◌, ◌-◌, arith, if◌then◌else◌, ◌≡◌, refl, ap, String, Bool, true, false, none, some, List, [],
  ◌∷◌,
}
use gex_test_jonatha.Exec.{
  Exec, Result, continue, modify, pure, throw, ok, raise, runtime_error, ◌>>◌,
}
use gex_test_jonatha.World.Calls.{call, with_fault}
use gex_test_jonatha.Common.Models.{LeadReceivedMessage}
use gex_test_jonatha.Common.Library.{Library}
use gex_test_jonatha.Worker.Consumer.{process_lead, handle_lead}
use gex_test_jonatha.World.Session.{with_session}
use gex_test_jonatha.Common.Config.{AppSettings}
use gex_test_jonatha.Common.Logging.{Loggers, is_level, setup_logging}
use gex_test_jonatha.World.{Fault, World}
use gex_test_jonatha.Worker.Consumer.Laws.{quiet}
use gex_test_jonatha.Worker.Startup.{
  Process, back, relog, on_world, init_db, close_db, setup, teardown, db_session, on_lead,
}

-- A hook, or a block in a session, whatever it returns.
pub data Action : Type 1 where
  starts : (String → String) → AppSettings → Action
  stops : Action
  uses : {A : Type 0} → Exec World A → Action

unfoldable pub act : Action → Process → Process
act (starts upper app_settings) p = (setup upper app_settings p).1
act stops p = (teardown p).1
act (uses block) p = (db_session block p).1

unfoldable pub act_all : List Action → Process → Process
unfolding act
act_all [] p = p
act_all (a ∷ as') p = act_all as' (act a p)

-- The engine is set where the factory is, and it is the one engine that has been opened since there
-- were `n`.
abbrev pub IsOwned : ℕ → Process → Type 0
IsOwned n p = (p.factory ≡ p.engine) × (p.engines ≡ (if p.engine then n + 1 else n))

made_engine :
    (n : ℕ) (p : Process) (fs : List Fault)
    → p.engine ≡ false
    → IsOwned n p
    → IsOwned n
        (continue
          (λ _. do
            modify (λ p. record p { engine = true; engines = p.engines + 1 })
            modify (λ p. record p { factory = true }))
          (back p (with_fault fs p.world))).1
made_engine n p [] none_yet (same, count) = (refl, ground arith)
made_engine n p (none ∷ fs) none_yet (same, count) = (refl, ground arith)
made_engine n p (some (c, m) ∷ fs) none_yet h = h

init_db-IsOwned : (n : ℕ) (p : Process) → IsOwned n p → IsOwned n (init_db p).1
unfolding init_db
init_db-IsOwned n p h = go p.engine refl
  where
    go :
        (made : Bool)
        → p.engine ≡ made
        → IsOwned n
            ((if made then pure tt else (do
              on_world call
              modify (λ p. record p { engine = true; engines = p.engines + 1 })
              modify (λ p. record p { factory = true })))
              p).1
    go true e = h
    go false e = made_engine n p p.world.faults e h

-- the end of `close_db`
disposed :
    (n : ℕ) (p : Process) (fs : List Fault)
    → p.engine ≡ true
    → IsOwned n p
    → IsOwned n
        (continue
          (λ _. modify (λ p. record p { engine = false; factory = false }))
          (continue
            (λ _. modify (λ p. record p { engines = p.engines - 1 }))
            (back p (with_fault fs p.world)))).1
disposed n p [] made (same, count) = (refl, ground arith)
disposed n p (none ∷ fs) made (same, count) = (refl, ground arith)
disposed n p (some (c, m) ∷ fs) made h = h

close_db-IsOwned : (n : ℕ) (p : Process) → IsOwned n p → IsOwned n (close_db p).1
unfolding close_db
close_db-IsOwned n p h = go p.engine refl
  where
    go :
        (made : Bool)
        → p.engine ≡ made
        → IsOwned n
            ((do
              if made
                  then (do on_world call; modify (λ p. record p { engines = p.engines - 1 }))
                  else pure tt
              modify (λ p. record p { engine = false; factory = false }))
              p).1
    go true e = disposed n p p.world.faults e h
    go false e = (refl, ground arith)

db_session-IsOwned :
    (n : ℕ) {A : Type 0} (block : Exec World A) (p : Process)
    → IsOwned n p
    → IsOwned n (db_session block p).1
unfolding db_session
db_session-IsOwned n block p h = go p.factory
  where
    go :
        (made : Bool)
        → IsOwned n
            ((if made
                then on_world (with_session block)
                else throw (runtime_error "init_db() must be called before db_session()"))
              p).1
    go true = h
    go false = h

setup-IsOwned :
    (n : ℕ) (upper : String → String) (app_settings : AppSettings) (p : Process)
    → IsOwned n p
    → IsOwned n (setup upper app_settings p).1
unfolding setup
setup-IsOwned n upper app_settings p h =
    logged (setup_logging upper app_settings.log_level p.loggers)
  where
    logged : (r : Result (Unit {0}) × Loggers) → IsOwned n (continue (λ _. init_db) (relog p r)).1
    logged (ok u, ls) = init_db-IsOwned n (record p { loggers = ls }) h
    logged (raise e, ls) = h

act-IsOwned : (n : ℕ) (a : Action) (p : Process) → IsOwned n p → IsOwned n (act a p)
unfolding act teardown
act-IsOwned n (starts upper app_settings) p h = setup-IsOwned n upper app_settings p h
act-IsOwned n stops p h = close_db-IsOwned n p h
act-IsOwned n (uses block) p h = db_session-IsOwned n block p h

-- Over any starts, stops and blocks in sessions, whatever the calls raise, the factory is set exactly
-- where the engine is, and one engine more is open than at the beginning if it is set, and else none,
-- if it was so at the beginning.
pub act_all-IsOwned :
    (n : ℕ) (as' : List Action) (p : Process) → IsOwned n p → IsOwned n (act_all as' p)
unfolding act_all
act_all-IsOwned n [] p h = h
act_all-IsOwned n (a ∷ as') p h = act_all-IsOwned n as' (act a p) (act-IsOwned n a p h)

-- The process with no call that raises.
abbrev pub unfailing : Process → Process
unfailing p = record p { world = quiet p.world }

db_session-set :
    {A : Type 0} (block : Exec World A) (p : Process)
    → p.factory ≡ true
    → db_session block p ≡ on_world (with_session block) p
unfolding db_session
db_session-set block p h =
    ap
      (λ (made : Bool).
        (if made
            then on_world (with_session block)
            else throw (runtime_error "init_db() must be called before db_session()"))
          p)
      h

setup_factory :
    (n : ℕ) (upper : String → String) (app_settings : AppSettings) (p : Process)
    → is_level (upper app_settings.log_level) ≡ true
    → IsOwned n p
    → let (r, p') = setup upper app_settings (unfailing p) in (r ≡ ok tt) × (p'.factory ≡ true)
unfolding setup init_db setup_logging
setup_factory n upper app_settings p known (same, count) = rw known (go _ p.engine p.factory same)
  where
    go :
        (ls : Loggers) (engine factory : Bool)
        → factory ≡ engine
        → let (r, p') =
            init_db (record (unfailing p) { loggers = ls; engine = engine; factory = factory }) in
          (r ≡ ok tt) × (p'.factory ≡ true)
    go ls true factory e = (refl, e)
    go ls false factory e = (refl, refl)

db_session-unset :
    {A : Type 0} (block : Exec World A) (p : Process)
    → p.factory ≡ false
    → db_session block p ≡ (raise (runtime_error "init_db() must be called before db_session()"), p)
unfolding db_session
db_session-unset block p h =
    ap
      (λ (made : Bool).
        (if made
            then on_world (with_session block)
            else throw (runtime_error "init_db() must be called before db_session()"))
          p)
      h

teardown_factory : (p : Process) → (teardown (unfailing p)).1.factory ≡ false
unfolding teardown close_db
teardown_factory p = go p.engine
  where
    go :
        (made : Bool)
        → ((do
          if made
              then (do on_world call; modify (λ p. record p { engines = p.engines - 1 }))
              else pure tt
          modify (λ p. record p { engine = false; factory = false }))
            (unfailing p)).1.factory
          ≡ false
    go true = refl
    go false = refl

-- From a process whose engine and factory are both set or both unset, while no call raises and Python
-- knows the log level: after `setup` a lead is handled in a session, as `handle_lead` says, and after
-- `teardown` a RuntimeError is raised in its place and nothing changes.
pub setup_sessions :
    (n : ℕ) (upper : String → String) (app_settings : AppSettings) (p : Process) (l : Library)
    (msg : LeadReceivedMessage) (cid : String)
    → is_level (upper app_settings.log_level) ≡ true
    → IsOwned n p
    → let (r, p1) = setup upper app_settings (unfailing p) in
      let p2 = (teardown (unfailing p1)).1 in
      (r ≡ ok tt)
      × (on_lead l msg cid p1 ≡ on_world (handle_lead l msg cid) p1)
      × (on_lead l msg cid p2
          ≡ (raise (runtime_error "init_db() must be called before db_session()"), p2))
unfolding on_lead handle_lead
setup_sessions n upper app_settings p l msg cid known h =
    let (done, set) = setup_factory n upper app_settings p known h in
    let p1 = (setup upper app_settings (unfailing p)).1 in
    (
      done,
      db_session-set (process_lead l msg cid) p1 set,
      db_session-unset (process_lead l msg cid) (teardown (unfailing p1)).1 (teardown_factory p1),
    )
