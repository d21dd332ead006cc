-- ===== src/Receiver/App/Lifespan.antt =====
-- What `lifespan` leaves open.
use gex_test_jonatha.Prelude.{
  ◌+◌, ◌-◌, ◌≡◌, refl, ap, ◌∙◌, String, true, false, none, some, List, [], ◌∷◌, arith,
}
use gex_test_jonatha.Exec.{Exn, lib, Result, ok, raise, Exec, finished, finally, continue}
use gex_test_jonatha.Common.Config.{AppSettings}
use gex_test_jonatha.Common.Logging.{is_level, setup_logging}
use gex_test_jonatha.World.{Fault}
use gex_test_jonatha.Receiver.Publisher as Rabbit
use gex_test_jonatha.Receiver.App.{App, no_database, start, stop, lifespan}

-- the process with these calls to come
abbrev pub facing : List Fault → App → App
facing fs a = record a { world = record a.world { faults = fs } }

-- The engine and the connection that `start` has made are there.
pub record IsServing (a : App) : Type 0 where
  pub engine : a.database.engine ≡ true
  pub connection : a.world.publisher.connection ≡ true

-- the process with the engine and the connection, by the calls to come
abbrev serving : List Fault → App → App
serving fs a = record a {
  world = record a.world {
    faults = fs;
    publisher = record a.world.publisher { connection = true };
  };
  database = record a.database { engine = true };
}

-- `_connection`, `_channel` and the exchanges are None again
abbrev pub IsShut : App → Type 0
IsShut a =
    (a.database ≡ no_database)
    × (a.world.publisher ≡ record {
      connection = false;
      channel = false;
      exchange_lead = false;
      exchange_dist = false;
    })

stop_quiet :
    (a : App)
    → let (r, a') = stop (serving [] a) in (r ≡ ok tt) × IsShut a' × (a'.engines ≡ a.engines - 1)
unfolding stop Rabbit.close
stop_quiet a = (refl, (refl, refl), refl)

stop_fails :
    (a : App) (c m : String) (fs : List Fault)
    → let (r, a') = stop (serving (some (c, m) ∷ fs) a) in
      (r ≡ raise (lib c m)) × (a'.database.engine ≡ true) × (a'.engines ≡ a.engines)
unfolding stop Rabbit.close
stop_fails a c m fs = (refl, refl, refl)

continue_ok :
    {A : Type 0} (p : Result (Unit {0}) × App) (k : Exec App A)
    → p.0 ≡ ok tt
    → continue (λ _. k) p ≡ k p.1
continue_ok (ok tt, s) k h = refl
continue_ok (raise e, s) k h = cc

finished_ok :
    {A : Type 0} (r : Result A) (p : Result (Unit {0}) × App)
    → p.0 ≡ ok tt
    → finished r p ≡ (r, p.1)
finished_ok r (ok tt, s) h = refl
finished_ok r (raise e, s) h = cc

finished_raise :
    {A : Type 0} (r : Result A) (p : Result (Unit {0}) × App) (x : Exn)
    → p.0 ≡ raise x
    → finished r p ≡ (raise x, p.1)
finished_raise r (ok tt, s) x h = cc
finished_raise r (raise e, s) x h = cc

module _ (upper : String → String) (app_settings : AppSettings)
    (known : is_level (upper app_settings.log_level) ≡ true) where
  pub start_quiet :
      (a : App)
      → let (r, a') = start upper app_settings (facing [] a) in
        (r ≡ ok tt) × IsServing a' × (a'.engines ≡ a.engines + 1) × (a'.world.faults ≡ [])
  unfolding start setup_logging Rabbit.connect Rabbit.declare_topology
  start_quiet a = (
    rw known refl,
    record { engine = rw known refl; connection = rw known refl },
    rw known refl,
    rw known refl,
  )

  -- where the application is served, if no call raises before
  abbrev pub started : App → App
  started a = (start upper app_settings (facing [] a)).1

  lifespan-stop :
      {A : Type 0} (a : App) (serve : Exec App A) (r : Result A) (a2 : App)
      → serve (started a) ≡ (r, a2)
      → lifespan upper app_settings serve (facing [] a) ≡ finished r (stop a2)
  unfolding lifespan setup_logging Rabbit.connect
  lifespan-stop {A} a serve r a2 e =
      continue_ok (start upper app_settings (facing [] a)) (finally serve stop) (start_quiet a).0
      ∙ ap (λ (p : Result A × App). finished p.0 (stop p.1)) e

  -- While no call raises and Python knows the log level, the application is served with an engine,
  -- one more than before, and a connection; if it leaves these and the count of engines as they are, then whatever it returns
  -- or raises is the outcome, both are closed, and as many engines are open as at the beginning.
  pub lifespan_releases :
      {A : Type 0} (a : App) (serve : Exec App A) (r : Result A) (a2 : App)
      → serve (started a) ≡ (r, a2)
      → IsServing a2
      → a2.world.faults ≡ []
      → a2.engines ≡ (started a).engines
      → let (r', a3) = lifespan upper app_settings serve (facing [] a) in
        IsServing (started a)
        × ((started a).engines ≡ a.engines + 1)
        × (r' ≡ r)
        × IsShut a3
        × (a3.engines ≡ a.engines)
  lifespan_releases a serve r a2 e s f k =
      let held : a2 ≡ serving [] a2 = ground arith in
      let (done, shut, count) = stop_quiet a2 in
      let count' : (stop (serving [] a2)).1.engines ≡ a.engines =
        omega (arith, count, k, (start_quiet a).2) in
      let (_, up, more, _) = start_quiet a in
      let ended = lifespan-stop a serve r a2 e in
      let (same, closed, left) : (let (r', a3) = lifespan upper app_settings serve (facing [] a) in
          (r' ≡ r) × IsShut a3 × (a3.engines ≡ a.engines)) =
        rw (ended, held, finished_ok r (stop (serving [] a2)) done) (refl, shut, count') in
      (up, more, same, closed, left)

  -- If RabbitMQ's `close` raises at the end, that is the outcome, and the engine stays open; if its
  -- `connect` raises at the beginning, that is the outcome, nothing is served, and the engine that was
  -- made for it stays open too.
  pub lifespan_leaks :
      {A : Type 0} (a : App) (serve : Exec App A) (r : Result A) (a2 : App) (c m : String)
      (fs : List Fault)
      → serve (started a) ≡ (r, a2)
      → IsServing a2
      → a2.world.faults ≡ some (c, m) ∷ fs
      → (let (r', a3) = lifespan upper app_settings serve (facing [] a) in
          (r' ≡ raise (lib c m)) × (a3.database.engine ≡ true) × (a3.engines ≡ a2.engines))
        × (let (r', a3) = lifespan upper app_settings serve (facing (none ∷ some (c, m) ∷ fs) a) in
            (r' ≡ raise (lib c m)) × (a3.database.engine ≡ true) × (a3.engines ≡ a.engines + 1))
  unfolding lifespan setup_logging Rabbit.connect
  lifespan_leaks a serve r a2 c m fs e s f =
      let held : a2 ≡ serving (some (c, m) ∷ fs) a2 = ground arith in
      let (failed, engine, count) = stop_fails a2 c m fs in
      (
        rw
            (
              lifespan-stop a serve r a2 e,
              held,
              finished_raise r (stop (serving (some (c, m) ∷ fs) a2)) _ failed,
            )
            (refl, engine, count),
        (rw known refl, rw known refl, rw known refl),
      )
