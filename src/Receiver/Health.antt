-- ===== src/Receiver/Health.antt =====
-- health.py: the readiness check.
pub mod Laws
use gex_test_jonatha.Prelude.{
  ℕ, String, Bool, true, false, Option, none, some, ◌||◌, ◌&&◌, not, is_none, if◌then◌else◌,
}
use gex_test_jonatha.Prelude.Strings.{◌+++◌}
use gex_test_jonatha.Exec.{
  Exn, class_name, Result, ok, raise, Exec, pure, throw, gets, modify, continue, ◌>>=◌, ◌>>◌,
}
use gex_test_jonatha.Json.{Json, text, dict, Fields, end, field}
use gex_test_jonatha.World.Calls.{call}
use gex_test_jonatha.Receiver.App.{App, on_world, session_factory}

-- liveness
abbrev pub health : Json
health = dict (field "status" (text "ok") end)

pub record JsonResponse : Type 0 where
  pub status_code : ℕ
  pub content : Json

-- `checks`, with `overall_ok`
pub record Checks : Type 0 where
  pub db : String
  pub rmq : String
  pub overall_ok : Bool

abbrev pub no_failures : Checks
no_failures = record { db = "ok"; rmq = "ok"; overall_ok = true }

-- `SELECT 1` in a session of its own
unfoldable pub ping : Exec App (Unit {0})
unfolding session_factory
ping = do session_factory; on_world call

abbrev pub note_db : Result (Unit {0}) → Checks → Checks
note_db (ok _) c = c
note_db (raise e) c = record c { db = "error: " +++ class_name e; overall_ok = false }

-- `is_closed`: what aio_pika's property does
abbrev pub note_rmq : Bool → Result Bool → Checks → Checks
note_rmq false is_closed c = record c { rmq = "error: connection closed"; overall_ok = false }
note_rmq true (ok true) c = record c { rmq = "error: connection closed"; overall_ok = false }
note_rmq true (ok false) c = c
note_rmq true (raise e) c = record c { rmq = "error: " +++ class_name e; overall_ok = false }

unfoldable pub respond : Checks → JsonResponse
respond c = record {
  status_code = if c.overall_ok then 200 else 503;
  content = dict (
      field "status" (text (if c.overall_ok then "ok" else "degraded"))
        (field "db" (text c.db) (field "rmq" (text c.rmq) end)));
}

unfoldable pub health_ready : Result Bool → Exec App JsonResponse
unfolding ping respond
health_ready is_closed a =
    let (r, a') = ping a in
    (ok (respond (note_rmq a'.world.publisher.connection is_closed (note_db r no_failures))), a')
