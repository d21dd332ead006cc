-- ===== src/World/Calls.antt =====
-- Calls to MySQL and RabbitMQ that may raise, and the drawing of ids.
use gex_test_jonatha.Prelude.{suc, String, none, some, List, [], ◌∷◌, ◌++◌}
use gex_test_jonatha.Exec.{Exec, lib, ok, raise}
use gex_test_jonatha.Common.Library.{Library}
use gex_test_jonatha.World.{World, Fault, Published, Tables}

abbrev pub with_fault : List Fault → Exec World (Unit {0})
with_fault [] w = (ok tt, w)
with_fault (none ∷ fs) w = (ok tt, record w { faults = fs })
with_fault (some (c, m) ∷ fs) w = (raise (lib c m), record w { faults = fs })

-- one `await session.execute(...)` or `await exchange.publish(...)`, as far as it may raise
abbrev pub call : Exec World (Unit {0})
call w = with_fault w.faults w

abbrev pub send : Published → World → World
send p w = record w { published = w.published ++ p ∷ [] }

-- `str(uuid.uuid7())`
abbrev pub new_uuid7 : Library → Exec World String
new_uuid7 l w = (ok (l.uuid7 w.uuid_count), record w { uuid_count = suc w.uuid_count })

-- a change of the tables that the session sees
abbrev pub write : (Tables → Tables) → World → World
write f w = record w { session = f w.session }
