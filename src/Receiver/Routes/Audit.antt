-- ===== src/Receiver/Routes/Audit.antt =====
-- What dependencies.py commits after an answer of the handler, whatever MySQL and RabbitMQ raise.
use gex_test_jonatha.Prelude.{◌≡◌, some, List, ◌∷◌}
use gex_test_jonatha.Exec.{Result, ok, raise}
use gex_test_jonatha.Exec.Gives.{Gives}
use gex_test_jonatha.Common.Config.{AppSettings}
use gex_test_jonatha.Common.Library.{Library}
use gex_test_jonatha.World.{World, Tables, Fault}
use gex_test_jonatha.Receiver.Routes.{Request, Response}
use gex_test_jonatha.Receiver.Routes.Recorded.{Recorded}

module _ (l : Library) (s : AppSettings) (req : Request) where
  -- What is committed, by the outcome and by the commits to come: the first of them is that of this
  -- request, after its answer.
  abbrev pub Audited : List Fault → Tables → Result Response × World → Type 0
  Audited (some fault ∷ fs) t (r, w) = w.tables ≡ t
  Audited _ t (ok r, w) = Recorded t.raw_payloads req r w.tables.raw_payloads
  Audited _ t (raise e, w) = w.tables ≡ t

  -- where nothing has been committed, nor will be otherwise
  abbrev IsOpen : World → World → Type 0
  IsOpen v w = (w.tables ≡ v.tables) × (w.commit_faults ≡ v.commit_faults)
