-- ===== src/Pipeline/Receiver.antt =====
-- What the handler of routes.py keeps, whatever MySQL and RabbitMQ raise.
use gex_test_jonatha.Prelude.{String, refl}
use gex_test_jonatha.Exec.Keeps.{Keeps}
use gex_test_jonatha.Common.Config.{AppSettings}
use gex_test_jonatha.Common.Models.{LeadReceivedMessage}
use gex_test_jonatha.Common.Library.{Library}
use gex_test_jonatha.World.Keeps.{
  Property, At, Keeps-call, Keeps-send, Keeps-new_uuid7, Keeps-write, Keeps-with_dependency,
}
use gex_test_jonatha.Receiver.Db.{insert_event, add_raw_payload}
use gex_test_jonatha.Receiver.Routes.{Request, receive_webhook, handle_webhook}
use gex_test_jonatha.Receiver.Routes.Keeps.{KeepsCalls, receive_webhook-Keeps}
use gex_test_jonatha.Pipeline.Closed.{IsInvariant}

module _ (l : Library) (L : LeadReceivedMessage → Type 0) (Q : Property)
    (inv : IsInvariant l L Q) where
  At-KeepsCalls : (own : String) → KeepsCalls l own (At Q)
  unfolding insert_event
  At-KeepsCalls own = record {
    calls = Keeps-call Q;
    new_id = Keeps-new_uuid7 Q l;
    payload = λ r. Keeps-write Q (add_raw_payload r) (inv.payload r);
    event = λ r same. record { at = λ w h. inv.event r _ _ _ h };
    sends = λ p first a. Keeps-send Q p (inv.sends p first a);
  }

  -- The handler, inside its session, keeps what its writes keep.
  pub handle_webhook-Keeps :
      (s : AppSettings) (req : Request) → Keeps (At Q) (handle_webhook l s req)
  unfolding handle_webhook
  handle_webhook-Keeps s req = Keeps-with_dependency Q inv.sessions (receive_webhook l s req) (
      receive_webhook-Keeps l req.correlation_id (At Q) (At-KeepsCalls req.correlation_id) s req
        refl)
