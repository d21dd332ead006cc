-- ===== src/Pipeline.antt =====
-- The receiver and the worker together: any order of webhooks, leads and SMS, whatever MySQL,
-- RabbitMQ and the SMS provider do. The worker's handlers run inside the middlewares of main.py.
pub mod Closed
pub mod Receiver
pub mod Worker
pub mod Sms
pub mod Runs
pub mod Consistent
pub mod Once
pub mod Fed
pub mod Delivery
pub mod Delivered
use gex_test_jonatha.Prelude.{String, true, Option, none, some, List}
use gex_test_jonatha.Exec.{Exn, Result, ok, raise, Exec}
use gex_test_jonatha.Common.Config.{AppSettings}
use gex_test_jonatha.Common.Models.{Time, LeadReceivedMessage, DistributionMessage}
use gex_test_jonatha.Common.Library.{Library}
use gex_test_jonatha.World.{World, Fault, SmsAttempt, Publisher}
use gex_test_jonatha.Receiver.Routes.{Request, handle_webhook}
use gex_test_jonatha.Worker.Consumer.{handle_lead}
use gex_test_jonatha.Worker.Sms.{handle_sms}
use gex_test_jonatha.Worker.Retry.{consume_with_retry}
use gex_test_jonatha.Worker.Dlq.{RabbitMessage, after_processed}

-- what the handler's last outcome is for the dead-letter middleware
abbrev pub exception_of : {A : Type 0} → Result A → Option Exn
exception_of (ok a) = none
exception_of (raise e) = some e

module _ (l : Library) (s : AppSettings) where
  -- `middlewares=[CorrelationIdMiddleware, RetryMiddleware, DlqMiddleware]` around a handler
  unfoldable pub consume : RabbitMessage → Result String → Exec World (Unit {0}) → World → World
  unfolding consume_with_retry after_processed
  consume raw context handler w =
      let (r, w') = consume_with_retry handler w in
      (after_processed l (exception_of r) (some raw) true context w').1

  -- what can happen next
  pub data Step : World → World → Type 0 where
    webhook : (req : Request) (w : World) → Step w (handle_webhook l s req w).1
    lead :
        (raw : RabbitMessage) (context : Result String) (msg : LeadReceivedMessage) (cid : String)
        (w : World)
        → Step w (consume raw context (handle_lead l msg cid) w)
    sms :
        (raw : RabbitMessage) (context : Result String) (msg : DistributionMessage) (cid : String)
        (w : World)
        → Step w (consume raw context (handle_sms l s msg cid) w)
    environment :
        (faults commit_faults : List Fault) (sms_attempts : List SmsAttempt) (now : Time)
        (publisher : Publisher) (w : World)
        → Step w (record w {
          faults = faults;
          commit_faults = commit_faults;
          sms_attempts = sms_attempts;
          now = now;
          publisher = publisher;
        })

  -- any number of steps
  pub data Reach (w : World) : World → Type 0 where
    here : Reach w w
    next : {v u : World} → Reach w v → Step v u → Reach w u
