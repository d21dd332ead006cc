-- ===== src/Pipeline/Runs.antt =====
-- What every run of the pipeline keeps.
use gex_test_jonatha.Common.Config.{AppSettings}
use gex_test_jonatha.Common.Models.{LeadReceivedMessage}
use gex_test_jonatha.Common.Library.{Library}
use gex_test_jonatha.World.{World}
use gex_test_jonatha.World.Keeps.{Property, At}
use gex_test_jonatha.Pipeline.{Step, webhook, lead, sms, environment, Reach, here, next}
use gex_test_jonatha.Pipeline.Closed.{IsInvariant}
use gex_test_jonatha.Pipeline.Receiver.{handle_webhook-Keeps}
use gex_test_jonatha.Pipeline.Worker.{handle_lead-Keeps, At-consume}
use gex_test_jonatha.Pipeline.Sms.{handle_sms-Keeps}

-- What a step asks of the lead that it consumes.
abbrev pub Needs :
    {l : Library} {s : AppSettings} (L : LeadReceivedMessage → Type 0) {w v : World}
    → Step l s w v
    → Type 0
Needs L (lead raw context msg cid w) = L msg
Needs L _ = Unit {0}

module _ (l : Library) (L : LeadReceivedMessage → Type 0) (Q : Property) (inv : IsInvariant l L Q)
    (s : AppSettings) where
  pub Step-At : {w v : World} (step : Step l s w v) → Needs L step → At Q w → At Q v
  Step-At (webhook req w) fits h = (handle_webhook-Keeps l L Q inv s req).at w h
  Step-At (lead raw context msg cid w) fits h =
      At-consume l L Q inv s raw context _ (handle_lead-Keeps l L Q inv msg cid fits) w h
  Step-At (sms raw context msg cid w) fits h =
      At-consume l L Q inv s raw context _ (handle_sms-Keeps l L Q inv s msg cid) w h
  Step-At (environment fs cs as' now p w) fits h = h

module _ (l : Library) (Q : Property) (inv : IsInvariant l (λ m. Unit {0}) Q)
    (s : AppSettings) where
  any_lead : {w v : World} (step : Step l s w v) → Needs (λ m. Unit {0}) step
  any_lead (webhook req w) = tt
  any_lead (lead raw context msg cid w) = tt
  any_lead (sms raw context msg cid w) = tt
  any_lead (environment fs cs as' now p w) = tt

  -- With no condition on the leads.
  pub Reach-At : {w v : World} → Reach l s w v → At Q w → At Q v
  Reach-At here h = h
  Reach-At (next before step) h =
      Step-At l (λ m. Unit {0}) Q inv s step (any_lead step) (Reach-At before h)
