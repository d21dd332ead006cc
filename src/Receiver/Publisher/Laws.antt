-- ===== src/Receiver/Publisher/Laws.antt =====
-- The topology that the receiver declares, and the queues that the program publishes to.
use gex_test_jonatha.Prelude.{
  ◌≡◌, refl, String, Bool, true, false, List, [], ◌∷◌, ◌++◌, any, any-append, ◌==◌, ◌&&◌, All,
  All-map, none, some, sym, subst, ◌∙◌, arith,
}
use mathlib.Core.List.{append-nil, append_assoc}
use gex_test_jonatha.Exec.{ok, ◌>>◌}
use gex_test_jonatha.Common.Config.{
  queue_lead_received, queue_dlq_decrypt_failed, queue_dlq_schema_failed,
}
use gex_test_jonatha.World.{World, Declaration, exchange, queue, binding, direct}
use gex_test_jonatha.Worker.Consumer.Laws.{quiet}
use gex_test_jonatha.Receiver.Publisher.{
  declare, declare_bound, declare_all, declare_queues, declare_topology, connect,
}

-- a direct exchange hands a message to the queues bound under its routing key
abbrev pub is_binding : String → String → Declaration → Bool
is_binding on key (exchange name kind) = false
is_binding on key (queue name dead_letter) = false
is_binding on key (binding q on' key') = on == on' && key == key'

-- a queue gets what is published to the exchange under the key
abbrev pub IsRouted : List Declaration → String × String → Type 0
IsRouted ds (on, key) = any (is_binding on key) ds ≡ true

-- the exchanges and keys that the receiver and the worker publish to
abbrev pub destinations : List (String × String)
destinations =
    ("lead", queue_lead_received)
    ∷ ("lead", queue_dlq_decrypt_failed)
    ∷ ("lead", queue_dlq_schema_failed)
    ∷ ("lead", "lead.dead.consumer_failed")
    ∷ ("dist", "dist.sms")
    ∷ ("dist", "dist.email")
    ∷ ("dist", "dist.callcenter")
    ∷ ("dist", "dist.whatsapp")
    ∷ ("dist", "dist.dead.sms")
    ∷ []

-- what the receiver declares, in order
abbrev pub declared : List Declaration
declared =
    exchange "lead" direct
    ∷ exchange "dist" direct
    ∷ queue "lead.received" (some "dlq")
    ∷ binding "lead.received" "lead" "lead.received"
    ∷ queue "lead.dead.decrypt_failed" none
    ∷ binding "lead.dead.decrypt_failed" "lead" "lead.dead.decrypt_failed"
    ∷ queue "lead.dead.schema_failed" none
    ∷ binding "lead.dead.schema_failed" "lead" "lead.dead.schema_failed"
    ∷ queue "lead.dead.consumer_failed" none
    ∷ binding "lead.dead.consumer_failed" "lead" "lead.dead.consumer_failed"
    ∷ queue "dist.sms" (some "dlq")
    ∷ binding "dist.sms" "dist" "dist.sms"
    ∷ queue "dist.email" none
    ∷ binding "dist.email" "dist" "dist.email"
    ∷ queue "dist.callcenter" none
    ∷ binding "dist.callcenter" "dist" "dist.callcenter"
    ∷ queue "dist.whatsapp" none
    ∷ binding "dist.whatsapp" "dist" "dist.whatsapp"
    ∷ queue "dist.dead.sms" none
    ∷ binding "dist.dead.sms" "dist" "dist.dead.sms"
    ∷ []

-- one declaration after the other
abbrev pub in_turn : List Declaration → List Declaration → List Declaration
in_turn ds [] = ds
in_turn ds (x ∷ xs) = in_turn (ds ++ x ∷ []) xs

pub in_turn-append : (ds xs : List Declaration) → in_turn ds xs ≡ ds ++ xs
in_turn-append ds [] = rw (append-nil ds)
in_turn-append ds (x ∷ xs) = in_turn-append (ds ++ x ∷ []) xs ∙ append_assoc ds (x ∷ []) xs

declare_topology-declared :
    (w : World) → ((do connect; declare_topology) (quiet w)).1.topology ≡ w.topology ++ declared
unfolding connect declare_topology declare_queues declare_all declare_bound declare
declare_topology-declared w = in_turn-append w.topology declared

IsRouted-append :
    (ds : List Declaration) (d : String × String)
    → IsRouted declared d
    → IsRouted (ds ++ declared) d
IsRouted-append ds (on, key) h = any-append (is_binding on key) ds declared ∙ rw h (ground arith)

-- After `connect` and `declare_topology`, while no call raises, both exchanges are set and a queue
-- gets each message that the receiver or the worker publishes, whatever was declared before.
pub declare_topology_routes :
    (w : World)
    → let (r, w') = (do connect; declare_topology) (quiet w) in
      (r ≡ ok tt)
      × (w'.publisher.exchange_lead ≡ true)
      × (w'.publisher.exchange_dist ≡ true)
      × All (IsRouted w'.topology) destinations
unfolding connect declare_topology declare_queues declare_all declare_bound declare
declare_topology_routes w = (
  refl,
  refl,
  refl,
  subst (λ ds. All (IsRouted ds) destinations) (sym (declare_topology-declared w))
      (All-map (IsRouted declared) (IsRouted (w.topology ++ declared)) (IsRouted-append w.topology)
        destinations (refl, (refl, (refl, (refl, (refl, (refl, (refl, (refl, (refl, tt)))))))))),
)
