-- ===== src/Worker/Startup/Laws.antt =====
-- The worker's declarations beside the receiver's.
use gex_test_jonatha.Prelude.{
  ◌++◌, All, All-append, All-map, subst, eq_iff, arith, ◌≡◌, refl, sym, String, true, false, none,
  some, List, [], ◌∷◌, ◌&&◌, any, ◌==◌,
}
use gex_test_jonatha.World.{World, Declaration, exchange, queue, binding, direct, fanout}
use gex_test_jonatha.Worker.Consumer.Laws.{quiet}
use gex_test_jonatha.Receiver.Publisher.{declare}
use gex_test_jonatha.Common.Config.{queue_lead_received, queue_dist_sms}
use gex_test_jonatha.Receiver.Publisher.Laws.{is_binding, in_turn-append}
use gex_test_jonatha.Worker.Startup.{subscriptions, declare_worker_topology}

-- A declaration that FastStream makes for a subscriber: it binds a queue to its exchange under the
-- queue's name, and nothing else.
abbrev pub IsForSubscriber : Declaration → Type 0
IsForSubscriber (exchange name kind) = Unit {0}
IsForSubscriber (queue name dead_letter) = Unit {0}
IsForSubscriber (binding q on key) =
    any (λ x. q == x.0 && (on == x.1 && key == x.0)) subscriptions ≡ true

-- the exchanges and keys of the worker's dead letters and of the channels but SMS
abbrev pub unbound : List (String × String)
unbound =
    ("lead", "lead.dead.consumer_failed")
    ∷ ("dist", "dist.email")
    ∷ ("dist", "dist.callcenter")
    ∷ ("dist", "dist.whatsapp")
    ∷ ("dist", "dist.dead.sms")
    ∷ []

-- not a key of a subscriber
abbrev IsForeign : String × String → Type 0
IsForeign (on, key) = (key == queue_lead_received ≡ false) × (key == queue_dist_sms ≡ false)

binding_foreign :
    (on key q on' key' : String)
    → IsForeign (on, key)
    → IsForSubscriber (binding q on' key')
    → is_binding on key (binding q on' key') ≡ false
binding_foreign on key q on' key' (h, k) s =
    ground (arith, eq_iff key key', eq_iff key' queue_lead_received, eq_iff key' queue_dist_sms)

unrouted :
    (on key : String) (ds : List Declaration)
    → IsForeign (on, key)
    → All IsForSubscriber ds
    → any (is_binding on key) ds ≡ false
unrouted on key [] h s = refl
unrouted on key (exchange name kind ∷ ds) h (s, ss) = unrouted on key ds h ss
unrouted on key (queue name dead_letter ∷ ds) h (s, ss) = unrouted on key ds h ss
unrouted on key (binding q on' key' ∷ ds) h (s, ss) =
    rw (binding_foreign on key q on' key' h s) (unrouted on key ds h ss)

-- what the worker declares
abbrev worker_declared : List Declaration
worker_declared =
    exchange "lead" direct
    ∷ exchange "dist" direct
    ∷ exchange "dlq" fanout
    ∷ queue "lead.received" (some "dlq")
    ∷ queue "lead.dead.decrypt_failed" none
    ∷ queue "lead.dead.schema_failed" none
    ∷ queue "lead.dead.consumer_failed" none
    ∷ queue "dist.sms" (some "dlq")
    ∷ queue "dist.dead.sms" none
    ∷ []

declare_worker_topology-declared :
    (w : World) → (declare_worker_topology (quiet w)).1.topology ≡ w.topology ++ worker_declared
unfolding declare_worker_topology declare
declare_worker_topology-declared w = in_turn-append w.topology worker_declared

-- no queue gets what is published to the exchange under the key
abbrev pub IsDropped : List Declaration → String × String → Type 0
IsDropped ds (on, key) = any (is_binding on key) ds ≡ false

-- Until the receiver has declared its topology, no queue gets the worker's dead letters or its
-- messages to e-mail, call center and WhatsApp: where RabbitMQ has only what FastStream declares for
-- the subscribers, each bound under its own queue's name, and what `declare_worker_topology` adds, no
-- binding has such a key, while no call raises.
pub worker_alone :
    (w : World)
    → All IsForSubscriber w.topology
    → All (IsDropped (declare_worker_topology (quiet w)).1.topology) unbound
worker_alone w h =
    let ds = w.topology ++ worker_declared in
    let all : All IsForSubscriber ds =
      All-append IsForSubscriber w.topology worker_declared h
        (tt, (tt, (tt, (tt, (tt, (tt, (tt, (tt, (tt, tt))))))))) in
    subst (λ (xs : List Declaration). All (IsDropped xs) unbound)
      (sym (declare_worker_topology-declared w))
      (All-map IsForeign (IsDropped ds) (λ d foreign. unrouted d.0 d.1 ds foreign all) unbound
        ((refl, refl), ((refl, refl), ((refl, refl), ((refl, refl), ((refl, refl), tt))))))
