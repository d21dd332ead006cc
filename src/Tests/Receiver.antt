-- ===== src/Tests/Receiver.antt =====
-- The theorems on the receiver, applied.
use gex_test_jonatha.Worker.Consumer.Laws.{quiet}
use gex_test_jonatha.Prelude.{◌↔◌, find, All, ◌≡◌, refl, true, false, [], ◌∷◌, ◌≤◌, arith}
use gex_test_jonatha.Exec.{ok, ◌>>◌}
use gex_test_jonatha.Json.{dict}
use gex_test_jonatha.Common.Config.{default_settings}
use gex_test_jonatha.Common.Strip.{is_blank, normalize_email}
use gex_test_jonatha.Common.Validation.{
  validate_schema, is_blank_email, is_bad_country, is_blank_method,
}
use gex_test_jonatha.Receiver.Db.{check_idempotency, has_key, upsert}
use gex_test_jonatha.Receiver.Db.Laws.{is_old, check_idempotency_iff}
use gex_test_jonatha.Receiver.Publisher.{connect, declare_topology}
use gex_test_jonatha.Receiver.Publisher.Laws.{declare_topology_routes, destinations, IsRouted}
use gex_test_jonatha.Receiver.Routes.{
  Request, handle_webhook, examine, read_body, detail, plain_result,
}
use gex_test_jonatha.Receiver.Routes.Outcome.{Implements, calm, expected_accept}
use gex_test_jonatha.Receiver.Routes.Refinement.{handle_webhook-Implements}
use gex_test_jonatha.Receiver.Routes.AtMostOnce.{serve, at_most_once, IsSound}
use gex_test_jonatha.Receiver.Routes.Effects.{sent}
use gex_test_jonatha.Receiver.Routes.LostLead.{lost_lead, refusing, IsFreshLead}
use gex_test_jonatha.Receiver.Routes.Replay.{lead_at, published_twice}
use gex_test_jonatha.Tests.Data.{library, world, request, payload, lead_fields}

handle_webhook-Implements_example :
    Implements
      (expected_accept library default_settings request payload false false "id-2")
      world
      (handle_webhook library default_settings request (calm world))
unfolding read_body examine validate_schema is_blank is_blank_email is_bad_country is_blank_method
    normalize_email has_key
handle_webhook-Implements_example =
    handle_webhook-Implements library default_settings request (dict lead_fields) world refl refl

world-IsSound : IsSound library "lous" "T1" "order.approved" world
unfolding has_key
world-IsSound = record { paid = omega arith; unique = omega arith; commits = refl }

-- the webhook once more, under another correlation id
abbrev again : Request
again = record request { correlation_id = "c2" }

at_most_once_example :
    sent library "lous" "T1" "order.approved"
      (serve library default_settings (request ∷ again ∷ []) world)
    ≤ 1
at_most_once_example =
    at_most_once library "lous" "T1" "order.approved" default_settings (request ∷ again ∷ []) world
      (refl, (refl, tt), (refl, tt, tt)) world-IsSound

pub world-IsFreshLead :
    IsFreshLead library default_settings request (dict lead_fields) (dict lead_fields) payload world
unfolding read_body examine has_key validate_schema is_blank is_blank_email is_bad_country
    is_blank_method normalize_email
world-IsFreshLead = record {
  gateway = refl;
  parsed = refl;
  examined = refl;
  approved = refl;
  fresh = refl;
}

lost_lead_example :
    let (r, w') =
      handle_webhook library default_settings request (refusing "AMQPError" "closed" world) in
    let (r'', w'') = handle_webhook library default_settings again (calm w') in
    (r ≡ ok (detail 503 "Service temporarily unavailable"))
    × (r'' ≡ ok (plain_result library default_settings again "duplicate"))
    × (w''.published ≡ [])
lost_lead_example =
    lost_lead library default_settings request (dict lead_fields) (dict lead_fields) payload world
      "AMQPError" "closed" "c2" refl world-IsFreshLead

published_twice_example :
    let (r, w') = handle_webhook library default_settings request (calm world) in
    let (r'', w'') = handle_webhook library default_settings request (calm w') in
    (r ≡ ok (plain_result library default_settings request "accepted"))
    × (r'' ≡ ok (plain_result library default_settings request "accepted"))
    × (w''.published
        ≡ lead_at library default_settings request
            (dict lead_fields)
            (dict lead_fields)
            payload
            world
          ∷ lead_at library default_settings request
              (dict lead_fields)
              (dict lead_fields)
              payload
              w'
          ∷ [])
published_twice_example =
    published_twice library default_settings request (dict lead_fields) (dict lead_fields) payload
      world refl world-IsFreshLead

check_idempotency_iff_example :
    (true ≡ true)
    ↔ (is_old library "c1" (find (has_key library "lous" "T1" "order.approved") []) ≡ false)
unfolding check_idempotency upsert
check_idempotency_iff_example =
    check_idempotency_iff library "lous" "T1" "order.approved" "c1" world true refl

declare_topology_routes_example :
    let (r, w') = (do connect; declare_topology) (quiet world) in
    (r ≡ ok tt)
    × (w'.publisher.exchange_lead ≡ true)
    × (w'.publisher.exchange_dist ≡ true)
    × All (IsRouted w'.topology) destinations
declare_topology_routes_example = declare_topology_routes world
