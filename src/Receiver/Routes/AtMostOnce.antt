-- ===== src/Receiver/Routes/AtMostOnce.antt =====
-- The leads that routes.py and db.py of the receiver publish over a sequence of requests.
use gex_test_jonatha.Prelude.{
  ◌≤◌, ◌≡◌, refl, ◌==◌, false, any, All, ◌∙◌, String, List, [], ◌∷◌, arith,
}
use gex_test_jonatha.Exec.{Result, ok, raise}
use gex_test_jonatha.Common.Config.{AppSettings}
use gex_test_jonatha.Common.Library.{Library}
use gex_test_jonatha.World.{World}
use gex_test_jonatha.World.Session.{begin, finish, with_dependency, commit}
use gex_test_jonatha.World.Keeps.{
  Property, At, IsTransactional, Keeps-call, Keeps-new_uuid7, Keeps-with_dependency,
}
use gex_test_jonatha.Receiver.Db.{insert_event}
use gex_test_jonatha.Receiver.Db.Laws.{is_carrier, is_carrier-upsert}
use gex_test_jonatha.Receiver.Routes.Keeps.{KeepsCalls, receive_webhook-Keeps}
use gex_test_jonatha.Receiver.Routes.{Request, Response, receive_webhook, handle_webhook}
use gex_test_jonatha.Receiver.Routes.Effects.{sent, stored, IsPaid}
use gex_test_jonatha.Receiver.Routes.Paid.{receive_webhook-IsPaid}

-- The requests, one after the other, whatever they are answered.
unfoldable pub serve : Library → AppSettings → List Request → World → World
serve l s [] w = w
serve l s (req ∷ reqs) w = serve l s reqs (handle_webhook l s req w).1

commit_none :
    (w : World) → w.commit_faults ≡ [] → commit w ≡ (ok tt, record w { tables = w.session })
unfolding commit
commit_none w h = ground arith

module _ (l : Library) (g t e : String) where
  -- Each lead of the key has a committed row, there is one row at most, and commits do not fail.
  pub record IsSound (w : World) : Type 0 where
    pub paid : sent l g t e w ≤ stored l g t e w
    pub unique : stored l g t e w ≤ 1
    pub commits : w.commit_faults ≡ []

  -- no committed row of the key has the correlation id
  abbrev pub IsUnusedId : World → String → Type 0
  IsUnusedId w cid = any (is_carrier l g t e cid) w.tables.processed_events ≡ false

  -- The ids differ from each other, and no row of the key has one.
  abbrev pub AreNewIds : World → List Request → Type 0
  AreNewIds w [] = Unit {0}
  AreNewIds w (req ∷ reqs) =
      IsUnusedId w req.correlation_id
      × All (λ r. req.correlation_id == r.correlation_id ≡ false) reqs
      × AreNewIds w reqs

  finish-IsSound :
      (w : World) (r : Result Response) (w' : World)
      → IsSound w
      → IsPaid l g t e (begin w) (r, w')
      → IsSound (finish (r, w')).1
  finish-IsSound w (ok a) w' h p = rw (commit_none w' (p.same_commits ∙ h.commits)) (record {
    paid = omega (arith, p.paid, h.paid);
    unique = omega (arith, p.unique h.unique);
    commits = p.same_commits ∙ h.commits;
  })
  finish-IsSound w (raise x) w' h p = record {
    paid = rw p.same_tables (omega (arith, p.raised x refl, h.paid));
    unique = rw p.same_tables h.unique;
    commits = p.same_commits ∙ h.commits;
  }

  -- where neither the session nor what is committed has a row with the id
  abbrev IsFree : String → Property
  IsFree cid a b ps =
      (any (is_carrier l g t e cid) a.processed_events ≡ false)
      × (any (is_carrier l g t e cid) b.processed_events ≡ false)

  -- A handler writes no correlation id but its own.
  IsFree-KeepsCalls : (own cid : String) → own == cid ≡ false → KeepsCalls l own (At (IsFree cid))
  unfolding insert_event
  IsFree-KeepsCalls own cid other = record {
    calls = Keeps-call (IsFree cid);
    new_id = Keeps-new_uuid7 (IsFree cid) l;
    payload = λ r. record { at = λ w h. h };
    event = λ r same. record {
      at = λ w h.
          (h.0, is_carrier-upsert l g t e cid r w.session.processed_events (rw same other) h.1);
    };
    sends = λ p first a. record { at = λ w h. h };
  }

  handle_webhook-IsUnusedId :
      (s : AppSettings) (req : Request) (w : World) (cid : String)
      → req.correlation_id == cid ≡ false
      → IsUnusedId w cid
      → IsUnusedId (handle_webhook l s req w).1 cid
  unfolding handle_webhook
  handle_webhook-IsUnusedId s req w cid other h =
      let sessions : IsTransactional (IsFree cid) = record {
        commits = λ a b ps k. (k.1, k.1);
        opens = λ a b ps k. (k.0, k.0);
      } in
      let kept =
        receive_webhook-Keeps l req.correlation_id (At (IsFree cid))
          (IsFree-KeepsCalls req.correlation_id cid other) s req refl in
      ((Keeps-with_dependency (IsFree cid) sessions (receive_webhook l s req) kept).at
        (record w { session = w.tables }) (h, h)).0

  handle_webhook-AreNewIds :
      (s : AppSettings) (req : Request) (reqs : List Request) (w : World)
      → All (λ r. req.correlation_id == r.correlation_id ≡ false) reqs
      → AreNewIds w reqs
      → AreNewIds (handle_webhook l s req w).1 reqs
  handle_webhook-AreNewIds s req [] w o h = tt
  handle_webhook-AreNewIds s req (r ∷ rs) w (o, os) (h, d, hs) = (
    handle_webhook-IsUnusedId s req w r.correlation_id o h,
    d,
    handle_webhook-AreNewIds s req rs w os hs,
  )

  handle_webhook-IsSound :
      (s : AppSettings) (req : Request) (w : World)
      → IsUnusedId w req.correlation_id
      → IsSound w
      → IsSound (handle_webhook l s req w).1
  unfolding handle_webhook with_dependency
  handle_webhook-IsSound s req w u h =
      let (r, w') = receive_webhook l s req (begin w) in
      finish-IsSound w r w' h (receive_webhook-IsPaid l g t e s req (begin w) u)

  serve-IsSound :
      (s : AppSettings) (reqs : List Request) (w : World)
      → AreNewIds w reqs
      → IsSound w
      → IsSound (serve l s reqs w)
  unfolding serve
  serve-IsSound s [] w u h = h
  serve-IsSound s (req ∷ reqs) w (u, d, us) h =
      serve-IsSound s reqs _ (handle_webhook-AreNewIds s req reqs w d us)
        (handle_webhook-IsSound s req w u h)

  -- Over any requests, any exceptions of MySQL's statements and RabbitMQ, and any number of repeats,
  -- at most one lead of a gateway, transaction and event is published, if the requests have different
  -- correlation ids, which no row of this key has at the beginning, commits do not fail, and this held
  -- before.
  pub at_most_once :
      (s : AppSettings) (reqs : List Request) (w : World)
      → AreNewIds w reqs
      → IsSound w
      → sent l g t e (serve l s reqs w) ≤ 1
  at_most_once s reqs w u h = let k = serve-IsSound s reqs w u h in omega (arith, k.paid, k.unique)
