-- ===== src/Receiver/Routes/Effects.antt =====
-- What the calls of routes.py do to the leads sent and to the rows of `processed_events`, for one
-- key (gateway, transaction, event): rules by which the handler's parts are put together.
use gex_test_jonatha.Prelude.{
  ℕ, ◌+◌, ◌≤◌, ◌≡◌, refl, ◌∙◌, String, Bool, false, Option, none, some, List, [], ◌∷◌, ◌&&◌, count,
  count-append, arith, if◌then◌else◌,
}
use gex_test_jonatha.Prelude.Strings.{str_take}
use gex_test_jonatha.Exec.{Exec, Exn, Result, ok, raise, continue, pure, lift, ◌>>=◌}
use gex_test_jonatha.Json.{Json}
use gex_test_jonatha.Common.Models.{Time, DlqMessage}
use gex_test_jonatha.Common.Library.{Library}
use gex_test_jonatha.World.{World, Body, lead, dead, Published, same_text}
use gex_test_jonatha.Receiver.Db.{insert_raw_payload}
use gex_test_jonatha.Receiver.Db.Laws.{rows_of}
use gex_test_jonatha.Receiver.Publisher.{publish, publish_dlq}

module _ (l : Library) (g t e : String) where
  abbrev pub is_lead_body : Body → Bool
  is_lead_body (lead m) =
      same_text l m.gateway g && (same_text l m.transaction_id t && same_text l m.event e)
  is_lead_body _ = false

  -- the leads of a key that RabbitMQ has taken
  abbrev pub sent : World → ℕ
  sent w = count (λ p. is_lead_body p.body) w.published

  -- the rows of a key that the session sees
  abbrev pub seen : World → ℕ
  seen w = rows_of l g t e w.session.processed_events

  -- the committed rows of a key
  abbrev pub stored : World → ℕ
  stored w = rows_of l g t e w.tables.processed_events

  -- Nothing that concerns the key has changed.
  pub record IsSilent (w w' : World) : Type 0 where
    pub same_sent : sent w' ≡ sent w
    pub same_seen : seen w' ≡ seen w
    pub same_tables : w'.tables ≡ w.tables
    pub same_commits : w'.commit_faults ≡ w.commit_faults

  -- A lead is paid for by a new row, and none is sent by a call that raises.
  pub record IsPaid {A : Type 0} (w : World) (r : Result A × World) : Type 0 where
    pub paid : sent r.1 + seen w ≤ sent w + seen r.1
    pub unique : seen w ≤ 1 → seen r.1 ≤ 1
    pub raised : (x : Exn) → r.0 ≡ raise x → sent r.1 ≤ sent w
    pub same_tables : r.1.tables ≡ w.tables
    pub same_commits : r.1.commit_faults ≡ w.commit_faults

  pub insert_raw_payload-IsSilent :
      (gateway : String) (received_at : Time) (headers : List (String × String)) (a b : Json)
      (status : String) (error : Option String) (cid : String) (w : World)
      → IsSilent w (insert_raw_payload l gateway received_at headers a b status error cid w).1
  unfolding insert_raw_payload
  insert_raw_payload-IsSilent gateway received_at headers a b status error cid w = ground arith

  -- A message is sent at most once, and not at all if the call raises.
  pub record IsSend (body : Body) (w : World) (r : Result (Unit {0}) × World) : Type 0 where
    pub at_most : sent r.1 ≤ sent w + (if is_lead_body body then 1 else 0)
    pub at_least : sent w ≤ sent r.1
    pub raised : (x : Exn) → r.0 ≡ raise x → sent r.1 ≡ sent w
    pub same_seen : seen r.1 ≡ seen w
    pub same_tables : r.1.tables ≡ w.tables
    pub same_commits : r.1.commit_faults ≡ w.commit_faults

  pub publish-IsSend :
      (declared : Bool) (on : String) (body : Body) (cid key : String)
      (extra : List (String × String)) (w : World)
      → IsSend body w (publish declared on body cid key extra w)
  unfolding publish
  publish-IsSend declared on body cid key extra w =
      let p : Published = record {
        exchange = on;
        routing_key = key;
        headers = ("x-correlation-id", cid) ∷ extra;
        correlation_id = some cid;
        expiration_ms = none;
        body = body;
      } in
      let more = count-append (λ (q : Published). is_lead_body q.body) w.published (p ∷ []) in
      record {
        at_most = ground (arith, more);
        at_least = ground (arith, more);
        raised = λ x h. ground arith;
        same_seen = ground arith;
        same_tables = ground arith;
        same_commits = ground arith;
      }

  pub publish_dlq-IsSilent :
      (m : DlqMessage) (q : String) (w : World) → IsSilent w (publish_dlq m q w).1
  unfolding publish_dlq
  publish_dlq-IsSilent m q w =
      let s =
        publish-IsSend w.publisher.exchange_lead "lead" (dead m) m.correlation_id q
          (("x-error-reason", str_take 200 m.error_reason) ∷ []) w in
      record {
        same_sent = omega (arith, s.at_most, s.at_least);
        same_seen = s.same_seen;
        same_tables = s.same_tables;
        same_commits = s.same_commits;
      }

  -- An action that is silent from every world.
  pub record IsQuiet {A : Type 0} (m : Exec World A) : Type 0 where
    pub at : (w : World) → IsSilent w (m w).1

  pub IsSilent-trans : (u v w : World) → IsSilent u v → IsSilent v w → IsSilent u w
  IsSilent-trans u v w h k = record {
    same_sent = k.same_sent ∙ h.same_sent;
    same_seen = k.same_seen ∙ h.same_seen;
    same_tables = k.same_tables ∙ h.same_tables;
    same_commits = k.same_commits ∙ h.same_commits;
  }

  pub IsSilent-continue :
      {A B : Type 0} (w : World) (r : Result A) (w' : World) (f : A → Exec World B)
      → IsSilent w w'
      → ((a : A) → IsQuiet (f a))
      → IsSilent w (continue f (r, w')).1
  IsSilent-continue w (ok a) w' f h k = IsSilent-trans w w' (f a w').1 h ((k a).at w')
  IsSilent-continue w (raise x) w' f h k = h

  pub IsQuiet-pure : {A : Type 0} (r : Result A) → IsQuiet (lift {S = World} r)
  IsQuiet-pure r = record { at = λ w. ground arith }

  pub IsQuiet-bind :
      {A B : Type 0} (m : Exec World A) (f : A → Exec World B)
      → IsQuiet m
      → ((a : A) → IsQuiet (f a))
      → IsQuiet (m >>= f)
  IsQuiet-bind m f h k = record {
    at = λ w. let (r, w') = m w in IsSilent-continue w r w' f (h.at w) k;
  }

  -- At most `b` leads of the key are sent, and none by a call that raises.
  pub record IsOwing {A : Type 0} (b : ℕ) (w : World) (r : Result A × World) : Type 0 where
    pub at_most : sent r.1 ≤ sent w + b
    pub raised : (x : Exn) → r.0 ≡ raise x → sent r.1 ≤ sent w
    pub same_seen : seen r.1 ≡ seen w
    pub same_tables : r.1.tables ≡ w.tables
    pub same_commits : r.1.commit_faults ≡ w.commit_faults

  pub IsOwing-quiet :
      {A : Type 0} (m : Exec World A) (b : ℕ) (w : World) → IsQuiet m → IsOwing b w (m w)
  IsOwing-quiet m b w h =
      let s = h.at w in
      record {
        at_most = omega (arith, s.same_sent);
        raised = λ x e. omega (arith, s.same_sent);
        same_seen = s.same_seen;
        same_tables = s.same_tables;
        same_commits = s.same_commits;
      }

  pub IsOwing-continue :
      {A B : Type 0} (b : ℕ) (w : World) (r : Result A) (w' : World) (f : A → Exec World B)
      → IsSilent w w'
      → ((a : A) → (v : World) → IsOwing b v (f a v))
      → IsOwing b w (continue f (r, w'))
  IsOwing-continue b w (ok a) w' f h k =
      let o = k a w' in
      record {
        at_most = omega (arith, o.at_most, h.same_sent);
        raised = λ x e. omega (arith, o.raised x e, h.same_sent);
        same_seen = o.same_seen ∙ h.same_seen;
        same_tables = o.same_tables ∙ h.same_tables;
        same_commits = o.same_commits ∙ h.same_commits;
      }
  IsOwing-continue b w (raise x) w' f h k = record {
    at_most = omega (arith, h.same_sent);
    raised = λ y e. omega (arith, h.same_sent);
    same_seen = h.same_seen;
    same_tables = h.same_tables;
    same_commits = h.same_commits;
  }

  pub IsOwing-bind :
      {A B : Type 0} (b : ℕ) (m : Exec World A) (f : A → Exec World B) (w : World)
      → IsQuiet m
      → ((a : A) → (v : World) → IsOwing b v (f a v))
      → IsOwing b w ((m >>= f) w)
  IsOwing-bind b m f w h k = let (r, w') = m w in IsOwing-continue b w r w' f (h.at w) k

  pub insert_raw_payload-IsQuiet :
      (gateway : String) (received_at : Time) (headers : List (String × String)) (a b : Json)
      (status : String) (error : Option String) (cid : String)
      → IsQuiet (insert_raw_payload l gateway received_at headers a b status error cid)
  insert_raw_payload-IsQuiet gateway received_at headers a b status error cid = record {
    at = insert_raw_payload-IsSilent gateway received_at headers a b status error cid;
  }

  pub publish_dlq-IsQuiet : (m : DlqMessage) (q : String) → IsQuiet (publish_dlq m q)
  publish_dlq-IsQuiet m q = record { at = publish_dlq-IsSilent m q }

  ruleset quiet_rules =
      (IsQuiet-pure, IsQuiet-bind, insert_raw_payload-IsQuiet, publish_dlq-IsQuiet)

  pub IsSend-continue :
      {A : Type 0} (body : Body) (w : World) (r : Result (Unit {0})) (w' : World) (a : A)
      → IsSend body w (r, w')
      → IsOwing (if is_lead_body body then 1 else 0) w (continue (λ _. pure a) (r, w'))
  IsSend-continue body w (ok u) w' a h = record {
    at_most = h.at_most;
    raised = λ x k. cc;
    same_seen = h.same_seen;
    same_tables = h.same_tables;
    same_commits = h.same_commits;
  }
  IsSend-continue body w (raise y) w' a h = record {
    at_most = h.at_most;
    raised = λ x k. omega (arith, h.raised y refl);
    same_seen = h.same_seen;
    same_tables = h.same_tables;
    same_commits = h.same_commits;
  }
