-- ===== src/Pipeline/Once.antt =====
-- How often the messages of consumers.py to the distributors are published over whole runs.
use gex_test_jonatha.Prelude.{
  ℕ, zero, suc, ◌+◌, ◌≤◌, ◌≡◌, refl, String, Bool, false, Option, none, some, List, [], ◌∷◌, ◌++◌,
  ◌==◌, ◌&&◌, ◌⊎◌, take, count, count-append, arith, if◌then◌else◌, Bool-cases, inl, inr, eq_iff,
}
use gex_test_jonatha.Common.Models.{Time, LeadReceivedMessage}
use gex_test_jonatha.Common.Library.{Library}
use gex_test_jonatha.World.{Tables, LeadEvent, Body, distribution, Published, is_first}
use gex_test_jonatha.Worker.Procedure.{Parameters, new_event, insert_event, sp_insert_lead}
use gex_test_jonatha.Worker.Consumer.{dist_publishes}
use gex_test_jonatha.Worker.Consumer.Laws.{messages}
use gex_test_jonatha.Pipeline.Closed.{IsInvariant, due_of}

-- The procedure adds one event if it says that it is new, and else none.
pub sp_insert_lead-events :
    (l : Library) (p : Parameters) (now : Time) (t : Tables)
    → let (t', row) = sp_insert_lead l p now t in
      t'.lead_events
      ≡ (if row.is_new then t.lead_events ++ new_event l p now row.order_id ∷ [] else t.lead_events)
unfolding sp_insert_lead insert_event
sp_insert_lead-events l p now t = ground arith

-- A text equals no two others.
not_both : (a b c : String) → (a == b) ≡ false → ((a == c) ≡ false) ⊎ ((b == c) ≡ false)
not_both a b c h = ground (arith, eq_iff a b, eq_iff a c, eq_iff b c)

count-take {ℓ} :
    {A : Type ℓ} (p : A → Bool) (n : ℕ) (xs : List A) → count p (take n xs) ≤ count p xs
count-take p zero xs = omega arith
count-take p (suc n) [] = omega arith
count-take p (suc n) (x ∷ xs) = ground (arith, count-take p n xs)

module _ (o c : String) where
  abbrev pub is_order : Option String → Bool
  is_order none = false
  is_order (some id) = id == o

  abbrev pub is_for : Body → Bool
  is_for (distribution m) = is_order m.order_id && m.channel == c
  is_for _ = false

  -- the messages of the order to the channel that are no retries
  abbrev pub firsts : List Published → ℕ
  firsts ps = count (λ p. is_first p && is_for p.body) ps

  -- the order's events
  abbrev pub events_of : Tables → ℕ
  events_of t = count (λ e. e.order_id == o) t.lead_events

  firsts-messages :
      (msg : LeadReceivedMessage) (id cid : String)
      → firsts (messages msg id cid dist_publishes) ≤ (if id == o then 1 else 0)
  firsts-messages msg id cid = ground (
    arith,
    not_both "SMS" "EMAIL" c refl,
    not_both "SMS" "CALL_CENTER" c refl,
    not_both "SMS" "WHATSAPP" c refl,
    not_both "EMAIL" "CALL_CENTER" c refl,
    not_both "EMAIL" "WHATSAPP" c refl,
    not_both "CALL_CENTER" "WHATSAPP" c refl,
  )

  -- The messages are no more than the events, of what is committed and of what the session sees.
  pub record IsOnce (t s : Tables) (ps : List Published) : Type 0 where
    pub committed : firsts ps ≤ events_of t
    pub seen : firsts ps ≤ events_of s

  module _ (l : Library) where
    due-events :
        (p : Parameters) (now : Time) (msg : LeadReceivedMessage) (cid : String) (t : Tables)
        → let (t', row) = sp_insert_lead l p now t in
          firsts (due_of msg cid row) + events_of t ≤ events_of t'
    due-events p now msg cid t =
        let row = (sp_insert_lead l p now t).1 in
        let e = sp_insert_lead-events l p now t in
        elim (Bool-cases row.is_new) [
          | inl new ↦
              let more =
                count-append (λ (x : LeadEvent). x.order_id == o) t.lead_events
                  (new_event l p now row.order_id ∷ []) in
              rw (e, new, more) (omega (arith, firsts-messages msg row.order_id cid))
          | inr old ↦ rw (e, old) (omega arith)
        ]

    firsts-taken :
        (ps ms : List Published) (k : ℕ) → firsts (ps ++ take k ms) ≤ firsts ps + firsts ms
    firsts-taken ps ms k =
        let test = λ (p : Published). is_first p && is_for p.body in
        omega (arith, count-append test ps (take k ms), count-take test k ms)

    firsts-other :
        (p : Published) (ps : List Published)
        → is_first p ≡ false
        → firsts (ps ++ p ∷ []) ≡ firsts ps
    firsts-other p ps first =
        let test = λ (p : Published). is_first p && is_for p.body in
        ground (arith, count-append test ps (p ∷ []))

    pub IsOnce-IsInvariant : IsInvariant l (λ m. Unit {0}) IsOnce
    IsOnce-IsInvariant = record {
      sessions = record {
        commits = λ t s ps h. record { committed = h.seen; seen = h.seen };
        opens = λ t s ps h. record { committed = h.committed; seen = h.committed };
      };
      payload = λ r t s ps h. record { committed = h.committed; seen = h.seen };
      event = λ r t s ps h. record { committed = h.committed; seen = h.seen };
      statuses = λ i f set t s ps h. record { committed = h.committed; seen = h.seen };
      sends = λ p first a t s ps h. record {
        committed = rw (firsts-other p ps first) h.committed;
        seen = rw (firsts-other p ps first) h.seen;
      };
      procedure = λ p now msg cid k t s ps _ e h.
          let due = due_of msg cid (sp_insert_lead l p now t).1 in
          let paid : firsts (ps ++ take k due) ≤ events_of (sp_insert_lead l p now t).0 =
            omega (arith, firsts-taken ps due k, due-events p now msg cid t, h.committed) in
          record { committed = paid; seen = paid };
    }
