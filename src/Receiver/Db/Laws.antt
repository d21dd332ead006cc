-- ===== src/Receiver/Db/Laws.antt =====
-- The idempotency check of the receiver's db.py: what the upsert does to the rows of each key, and
-- when a webhook counts as new.
use gex_test_jonatha.Prelude.{
  ℕ, ◌+◌, ◌≤◌, ◌≡◌, ◌↔◌, refl, String, Bool, true, false, List, [], ◌∷◌, ◌++◌, any, length, count,
  count-append, eqb, find, not, ◌&&◌, ◌==◌, Option, none, some, arith, if◌then◌else◌, Bool-cases,
  inl, inr, eq_iff,
}
use gex_test_jonatha.Exec.{ok}
use gex_test_jonatha.Common.Library.{Library}
use gex_test_jonatha.World.{World, ProcessedEvent}
use gex_test_jonatha.Receiver.Db.{has_key, upsert, check_idempotency}

module _ (l : Library) where
  abbrev pub has_key_of : ProcessedEvent → ProcessedEvent → Bool
  has_key_of new r = has_key l new.gateway new.transaction_id new.event r

  -- the rows of a key
  abbrev pub rows_of : String → String → String → List ProcessedEvent → ℕ
  rows_of g t e rs = count (has_key l g t e) rs

  pub has_key-has_key_of :
      (g t e : String) (new r : ProcessedEvent)
      → has_key l g t e new ≡ true
      → has_key_of new r ≡ has_key l g t e r
  unfolding has_key
  has_key-has_key_of g t e new r h =
      let same : (l.collate new.gateway ≡ l.collate g)
          × (l.collate new.transaction_id ≡ l.collate t)
          × (l.collate new.event ≡ l.collate e) =
        ground (
          arith,
          eq_iff (l.collate new.gateway) (l.collate g),
          eq_iff (l.collate new.transaction_id) (l.collate t),
          eq_iff (l.collate new.event) (l.collate e),
        ) in
      rw (same.0, same.1, same.2)

  rows_of-none :
      (g t e : String) (new : ProcessedEvent) (rs : List ProcessedEvent)
      → has_key l g t e new ≡ true
      → any (has_key_of new) rs ≡ false
      → rows_of g t e rs ≡ 0
  rows_of-none g t e new [] h k = refl
  rows_of-none g t e new (r ∷ rs) h k =
      ground (arith, has_key-has_key_of g t e new r h, rows_of-none g t e new rs h)

  has_key-update :
      (g t e : String) (r : ProcessedEvent) (correlation_id : String)
      → has_key l g t e (record r { correlation_id = correlation_id }) ≡ has_key l g t e r
  unfolding has_key
  has_key-update g t e r correlation_id = refl

  -- A row of the key is there: every key keeps its number of rows.
  pub upsert-hit :
      (g t e : String) (new : ProcessedEvent) (rs : List ProcessedEvent)
      → any (has_key_of new) rs ≡ true
      → rows_of g t e (upsert l new rs).0 ≡ rows_of g t e rs
  unfolding upsert
  upsert-hit g t e new [] h = cc
  upsert-hit g t e new (r ∷ rs) h = elim (Bool-cases (has_key_of new r)) [
    | inl here ↦ rw (here, has_key-update g t e r new.correlation_id)
    | inr there ↦ rw there (ground (arith, upsert-hit g t e new rs))
  ]

  -- No row of the key is there: the new row goes to the end.
  pub upsert-miss :
      (new : ProcessedEvent) (rs : List ProcessedEvent)
      → any (has_key_of new) rs ≡ false
      → upsert l new rs ≡ (rs ++ new ∷ [], 1)
  unfolding upsert
  upsert-miss new [] h = refl
  upsert-miss new (r ∷ rs) h = ground (arith, upsert-miss new rs)

  pub length-upsert :
      (new : ProcessedEvent) (rs : List ProcessedEvent)
      → length (upsert l new rs).0 ≡ length rs + (if not (any (has_key_of new) rs) then 1 else 0)
  unfolding upsert
  length-upsert new [] = refl
  length-upsert new (r ∷ rs) = elim (Bool-cases (has_key_of new r)) [
    | inl here ↦ rw here (omega arith)
    | inr there ↦ rw there (ground (arith, length-upsert new rs))
  ]

  -- The row of the key is updated, or it is left as it was and MySQL does not count it.
  abbrev pub is_old : String → Option ProcessedEvent → Bool
  is_old correlation_id none = false
  is_old correlation_id (some r) =
      not (r.correlation_id == correlation_id && eqb l.unchanged_rowcount 1)

  -- The row count is 1 for a new key, and for an unchanged row if MySQL counts that as one.
  pub upsert-rowcount :
      (new : ProcessedEvent) (rs : List ProcessedEvent)
      → eqb (upsert l new rs).1 1 ≡ not (is_old new.correlation_id (find (has_key_of new) rs))
  unfolding upsert
  upsert-rowcount new [] = refl
  upsert-rowcount new (r ∷ rs) = elim (Bool-cases (has_key_of new r)) [
    | inl here ↦ rw here (ground arith)
    | inr there ↦ rw there (upsert-rowcount new rs)
  ]

  -- A key that has no row is not old.
  pub is_old-miss :
      (p : ProcessedEvent → Bool) (cid : String) (rs : List ProcessedEvent)
      → any p rs ≡ false
      → is_old cid (find p rs) ≡ false
  is_old-miss p cid [] h = refl
  is_old-miss p cid (r ∷ rs) h = elim (Bool-cases (p r)) [
    | inl here ↦ let c : true ≡ false = rw here at h in cc
    | inr there ↦ rw there (is_old-miss p cid rs (rw there at h))
  ]

  pub is_old-known :
      (p : ProcessedEvent → Bool) (cid : String) (rs : List ProcessedEvent)
      → is_old cid (find p rs) ≡ true
      → any p rs ≡ true
  is_old-known p cid [] h = cc
  is_old-known p cid (r ∷ rs) h = elim (Bool-cases (p r)) [
    | inl here ↦ rw here refl
    | inr there ↦ rw there (is_old-known p cid rs (rw there at h))
  ]

  -- A key that has a row is old, if no row of it has the correlation id.
  pub is_old-other :
      (p : ProcessedEvent → Bool) (cid : String) (rs : List ProcessedEvent)
      → any p rs ≡ true
      → any (λ r. p r && r.correlation_id == cid) rs ≡ false
      → is_old cid (find p rs) ≡ true
  is_old-other p cid [] h k = cc
  is_old-other p cid (r ∷ rs) h k = elim (Bool-cases (p r)) [
    | inl here ↦ rw here (ground arith)
    | inr there ↦ rw there (is_old-other p cid rs (rw there at h) (rw there at k))
  ]

  -- What the upsert leaves: one more row of the new key if there was none, else as many rows of
  -- every key.
  pub rows_of-upsert :
      (g t e : String) (new : ProcessedEvent) (rs : List ProcessedEvent)
      → rows_of g t e (upsert l new rs).0 ≡ (
          if any (has_key_of new) rs
          then rows_of g t e rs
          else (rows_of g t e rs + (if has_key l g t e new then 1 else 0)))
  rows_of-upsert g t e new rs = elim (Bool-cases (any (has_key_of new) rs)) [
    | inl hit ↦ rw hit (upsert-hit g t e new rs hit)
    | inr miss ↦ rw (miss, upsert-miss new rs miss) (count-append (has_key l g t e) rs (new ∷ []))
  ]

  -- No key gets a second row by the upsert: at most one row stays at most one.
  pub upsert_unique :
      (g t e : String) (new : ProcessedEvent) (rs : List ProcessedEvent)
      → rows_of g t e rs ≤ 1
      → rows_of g t e (upsert l new rs).0 ≤ 1
  upsert_unique g t e new rs h =
      ground (arith, rows_of-upsert g t e new rs, rows_of-none g t e new rs)

  -- a row of the key that has the correlation id
  abbrev pub is_carrier : String → String → String → String → ProcessedEvent → Bool
  is_carrier g t e cid r = has_key l g t e r && r.correlation_id == cid

  is_carrier-own :
      (g t e cid : String) (new : ProcessedEvent) (rs : List ProcessedEvent)
      → has_key l g t e new ≡ true
      → any (is_carrier g t e cid) rs ≡ false
      → any (λ r. has_key_of new r && r.correlation_id == cid) rs ≡ false
  is_carrier-own g t e cid new [] h k = refl
  is_carrier-own g t e cid new (r ∷ rs) h k =
      ground (arith, has_key-has_key_of g t e new r h, is_carrier-own g t e cid new rs h)

  -- The upsert counts one row exactly for each row that it adds to the key, if no row of the key has
  -- the correlation id.
  pub rows_of-counted :
      (g t e : String) (new : ProcessedEvent) (rs : List ProcessedEvent)
      → any (is_carrier g t e new.correlation_id) rs ≡ false
      → rows_of g t e (upsert l new rs).0
        ≡ rows_of g t e rs + (if has_key l g t e new && eqb (upsert l new rs).1 1 then 1 else 0)
  rows_of-counted g t e new rs h = elim (Bool-cases (has_key l g t e new)) [
    | inl own ↦ elim (Bool-cases (any (has_key_of new) rs)) [
      | inl hit ↦
          let old =
            is_old-other (has_key_of new) new.correlation_id rs hit
              (is_carrier-own g t e new.correlation_id new rs own h) in
          rw (upsert-rowcount new rs, old, own, rows_of-upsert g t e new rs, hit) (omega arith)
      | inr miss ↦
          let fresh = is_old-miss (has_key_of new) new.correlation_id rs miss in
          rw (upsert-rowcount new rs, fresh, own, rows_of-upsert g t e new rs, miss, own)
            (omega arith)
    ]
    | inr foreign ↦ ground (arith, rows_of-upsert g t e new rs)
  ]

  -- The upsert gives its correlation id to rows, and to no row another.
  pub is_carrier-upsert :
      (g t e cid : String) (new : ProcessedEvent) (rs : List ProcessedEvent)
      → new.correlation_id == cid ≡ false
      → any (is_carrier g t e cid) rs ≡ false
      → any (is_carrier g t e cid) (upsert l new rs).0 ≡ false
  unfolding upsert
  is_carrier-upsert g t e cid new [] d h = ground arith
  is_carrier-upsert g t e cid new (r ∷ rs) d h = elim (Bool-cases (has_key_of new r)) [
    | inl here ↦ rw here (ground arith)
    | inr there ↦ rw there (ground (arith, is_carrier-upsert g t e cid new rs d))
  ]

  -- the row that a check would insert
  abbrev pub event_row : String → String → String → String → World → ProcessedEvent
  event_row gateway transaction_id event correlation_id w = record {
    id = l.uuid7 w.uuid_count;
    gateway = gateway;
    transaction_id = transaction_id;
    event = event;
    correlation_id = correlation_id;
    created_at = w.now;
  }

  -- `check_idempotency` answers that an event is new exactly when the session sees no row of its
  -- gateway, transaction and event, or sees one that has the same correlation id, where MySQL counts
  -- an upsert that changes nothing as one row, if the call does not raise.
  pub check_idempotency_iff :
      (gateway transaction_id event correlation_id : String) (w : World) (b : Bool)
      → (check_idempotency l gateway transaction_id event correlation_id w).0 ≡ ok b
      → (b ≡ true) ↔ (
          is_old correlation_id
            (find (has_key l gateway transaction_id event) w.session.processed_events)
          ≡ false)
  unfolding check_idempotency
  check_idempotency_iff gateway transaction_id event correlation_id w b h =
      let row = event_row gateway transaction_id event correlation_id w in
      let counts = upsert-rowcount row w.session.processed_events in
      (λ e. ground (arith, counts), λ e. ground (arith, counts))
