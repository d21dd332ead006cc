-- ===== src/Receiver/Db/Keys.antt =====
-- The unique key of `processed_events` against the natural key that db.py names.
use gex_test_jonatha.Prelude.{
  suc, ◌≡◌, ◌≢◌, refl, ◌∙◌, String, true, false, [], ◌∷◌, ◌++◌, any, any-append, arith, eq_iff,
}
use gex_test_jonatha.Exec.{ok}
use gex_test_jonatha.Common.Library.{Library}
use gex_test_jonatha.World.{World}
use gex_test_jonatha.Receiver.Db.{has_key, check_idempotency}
use gex_test_jonatha.Receiver.Db.Laws.{event_row, upsert-miss}
use gex_test_jonatha.Receiver.Routes.Outcome.{calm}

module _ (l : Library) (transaction_id event : String) where
  -- no row of this gateway with the transaction and the event
  abbrev IsUnseen : String → World → Type 0
  IsUnseen gateway w =
      any (has_key l gateway transaction_id event) w.session.processed_events ≡ false

  other_row :
      (g h cid : String) (w : World)
      → l.collate g ≢ l.collate h
      → has_key l h transaction_id event (event_row l g transaction_id event cid w) ≡ false
  unfolding has_key
  other_row g h cid w d = ground (arith, eq_iff (l.collate g) (l.collate h))

  -- One transaction and event that comes from two gateways, whose names differ for the collation and
  -- of which neither has sent it before, counts as new both times while no call raises: the gateway
  -- is part of the key.
  new_for_each_gateway :
      (g h cid cid' : String) (w : World)
      → l.collate g ≢ l.collate h
      → IsUnseen g w
      → IsUnseen h w
      → let (r, w') = check_idempotency l g transaction_id event cid (calm w) in
        (r ≡ ok true) × ((check_idempotency l h transaction_id event cid' w').0 ≡ ok true)
  unfolding check_idempotency
  new_for_each_gateway g h cid cid' w d unseen unseen' =
      let rows = w.session.processed_events in
      let row = event_row l g transaction_id event cid w in
      let row' =
        event_row l h transaction_id event cid' (record w { uuid_count = suc w.uuid_count }) in
      let miss : any (has_key l h transaction_id event) (rows ++ row ∷ []) ≡ false =
        any-append (has_key l h transaction_id event) rows (row ∷ [])
        ∙ rw (unseen', other_row g h cid w d) in
      rw (upsert-miss l row rows unseen) (refl, rw (upsert-miss l row' (rows ++ row ∷ []) miss))
