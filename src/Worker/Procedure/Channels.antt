-- ===== src/Worker/Procedure/Channels.antt =====
-- The distribution rows that `sp_insert_lead` leaves for a new event.
use gex_test_jonatha.Prelude.{
  ◌≤◌, ◌≡◌, refl, String, Bool, true, List, [], ◌∷◌, any, any-append, count, All, All-map, subst,
  sym, arith, eq_refl, Bool-cases, inl, inr,
}
use gex_test_jonatha.Common.Config.{
  all_channels, channel_sms, channel_email, channel_call_center, channel_whatsapp,
}
use gex_test_jonatha.Common.Models.{Time}
use gex_test_jonatha.Common.Library.{Library}
use gex_test_jonatha.World.{Tables, DistributionStatus}
use gex_test_jonatha.Worker.Procedure.{
  Parameters, is_status_of, status_row, insert_status, insert_statuses, insert_event,
  sp_insert_lead,
}
use gex_test_jonatha.Worker.Procedure.Unique.{IsUnique, sp_insert_lead-IsUnique}

module _ (l : Library) (p : Parameters) (now : Time) where
  abbrev pub has_status : String → String → List DistributionStatus → Bool
  has_status o c rs = any (is_status_of l o c) rs

  is_status_of-row :
      (id o c : String) → is_status_of l o c (status_row id o c p.correlation_id now) ≡ true
  unfolding is_status_of
  is_status_of-row id o c = rw (eq_refl (l.collate o), eq_refl (l.collate c))

  insert_status_own :
      (id o c : String) (rs : List DistributionStatus)
      → has_status o c (insert_status l p now id o c rs) ≡ true
  unfolding insert_status
  insert_status_own id o c rs = elim (Bool-cases (any (is_status_of l o c) rs)) [
    | inl hit ↦ rw hit hit
    | inr miss ↦ rw miss (
        ground (
          arith,
          any-append (is_status_of l o c) rs (status_row id o c p.correlation_id now ∷ []),
          is_status_of-row id o c,
        ))
  ]

  pub insert_status_keeps :
      (id o' c' o c : String) (rs : List DistributionStatus)
      → has_status o c rs ≡ true
      → has_status o c (insert_status l p now id o' c' rs) ≡ true
  unfolding insert_status
  insert_status_keeps id o' c' o c rs h =
      ground
        (arith, any-append (is_status_of l o c) rs (status_row id o' c' p.correlation_id now ∷ []))

  pub insert_statuses-All :
      (o : String) (rs : List DistributionStatus)
      → All (λ c. has_status o c (insert_statuses l p now o rs) ≡ true) all_channels
  unfolding insert_statuses
  insert_statuses-All o rs =
      let own = insert_status_own in
      let keeps = insert_status_keeps in
      let sms = own p.dist_sms_id o channel_sms rs in
      let email = own p.dist_email_id o channel_email _ in
      let call_center = own p.dist_callcenter_id o channel_call_center _ in
      (
        keeps _ o channel_whatsapp o channel_sms _ (
            keeps _ o channel_call_center o channel_sms _
              (keeps _ o channel_email o channel_sms _ sms)),
        (
          keeps _ o channel_whatsapp o channel_email _
              (keeps _ o channel_call_center o channel_email _ email),
          (
            keeps _ o channel_whatsapp o channel_call_center _ call_center,
            (own p.dist_whatsapp_id o channel_whatsapp _, tt),
          ),
        ),
      )

  count_some :
      (q : DistributionStatus → Bool) (rs : List DistributionStatus)
      → any q rs ≡ true
      → 1 ≤ count q rs
  count_some q [] h = cc
  count_some q (r ∷ rs) h = ground (arith, count_some q rs)

  statuses_of_new :
      (t : Tables)
      → (sp_insert_lead l p now t).1.is_new ≡ true
      → (sp_insert_lead l p now t).0.distribution_status
        ≡ insert_statuses l p now (sp_insert_lead l p now t).1.order_id t.distribution_status
  unfolding sp_insert_lead insert_event
  statuses_of_new t new = rw new refl

  -- The call that finds an event new leaves exactly one distribution row of its order for each of the
  -- four channels, if the unique indexes held before.
  pub sp_insert_lead_channels :
      (t : Tables)
      → IsUnique l t
      → (sp_insert_lead l p now t).1.is_new ≡ true
      → let (t', outcome) = sp_insert_lead l p now t in
        All (λ c. count (is_status_of l outcome.order_id c) t'.distribution_status ≡ 1) all_channels
  sp_insert_lead_channels t h new =
      let o = (sp_insert_lead l p now t).1.order_id in
      let rs = (sp_insert_lead l p now t).0.distribution_status in
      let unique = (sp_insert_lead-IsUnique l p now t h).statuses o in
      let there =
        subst (λ xs. All (λ c. has_status o c xs ≡ true) all_channels) (sym (statuses_of_new t new))
          (insert_statuses-All o t.distribution_status) in
      All-map (λ c. has_status o c rs ≡ true) (λ c. count (is_status_of l o c) rs ≡ 1)
        (λ c k. omega (arith, count_some (is_status_of l o c) rs k, unique c)) all_channels there
