-- ===== src/Retention/Protected.antt =====
-- The alerts that pruning leaves.
use mathlib.Core.Path.{subst}
use watchpost.Base.{
  ◌⊎◌, sym, ap, ◌∙◌, ℕ, ◌≡◌, Bool, true, false, not, ◌&&◌, ◌||◌, List, [], ◌∷◌, eqb, arith, any,
  inl, inr, ok, Bool-cases,
}
use watchpost.Store.Rows.{Alert}
use watchpost.Retention.{
  Delivery, Tables, delete_first, is_resolved, is_newest, is_cited, is_stale_alert, has_alert,
  prune_alerts,
}
use watchpost.Retention.Batches.{delete_first-other}

-- the current alert of its rule and post, while it is not resolved, and an alert of an incident or
-- one that an investigation cites
abbrev pub is_protected : Tables → Alert → Bool
is_protected t a =
    not (is_resolved a.state) && is_newest a t.alerts
    || any (eqb a.id) t.incident_alerts
    || is_cited "alert" a.id t.conversation_evidence

protected-is_stale_alert :
    (cutoff : ℕ) (t : Tables) (a : Alert)
    → is_protected t a ≡ true
    → is_stale_alert cutoff t a ≡ false
unfolding is_stale_alert
protected-is_stale_alert cutoff t a h = ground arith

-- a notification of an alert that is gone refuses the deletion
none-gone :
    (id : ℕ) (before after : List Alert) (ds : List Delivery)
    → any (λ d. has_alert d.alert_id before && not (has_alert d.alert_id after)) ds ≡ false
    → any (λ d. eqb d.alert_id id) ds ≡ true
    → has_alert id before ≡ true
    → has_alert id after ≡ true
unfolding any
none-gone id before after [] kept sent known = cc
none-gone id before after (d ∷ ds) kept sent known = elim (Bool-cases (eqb d.alert_id id)) [
  | inr other ↦ none-gone id before after ds (ground arith) (ground arith) known
  | inl same ↦
      let here : d.alert_id ≡ id = ground arith in
      let kept' : (has_alert id before && not (has_alert id after)) ≡ false =
        subst (λ i. (has_alert i before && not (has_alert i after)) ≡ false) here (ground arith) in
      ground (arith, kept')
]

-- Where the pruning of alerts succeeds, whatever the age of the rows, the protected alerts are left
-- as they were: the newest of its rule and post unless it is resolved, one that an incident has, and
-- one that is cited. And an alert that a notification refers to, delivered or not, is left if it
-- was there.
pub pruned_alerts_safe :
    (batch cutoff id other : ℕ) (t t' : Tables) (n : ℕ)
    → prune_alerts batch cutoff t ≡ ok (t', n)
    → (any (λ a. eqb a.id id && is_protected t a) t'.alerts
        ≡ any (λ a. eqb a.id id && is_protected t a) t.alerts)
      × ((any (λ d. eqb d.alert_id other) t.notification_deliveries ≡ false)
          ⊎ (has_alert other t.alerts ≡ false)
          ⊎ (has_alert other t'.alerts ≡ true))
unfolding prune_alerts
pruned_alerts_safe batch cutoff id other t t' n h =
    let left = (delete_first (is_stale_alert cutoff t) batch t.alerts).0 in
    let same : left ≡ t'.alerts = ground arith in
    let safe =
      delete_first-other (is_stale_alert cutoff t) (λ a. eqb a.id id && is_protected t a)
        (λ a q. protected-is_stale_alert cutoff t a (ground arith)) batch t.alerts in
    (
      ap (any (λ a. eqb a.id id && is_protected t a)) (sym same) ∙ safe,
      elim (Bool-cases (any (λ d. eqb d.alert_id other) t.notification_deliveries)) [
        | inr unsent ↦ inl unsent
        | inl sent ↦ elim (Bool-cases (has_alert other t.alerts)) [
          | inr unknown ↦ inr (inl unknown)
          | inl known ↦ inr (
              inr (
                subst (λ rows. has_alert other rows ≡ true) same
                  (none-gone other t.alerts left t.notification_deliveries (ground arith) sent
                    known)))
        ]
      ],
    )
