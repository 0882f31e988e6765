-- ===== src/Retention/Pass.antt =====
-- internal/retention/retention.go: the categories in their order, and one pass.
use watchpost.Base.{
  ℕ, ◌-◌, String, Bool, true, false, not, ◌&&◌, Option, none, some, List, [], ◌∷◌, ◌==◌, eqb, ltb,
  text_before, if◌then◌else◌, Result, ok, err, ◌>>=◌,
}
use watchpost.Retention.{
  Timed, Delivery, Outgoing, Tables, RetentionError, delete_first, is_old, is_over, is_cited,
  prune_alerts, prune_conversations, max_passes, Pruned, bounded,
}

pub record Policy : Type 0 where
  pub observations : ℕ
  pub check_results : ℕ
  pub logs : ℕ
  pub changes : ℕ
  pub alerts_resolved : ℕ
  pub deliveries : ℕ
  pub pairing_tokens : ℕ
  pub pairing_requests : ℕ
  pub federation_inbox : ℕ
  pub federation_outbox : ℕ
  pub conversations : ℕ
  pub batch : ℕ

-- `New`: a batch below one is the default
unfoldable pub batch_of : Policy → ℕ
batch_of p = if ltb p.batch 1 then 1000 else p.batch

pub record Category : Type 0 where
  pub name : String
  pub window : ℕ
  pub always : Bool
  pub prune : ℕ → Tables → Result RetentionError (Pruned Tables)

abbrev one : Tables × ℕ → Pruned Tables
one (t, removed) = record { left = t; removed = removed; truncated = false }

unfoldable pub is_delivered : ℕ → Delivery → Bool
is_delivered cutoff d =
    d.state == "delivered" && elim d.delivered_at [ none ↦ false | some t ↦ text_before t cutoff ]

unfoldable pub is_sent : ℕ → Outgoing → Bool
is_sent cutoff o = elim o.delivered_at [ none ↦ false | some t ↦ text_before t cutoff ]

-- the statements of the categories, in the order of the table
module _ (batch cutoff : ℕ) (t : Tables) where
  unfoldable pub prune_sessions : Pruned Tables
  unfolding delete_first is_old
  prune_sessions =
      let r = delete_first (is_old cutoff) batch t.sessions in
      one (record t { sessions = r.0 }, r.1)

  unfoldable pub prune_bootstrap : Pruned Tables
  unfolding delete_first is_over
  prune_bootstrap =
      let r = delete_first (is_over cutoff) batch t.bootstrap_tokens in
      one (record t { bootstrap_tokens = r.0 }, r.1)

  unfoldable pub prune_observations : Result RetentionError (Pruned Tables)
  unfolding bounded
  prune_observations = do
    r ← bounded max_passes batch cutoff 0 t.observations
    ok (record {
      left = record t { observations = r.left };
      removed = r.removed;
      truncated = r.truncated;
    })

  unfoldable pub prune_check_results : Pruned Tables
  unfolding delete_first is_old
  prune_check_results =
      let r = delete_first (is_old cutoff) batch t.check_results in
      one (record t { check_results = r.0 }, r.1)

  unfoldable pub prune_logs : Pruned Tables
  unfolding delete_first is_old is_cited
  prune_logs =
      let old =
        λ (l : Timed). is_old cutoff l && not (is_cited "log" l.id t.conversation_evidence) in
      let r = delete_first old batch t.logs in one (record t { logs = r.0 }, r.1)

  unfoldable pub prune_changes : Pruned Tables
  unfolding delete_first is_old is_cited
  prune_changes =
      let old =
        λ (c : Timed). (is_old cutoff c && not (is_cited "change" c.id t.conversation_evidence)) in
      let r = delete_first old batch t.changes in one (record t { changes = r.0 }, r.1)

  unfoldable pub prune_deliveries : Pruned Tables
  unfolding delete_first is_delivered
  prune_deliveries =
      let r = delete_first (is_delivered cutoff) batch t.notification_deliveries in
      one (record t { notification_deliveries = r.0 }, r.1)

  unfoldable pub prune_pairing_tokens : Pruned Tables
  unfolding delete_first is_over
  prune_pairing_tokens =
      let r = delete_first (is_over cutoff) batch t.pairing_tokens in
      one (record t { pairing_tokens = r.0 }, r.1)

  unfoldable pub prune_pairing_requests : Pruned Tables
  unfolding delete_first is_over
  prune_pairing_requests =
      let r = delete_first (is_over cutoff) batch t.pairing_requests in
      one (record t { pairing_requests = r.0 }, r.1)

  unfoldable pub prune_inbox : Pruned Tables
  unfolding delete_first is_old
  prune_inbox =
      let r = delete_first (is_old cutoff) batch t.federation_inbox in
      one (record t { federation_inbox = r.0 }, r.1)

  unfoldable pub prune_outbox : Pruned Tables
  unfolding delete_first is_sent
  prune_outbox =
      let r = delete_first (is_sent cutoff) batch t.federation_outbox in
      one (record t { federation_outbox = r.0 }, r.1)

  unfoldable pub prune_with :
      (ℕ → ℕ → Tables → Result RetentionError (Tables × ℕ)) → Result RetentionError (Pruned Tables)
  prune_with prune = do r ← prune batch cutoff t; ok (one r)

abbrev category : String → ℕ → (ℕ → Tables → Result RetentionError (Pruned Tables)) → Category
category name window prune = record { name = name; window = window; always = false; prune = prune }

-- the table of `RunOnce`
unfoldable pub categories : Policy → ℕ → List Category
unfolding prune_sessions prune_bootstrap prune_observations prune_check_results prune_logs
    prune_changes prune_alerts prune_deliveries prune_pairing_tokens prune_pairing_requests
    prune_inbox prune_outbox prune_conversations prune_with
categories p n =
    record (category "sessions" 0 (λ c t. ok (prune_sessions n c t))) { always = true }
    ∷ record (category "bootstrap_tokens" 0 (λ c t. ok (prune_bootstrap n c t))) { always = true }
    ∷ category "observations" p.observations (prune_observations n)
    ∷ category "check_results" p.check_results (λ c t. ok (prune_check_results n c t))
    ∷ category "logs" p.logs (λ c t. ok (prune_logs n c t))
    ∷ category "changes" p.changes (λ c t. ok (prune_changes n c t))
    ∷ category "alerts" p.alerts_resolved (λ c t. prune_with n c t prune_alerts)
    ∷ category "notification_deliveries" p.deliveries (λ c t. ok (prune_deliveries n c t))
    ∷ category "pairing_tokens" p.pairing_tokens (λ c t. ok (prune_pairing_tokens n c t))
    ∷ category "pairing_requests" p.pairing_requests (λ c t. ok (prune_pairing_requests n c t))
    ∷ category "federation_inbox" p.federation_inbox (λ c t. ok (prune_inbox n c t))
    ∷ category "federation_outbox" p.federation_outbox (λ c t. ok (prune_outbox n c t))
    ∷ category "conversations" p.conversations (λ c t. prune_with n c t prune_conversations)
    ∷ []

-- the report and the tables so far, with the category that failed
pub record Report : Type 0 where
  pub tables : Tables
  pub counts : List (String × ℕ)
  pub truncated : List String
  pub failure : Option (String × RetentionError)

-- the loop over the categories; an error ends it
unfoldable pub run : ℕ → List Category → Tables → Report
run now [] t = record { tables = t; counts = []; truncated = []; failure = none }
run now (c ∷ rest) t =
    if eqb c.window 0 && not c.always then run now rest t else elim (c.prune (now - c.window) t) [
      | err e ↦ record { tables = t; counts = []; truncated = []; failure = some (c.name, e) }
      | ok r ↦
          let later = run now rest r.left in
          record later {
            counts = (c.name, r.removed) ∷ later.counts;
            truncated = if r.truncated then c.name ∷ later.truncated else later.truncated;
          }
    ]

-- `RunOnce`
unfoldable pub run_once : Policy → ℕ → Tables → Report
unfolding categories batch_of run
run_once policy now t = run now (categories policy (batch_of policy)) t
