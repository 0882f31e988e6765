-- ===== src/Retention.antt =====
-- internal/retention/retention.go, and Retain of internal/history/history.go: the pruning of old
-- rows. A table is the list of its rows in the order of the key that the statements order by, with
-- the columns that they read; a time is in nanoseconds, and compared as the text that the tables hold.
pub mod Pass
pub mod Batches
pub mod Protected
use watchpost.Base.{
  zero, ℕ, suc, ◌+◌, ◌-◌, String, Bool, true, false, not, ◌&&◌, ◌||◌, Option, none, some, List, [],
  ◌∷◌, ◌==◌, eqb, ltb, leb, text_before, if◌then◌else◌, any, remove, Result, ok, err, ◌>>=◌, ◌>>◌,
  guard,
}
use watchpost.Store.Rows.{Alert, AlertState}

-- a row with the one time that decides
pub record Timed : Type 0 where
  pub id : ℕ
  pub at : ℕ

-- `COALESCE(ended_at,expires_at)`
pub record Expiring : Type 0 where
  pub id : String
  pub ended_at : Option ℕ
  pub expires_at : ℕ

pub record Delivery : Type 0 where
  pub id : ℕ
  pub alert_id : ℕ
  pub state : String
  pub delivered_at : Option ℕ

pub record Outgoing : Type 0 where
  pub id : ℕ
  pub delivered_at : Option ℕ

pub record Conversation : Type 0 where
  pub id : ℕ
  pub post_id : Option String
  pub incident_id : Option ℕ
  pub created_at : ℕ

-- a row of conversation_messages
pub record Message : Type 0 where
  pub id : ℕ
  pub conversation_id : ℕ

pub record Evidence : Type 0 where
  pub conversation_id : ℕ
  pub kind : String
  pub evidence_id : ℕ

pub record Tables : Type 0 where
  pub sessions : List Timed
  pub bootstrap_tokens : List Expiring
  pub observations : List Timed
  pub check_results : List Timed
  pub logs : List Timed
  pub changes : List Timed
  pub alerts : List Alert
  pub incident_alerts : List ℕ
  pub notification_deliveries : List Delivery
  pub pairing_tokens : List Expiring
  pub pairing_requests : List Expiring
  pub federation_inbox : List Timed
  pub federation_outbox : List Outgoing
  pub conversations : List Conversation
  pub conversation_messages : List Message
  pub conversation_evidence : List Evidence

pub data RetentionError : Type 0 where
  constraint_failed invalid_batch : RetentionError

-- `DELETE … WHERE key IN (SELECT key … WHERE p ORDER BY key LIMIT n)`, and the rows affected
unfoldable pub delete_first {ℓ} : {A : Type ℓ} → (A → Bool) → ℕ → List A → List A × ℕ
delete_first p n [] = ([], 0)
delete_first p n (x ∷ xs) =
    let hit = p x && ltb 0 n in
    let rest = delete_first p (if hit then n - 1 else n) xs in
    if hit then (rest.0, suc rest.1) else (x ∷ rest.0, rest.1)

unfoldable pub is_old : ℕ → Timed → Bool
is_old cutoff r = text_before r.at cutoff

unfoldable pub is_over : ℕ → Expiring → Bool
is_over cutoff r = elim r.ended_at [
  | none ↦ text_before r.expires_at cutoff
  | some t ↦ text_before t cutoff
]

-- `EXISTS (SELECT 1 FROM conversation_evidence …)`
unfoldable pub is_cited : String → ℕ → List Evidence → Bool
unfolding any
is_cited kind id evidence = any (λ e. e.kind == kind && eqb e.evidence_id id) evidence

unfoldable pub is_resolved : AlertState → Bool
is_resolved AlertState.pending = false
is_resolved AlertState.firing = false
is_resolved AlertState.acknowledged = false
is_resolved AlertState.suppressed = false
is_resolved AlertState.resolved = true

-- `id IN (SELECT MAX(n.id) FROM alerts n GROUP BY n.rule_id,n.post_id)`, of a row of the table
unfoldable pub is_newest : Alert → List Alert → Bool
unfolding any
is_newest a alerts =
    not (any (λ n. n.rule_id == a.rule_id && n.post_id == a.post_id && ltb a.id n.id) alerts)

unfoldable pub is_stale_alert : ℕ → Tables → Alert → Bool
unfolding is_resolved is_newest any is_cited
is_stale_alert cutoff t a =
    (not (is_resolved a.state) && text_before a.updated_at cutoff && not (is_newest a t.alerts)
      || is_resolved a.state
        && elim a.resolved_at [ none ↦ false | some at ↦ text_before at cutoff ])
    && not (any (eqb a.id) t.incident_alerts)
    && not (is_cited "alert" a.id t.conversation_evidence)

-- notification_deliveries.alert_id refers to alerts(id)
unfoldable pub has_alert : ℕ → List Alert → Bool
unfolding any
has_alert id alerts = any (λ a. eqb a.id id) alerts

unfoldable pub prune_alerts : ℕ → ℕ → Tables → Result RetentionError (Tables × ℕ)
unfolding delete_first is_stale_alert has_alert any
prune_alerts batch cutoff t = do
  let left = delete_first (is_stale_alert cutoff t) batch t.alerts
  guard
      (not (
        any (λ d. has_alert d.alert_id t.alerts && not (has_alert d.alert_id left.0))
          t.notification_deliveries))
      constraint_failed
  ok (record t { alerts = left.0 }, left.1)

unfoldable pub is_orphaned : ℕ → Conversation → Bool
is_orphaned cutoff c =
    elim c.post_id [ none ↦ true | some p ↦ false ]
    && elim c.incident_id [ none ↦ true | some i ↦ false ]
    && text_before c.created_at cutoff

unfoldable pub has_conversation : ℕ → List Conversation → Bool
unfolding any
has_conversation id rows = any (λ c. eqb c.id id) rows

-- conversation_messages.conversation_id refers to conversations(id) and blocks; the reference of
-- conversation_evidence cascades
unfoldable pub prune_conversations : ℕ → ℕ → Tables → Result RetentionError (Tables × ℕ)
unfolding delete_first is_orphaned has_conversation any remove
prune_conversations batch cutoff t = do
  let left = delete_first (is_orphaned cutoff) batch t.conversations
  let gone = λ (id : ℕ). has_conversation id t.conversations && not (has_conversation id left.0)
  guard (not (any (λ m. gone m.conversation_id) t.conversation_messages)) constraint_failed
  ok (
    record t {
      conversations = left.0;
      conversation_evidence = remove (λ e. gone e.conversation_id) t.conversation_evidence;
    },
    left.1,
  )

-- `history.Retain`
unfoldable pub retain : ℕ → ℕ → List Timed → Result RetentionError (List Timed × ℕ)
unfolding delete_first is_old
retain batch cutoff rows = do
  guard (leb 1 batch && leb batch 10_000) invalid_batch
  ok (delete_first (is_old cutoff) batch rows)

abbrev pub max_passes : ℕ
max_passes = 250

-- what a category did: the rows that it left and removed, and whether it stopped at the cap
pub record Pruned (A : Type 0) : Type 0 where
  pub left : A
  pub removed : ℕ
  pub truncated : Bool

-- `bounded`, with the passes that are left and the rows removed so far
unfoldable pub bounded : ℕ → ℕ → ℕ → ℕ → List Timed → Result RetentionError (Pruned (List Timed))
unfolding retain
bounded zero batch cutoff total rows =
    ok (record { left = rows; removed = total; truncated = true })
bounded (suc passes) batch cutoff total rows = elim (retain batch cutoff rows) [
  | err e ↦ err e
  | ok (rows', removed) ↦
      let rest = bounded passes batch cutoff (total + removed) rows' in
      if ltb removed batch
      then ok (record { left = rows'; removed = total + removed; truncated = false })
      else rest
]
