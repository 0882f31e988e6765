-- ===== src/AgentPairing/Changed.antt =====
-- Each call changes the requests in one of the ways of `Change`.
use watchpost.Base.{
  ◌>>◌, guard, ◌>>=◌, ℕ, String, ◌≡◌, Bool, true, false, ◌&&◌, ltb, arith, update_where, inl, inr,
  ok, Bool-cases, Option-cases, Result-cases,
}
use watchpost.Store.Agents.{RequestState, pending, approved, rejected, consumed, PairingRequest}
use watchpost.Store.Tables.{Db}
use watchpost.Store.Audit.{Entry, knows_actor, insert_audit}
use watchpost.Ingest.Key.{update_key, find_key}
use watchpost.AgentPairing.{
  constraint_failed, approve_row, reject_row, decidable, accepts_agents, update_request, decide,
}
use watchpost.AgentPairing.Credentials.{
  revoke, rotate, unpair, audited, revoke_connections, with_keys,
}
use watchpost.AgentPairing.Poll.{
  Enrollment, find_request, consumable, consume_row, enroll_agent, reissue_unused, poll, poll_state,
}
use watchpost.AgentPairing.Enrolled.{enrolled-rows}
use watchpost.AgentPairing.Lifecycle.{
  Step, asked, decided, polled, revoked, rotated, unpaired, Change, updated, unchanged,
  approve-IsOrderly, reject-IsOrderly, consume-IsOrderly, create-Change, update_request-rows,
  insert_audit-requests, keeping,
}

module _ (id post_id : String) (now : ℕ) (entry : Entry) (db : Db) {db' : Db} where
  decide-rows :
      (hit : PairingRequest → Bool) (f : PairingRequest → PairingRequest)
      → (do
        d ← update_request hit f db
        guard (knows_actor entry db) constraint_failed
        ok (
            insert_audit
              (record entry { object_type = "agent_pairing_request"; object_id = id })
              d))
        ≡ ok db'
      → db'.local.agent_pairing_requests ≡ update_where hit f db.local.agent_pairing_requests
  decide-rows hit f h = elim (Result-cases (update_request hit f db)) [
    | inr (e, failed) ↦ absurd (ground arith)
    | inl (d, changed) ↦ ground (
      arith,
      update_request-rows hit f db changed,
      insert_audit-requests (record entry { object_type = "agent_pairing_request"; object_id = id })
          d,
    )
  ]

  decide-Change :
      (approve : Bool)
      → decide id post_id approve now entry db ≡ ok db'
      → Change db.local.agent_pairing_requests db'.local.agent_pairing_requests
  unfolding decide
  decide-Change true h =
      let hit = λ (r : PairingRequest). decidable id now r && accepts_agents post_id db in
      updated hit (approve_row post_id now) (decide-rows hit (approve_row post_id now) h)
        (λ r e o. approve-IsOrderly id post_id now r (ground arith) o)
        (λ r. (keeping post_id now r).0)
  decide-Change false h =
      updated (decidable id now) (reject_row now)
        (decide-rows (decidable id now) (reject_row now) h) (λ r e o. reject-IsOrderly id now r e o)
        (λ r. (keeping post_id now r).1)

reissue-requests :
    (sha256 : String → String) (id hash credential : String) (now : ℕ) (db : Db) {db' : Db}
    → reissue_unused sha256 id hash credential now db ≡ ok db'
    → db'.local.agent_pairing_requests ≡ db.local.agent_pairing_requests
unfolding reissue_unused update_key
reissue-requests sha256 id hash credential now db h =
    elim (Option-cases (find_request id hash db)) [
      | inl missing ↦ absurd (ground arith)
      | inr (r, found) ↦ elim (Option-cases (find_key r.installation_id db)) [
        | inl missing ↦ absurd (ground arith)
        | inr (k, known) ↦ ground arith
      ]
    ]

module _ (sha256 : String → String) (id secret credential : String) (now : ℕ) (db : Db) where
  poll_state-Change :
      (r : PairingRequest) (state : RequestState) {db' : Db} {e : Enrollment}
      → poll_state sha256 id (sha256 secret) credential now r state db ≡ ok (db', e)
      → Change db.local.agent_pairing_requests db'.local.agent_pairing_requests
  unfolding poll_state
  poll_state-Change r pending {db'} h =
      unchanged db.local.agent_pairing_requests db'.local.agent_pairing_requests (ground arith)
  poll_state-Change r rejected {db'} h =
      unchanged db.local.agent_pairing_requests db'.local.agent_pairing_requests (ground arith)
  poll_state-Change r consumed {db'} h =
      elim (Result-cases (reissue_unused sha256 id (sha256 secret) credential now db)) [
        | inr (e, failed) ↦ absurd (ground arith)
        | inl (d, made) ↦
            unchanged db.local.agent_pairing_requests db'.local.agent_pairing_requests
              (ground (arith, reissue-requests sha256 id (sha256 secret) credential now db made))
      ]
  poll_state-Change r approved {db'} h =
      elim (Result-cases (enroll_agent sha256 id credential now r db)) [
        | inr (e, failed) ↦ absurd (ground arith)
        | inl (d, made) ↦
            updated (consumable id) (consume_row now)
              (ground (arith, enrolled-rows sha256 id credential now r db made))
              (consume-IsOrderly id now) (λ x. (keeping id now x).2)
      ]

  poll-Change :
      {db' : Db} {e : Enrollment}
      → poll sha256 id secret credential now db ≡ ok (db', e)
      → Change db.local.agent_pairing_requests db'.local.agent_pairing_requests
  unfolding poll
  poll-Change {db'} {e} h = elim (Option-cases (find_request id (sha256 secret) db)) [
    | inl missing ↦ absurd (ground arith)
    | inr (r, found) ↦ elim (Bool-cases (ltb now r.expires_at)) [
      | inl early ↦ poll_state-Change r r.state {db' = db'} {e = e} (ground arith)
      | inr late ↦
          unchanged db.local.agent_pairing_requests db'.local.agent_pairing_requests (ground arith)
    ]
  ]

module _ (sha256 : String → String) (id current credential : String) (now : ℕ) (entry : Entry)
    (db : Db) {db' : Db} where
  revoke-requests :
      revoke id now entry db ≡ ok db'
      → db'.local.agent_pairing_requests ≡ db.local.agent_pairing_requests
  unfolding revoke audited update_key revoke_connections insert_audit
  revoke-requests h = ground arith

  rotate-requests :
      rotate sha256 id current credential now entry db ≡ ok db'
      → db'.local.agent_pairing_requests ≡ db.local.agent_pairing_requests
  unfolding rotate audited with_keys insert_audit
  rotate-requests h = ground arith

  unpair-requests :
      unpair sha256 id current now entry db ≡ ok db'
      → db'.local.agent_pairing_requests ≡ db.local.agent_pairing_requests
  unfolding unpair audited with_keys revoke_connections insert_audit
  unpair-requests h = elim (Option-cases (find_key id db)) [
    | inl missing ↦ absurd (ground arith)
    | inr (k, known) ↦ ground arith
  ]

pub step-Change :
    (sha256 : String → String) (now : ℕ) (db db' : Db)
    → Step sha256 now db db'
    → Change db.local.agent_pairing_requests db'.local.agent_pairing_requests
step-Change sha256 now db db' (asked id phrase hello at seen row h) =
    create-Change sha256 id phrase hello at now seen db h
step-Change sha256 now db db' (decided id post_id approve entry h) =
    decide-Change id post_id now entry db approve h
step-Change sha256 now db db' (polled id secret credential e h) =
    poll-Change sha256 id secret credential now db h
step-Change sha256 now db db' (revoked id entry h) =
    unchanged _ _ (revoke-requests sha256 id "" "" now entry db h)
step-Change sha256 now db db' (rotated id current credential entry h) =
    unchanged _ _ (rotate-requests sha256 id current credential now entry db h)
step-Change sha256 now db db' (unpaired id current entry h) =
    unchanged _ _ (unpair-requests sha256 id current "" now entry db h)
