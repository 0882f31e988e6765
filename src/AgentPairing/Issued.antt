-- ===== src/AgentPairing/Issued.antt =====
-- The credential that a poll issues.
use watchpost.Base.{
  ℕ, ◌<◌, String, ◌≡◌, ◌≢◌, refl, ◌∙◌, inl, inr, true, false, Option, none, some, ◌==◌, ltb, eq_iff,
  eq_refl, arith, any, find-update_where-adjust, adjust, map_option, find-some, ap, ok, err,
  Result-cases,
}
use watchpost.Store.Rows.{CollectorKey}
use watchpost.Store.Agents.{RequestState, consumed, PairingRequest}
use watchpost.Store.Tables.{Db}
use watchpost.Ingest.Key.{find_key, new_key, key_info, text_or_empty}
use watchpost.Ingest.Accept.{authenticate}
use watchpost.Pairing.{re_key}
use watchpost.AgentPairing.{already_claimed}
use watchpost.AgentPairing.Poll.{
  Progress, Enrollment, asked_with, consumable, consume_row, find_request, take_over, enroll_agent,
  poll, poll_state, reissue_unused, is_consumed,
}
use watchpost.AgentPairing.Keys.{upserted}
use watchpost.AgentPairing.Enrolled.{enrolled-rows}

module _ (sha256 : String → String) (id secret credential : String) (now : ℕ) (db : Db) where
  pub poll_ok :
      {db' : Db} {e : Enrollment} (r : PairingRequest)
      → find_request id (sha256 secret) db ≡ some r
      → r.state ≡ RequestState.approved
      → poll sha256 id secret credential now db ≡ ok (db', e)
      → e.state ≡ Progress.approved
      → (enroll_agent sha256 id credential now r db ≡ ok db')
        × (e.collector_id ≡ r.installation_id)
        × (e.credential ≡ credential)
        × (ltb now r.expires_at ≡ true)
  unfolding poll poll_state
  poll_ok {db'} {e} r found granted h issued =
      elim (Result-cases (enroll_agent sha256 id credential now r db)) [
        | inr (f, failed) ↦ absurd (ground arith)
        | inl (d, done) ↦ ground arith
      ]

  -- a key that an enrolment wrote
  upserted-authenticates :
      (inst post_id : String) (now' : ℕ) (db' : Db) (o : Option CollectorKey)
      → inst ≢ ""
      → credential ≢ ""
      → find_key inst db' ≡ some (upserted inst post_id (sha256 credential) o)
      → (authenticate sha256 inst credential now' db' ≡ ok tt)
        × ((upserted inst post_id (sha256 credential) o).last_sequence ≡ 0)
        × ((upserted inst post_id (sha256 credential) o).post_id ≡ post_id)
  unfolding authenticate key_info new_key take_over re_key
  upserted-authenticates inst post_id now' db' none named given known =
      ground (arith, eq_iff inst "", eq_iff credential "", eq_refl (sha256 credential))
  upserted-authenticates inst post_id now' db' (some k) named given known =
      ground (arith, eq_iff inst "", eq_iff credential "", eq_refl (sha256 credential))

  -- An agent whose request was approved and whose poll answers with a credential is enrolled, if
  -- neither the credential nor the installation's id is empty: the credential authenticates the
  -- installation at any time, whether its key was new, in use, revoked or of another post; the key
  -- is of the approved post and its sequence starts at 0, and no observation of it is left.
  pub polled_authenticates :
      {db' : Db} {e : Enrollment} (r : PairingRequest) (now' : ℕ)
      → r.installation_id ≢ ""
      → credential ≢ ""
      → find_request id (sha256 secret) db ≡ some r
      → r.state ≡ RequestState.approved
      → poll sha256 id secret credential now db ≡ ok (db', e)
      → e.state ≡ Progress.approved
      → (authenticate sha256 r.installation_id credential now' db' ≡ ok tt)
        × ((k : CollectorKey) × (find_key r.installation_id db' ≡ some k)
            × (k.last_sequence ≡ 0)
            × (k.post_id ≡ text_or_empty r.post_id))
        × (any (λ o. o.collector_id == r.installation_id) db'.local.observations ≡ false)
  polled_authenticates {db'} {e} r now' named given found granted h issued =
      let inst = r.installation_id in
      let rows = enrolled-rows sha256 id credential now r db (poll_ok r found granted h issued).0 in
      let fresh =
        upserted-authenticates inst (text_or_empty r.post_id) now' db' (find_key inst db) named
          given rows.0 in
      (
        fresh.0,
        (
          upserted inst (text_or_empty r.post_id) (sha256 credential) (find_key inst db),
          rows.0,
          fresh.1,
          fresh.2,
        ),
        rows.1,
      )

  kept_question :
      (hash : String) (r : PairingRequest)
      → asked_with id hash (consume_row now r) ≡ asked_with id hash r
  unfolding asked_with consume_row
  kept_question hash r = refl

  adjusted :
      (r : PairingRequest)
      → asked_with id (sha256 secret) r ≡ true
      → r.state ≡ RequestState.approved
      → adjust (consumable id) (consume_row now) r ≡ consume_row now r
  unfolding asked_with consumable
  adjusted r asked granted = ground arith

  -- a request that an enrolment has consumed, as a later poll finds it
  pub consumed_request :
      (r : PairingRequest) {db' : Db}
      → find_request id (sha256 secret) db ≡ some r
      → r.state ≡ RequestState.approved
      → enroll_agent sha256 id credential now r db ≡ ok db'
      → find_request id (sha256 secret) db' ≡ some (consume_row now r)
  unfolding find_request
  consumed_request r {db'} found granted done =
      let hash = sha256 secret in
      let rows = db.local.agent_pairing_requests in
      (rw (enrolled-rows sha256 id credential now r db done).2 (
        find-update_where-adjust (asked_with id hash) (consumable id) (consume_row now)
          (kept_question hash) rows))
      ∙ ap (map_option (adjust (consumable id) (consume_row now))) found
      ∙ ap some (adjusted r (find-some (asked_with id hash) rows r found) granted)

-- a consumed request whose key has been in use
pub claimed :
    (sha256 : String → String) (id secret credential : String) (now : ℕ) (r : PairingRequest)
    (k : CollectorKey) (db : Db)
    → find_request id (sha256 secret) db ≡ some r
    → r.state ≡ consumed
    → now < r.expires_at
    → find_key r.installation_id db ≡ some k
    → k.last_sequence ≢ 0
    → poll sha256 id secret credential now db ≡ err already_claimed
unfolding poll poll_state reissue_unused is_consumed
claimed sha256 id secret credential now r k db found state early known used = ground arith
