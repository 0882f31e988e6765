-- ===== src/AgentPairing/Enrolled.antt =====
-- What a poll of an approved request leaves: the request consumed, and the key of the agent.
use watchpost.Base.{
  ap, ℕ, String, ◌≡◌, refl, ◌∙◌, inl, inr, false, some, ◌==◌, arith, any, update_where,
  any-remove_self, ok, Option-cases, Result-cases,
}
use watchpost.Store.Agents.{PairingRequest}
use watchpost.Store.Tables.{Db}
use watchpost.Ingest.Key.{find_key, update_key, text_or_empty}
use watchpost.Pairing.{drop_observations}
use watchpost.Pairing.Consumed.{find_key-same}
use watchpost.AgentPairing.{update_request, with_requests}
use watchpost.AgentPairing.Poll.{
  upsert_connection, upsert_key, consumable, consume_row, enroll_agent,
}
use watchpost.AgentPairing.Keys.{upserted, upsert_key_self}

module _ (sha256 : String → String) (id credential : String) (now : ℕ) (r : PairingRequest)
    (db : Db) where
  -- the database before the request is marked
  abbrev pub keyed : Db → Db
  keyed connected =
      upsert_key r.installation_id (text_or_empty r.post_id) (sha256 credential)
        (drop_observations r.installation_id connected)

  pub enroll_agent_ok :
      {db' : Db}
      → enroll_agent sha256 id credential now r db ≡ ok db'
      → (connected : Db) × (upsert_connection r now db ≡ ok connected)
        × (db'
            ≡ with_requests
                (update_where
                  (consumable id)
                  (consume_row now)
                  (keyed connected).local.agent_pairing_requests)
                (keyed connected))
  unfolding enroll_agent update_request
  enroll_agent_ok h = elim (Result-cases (upsert_connection r now db)) [
    | inr (e, failed) ↦ absurd (ground arith)
    | inl (connected, done) ↦ (connected, done, ground arith)
  ]

  upsert_connection-keys :
      {connected : Db}
      → upsert_connection r now db ≡ ok connected
      → (connected.local.collector_keys ≡ db.local.collector_keys)
        × (connected.local.observations ≡ db.local.observations)
        × (connected.local.agent_pairing_requests ≡ db.local.agent_pairing_requests)
  unfolding upsert_connection
  upsert_connection-keys h = ground arith

  upsert_key-rest :
      (d : Db) (inst post_id hash : String)
      → ((upsert_key inst post_id hash d).local.observations ≡ d.local.observations)
        × ((upsert_key inst post_id hash d).local.agent_pairing_requests
            ≡ d.local.agent_pairing_requests)
  unfolding upsert_key update_key
  upsert_key-rest d inst post_id hash = elim (Option-cases (find_key inst d)) [
    | inl missing ↦ (ground arith, ground arith)
    | inr (k, known) ↦ (ground arith, ground arith)
  ]

  drop-rest :
      (d : Db) (inst : String)
      → ((drop_observations inst d).local.collector_keys ≡ d.local.collector_keys)
        × ((drop_observations inst d).local.agent_pairing_requests ≡ d.local.agent_pairing_requests)
        × (any (λ o. o.collector_id == inst) (drop_observations inst d).local.observations ≡ false)
  unfolding drop_observations
  drop-rest d inst =
      (refl, refl, any-remove_self (λ o. o.collector_id == inst) d.local.observations)

  -- the key, the observations and the requests of an enrolment
  pub enrolled-rows :
      {db' : Db}
      → enroll_agent sha256 id credential now r db ≡ ok db'
      → (find_key r.installation_id db'
          ≡ some (
              upserted r.installation_id
                (text_or_empty r.post_id)
                (sha256 credential)
                (find_key r.installation_id db)))
        × (any (λ o. o.collector_id == r.installation_id) db'.local.observations ≡ false)
        × (db'.local.agent_pairing_requests
            ≡ update_where (consumable id) (consume_row now) db.local.agent_pairing_requests)
  unfolding with_requests
  enrolled-rows {db'} h =
      let inst = r.installation_id in
      let (connected, done, same) = enroll_agent_ok h in
      let before = upsert_connection-keys done in
      let dropped = drop-rest connected inst in
      let kept =
        upsert_key-rest (drop_observations inst connected) inst (text_or_empty r.post_id)
          (sha256 credential) in
      let found =
        upsert_key_self inst (text_or_empty r.post_id) (sha256 credential)
          (drop_observations inst connected) (find_key inst db)
          (find_key-same inst db (drop_observations inst connected) (dropped.0 ∙ before.0)) in
      let base = keyed connected in
      let rows = update_where (consumable id) (consume_row now) base.local.agent_pairing_requests in
      rw same (
        find_key-same inst base (with_requests rows base) refl ∙ found,
        rw kept.0 dropped.2,
        ap (update_where (consumable id) (consume_row now)) (kept.1 ∙ dropped.1 ∙ before.2),
      )
