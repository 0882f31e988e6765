-- ===== src/AgentPairing/Claimed.antt =====
-- An enrolment and the first delivery after it.
use mathlib.Core.Path.{subst}
use watchpost.Base.{ℕ, ◌<◌, String, ◌≡◌, refl, sym, ◌∙◌, false, some, List, ◌∷◌, arith, ok, err}
use watchpost.Store.Agents.{RequestState, PairingRequest}
use watchpost.Store.Tables.{Db}
use watchpost.Ingest.Types.{Observation}
use watchpost.Ingest.Budget.{Service}
use watchpost.Ingest.Key.{find_key, text_or_empty}
use watchpost.Ingest.Accept.{accept_batch}
use watchpost.Ingest.Delivery.Redelivered.{accepted_stored}
use watchpost.Ingest.Delivery.Untouched.{stored-requests}
use watchpost.AgentPairing.{already_claimed}
use watchpost.AgentPairing.Poll.{Progress, Enrollment, find_request, consume_row, poll}
use watchpost.AgentPairing.Keys.{upserted}
use watchpost.AgentPairing.Enrolled.{enrolled-rows}
use watchpost.AgentPairing.Issued.{poll_ok, consumed_request, claimed}

find_request-same :
    (id hash : String) (db db' : Db)
    → db'.local.agent_pairing_requests ≡ db.local.agent_pairing_requests
    → find_request id hash db' ≡ find_request id hash db
unfolding find_request
find_request-same id hash db db' same = rw same refl

module _ (sha256 : String → String) (id secret credential other : String) (now at sent_at : ℕ)
    (batch_id : String) (s : Service) (first : Observation) (rest : List Observation) (db : Db)
    (r : PairingRequest) where
  -- Once an approved agent has polled its credential and a batch of it has been stored, whoever
  -- polls the request with its secret before it expires is refused, so no second credential is
  -- issued for it.
  pub claimed_not_reissued :
      {db1 : Db} {e : Enrollment} (later : ℕ)
      → first.collector_id ≡ r.installation_id
      → find_request id (sha256 secret) db ≡ some r
      → r.state ≡ RequestState.approved
      → poll sha256 id secret credential now db ≡ ok (db1, e)
      → e.state ≡ Progress.approved
      → (accept_batch sha256 credential (first ∷ rest) at sent_at batch_id s db1).answer ≡ ok false
      → later < r.expires_at
      → poll sha256 id secret other later
          (accept_batch sha256 credential (first ∷ rest) at sent_at batch_id s db1).db
        ≡ err already_claimed
  unfolding consume_row
  claimed_not_reissued {db1} {e} later own found granted h issued stored early =
      let db2 = (accept_batch sha256 credential (first ∷ rest) at sent_at batch_id s db1).db in
      let done = (poll_ok sha256 id secret credential now db r found granted h issued).0 in
      let k =
        upserted r.installation_id (text_or_empty r.post_id) (sha256 credential)
          (find_key r.installation_id db) in
      let known : find_key first.collector_id db1 ≡ some k =
        subst (λ i. find_key i db1 ≡ some k) (sym own)
          (enrolled-rows sha256 id credential now r db done).0 in
      let kept =
        find_request-same id (sha256 secret) db1 db2
          (stored-requests sha256 credential first rest at sent_at batch_id s db1 k known stored)
        ∙ consumed_request sha256 id secret credential now db r found granted done in
      let (k', after, grown) =
        (accepted_stored sha256 credential first rest at sent_at batch_id s db1 k known stored).2 in
      claimed sha256 id secret other later (consume_row now r) k' db2 kept refl early
        (subst (λ i. find_key i db2 ≡ some k') own after) (omega (arith, grown))
