-- ===== src/AgentPairing/Ended.antt =====
-- The end of a connection: revoked by an administrator, or unpaired by its agent.
use mathlib.Core.Path.{subst}
use watchpost.Base.{
  ℕ, String, ◌≡◌, refl, sym, ◌∙◌, ap, Bool, true, ◌⊎◌, inl, inr, some, List, ◌∷◌, eq_refl, arith,
  adjust, map_option, update_where, ok, err,
}
use watchpost.Store.Rows.{CollectorKey}
use watchpost.Store.Tables.{Db}
use watchpost.Store.Audit.{Entry}
use watchpost.Ingest.Types.{Observation, authentication_failed}
use watchpost.Ingest.Budget.{Service}
use watchpost.Ingest.Key.{find_key, is_key, update_key}
use watchpost.Ingest.Accept.{authenticate, accept_batch, accept}
use watchpost.Ingest.Delivery.Refused.{revoked_refused}
use watchpost.AgentPairing.Credentials.{
  revoke, unpair, with_keys, audited, revoke_key, revoke_connections, is_live_key,
}
use watchpost.AgentPairing.Keys.{
  find_key-with_keys, find_key-update_key, find_key-audited, find_key-id,
}

find_key-revoke_connections :
    (id other : String) (now : ℕ) (db : Db)
    → find_key id (revoke_connections other now db) ≡ find_key id db
unfolding find_key revoke_connections
find_key-revoke_connections id other now db = refl

revoked_key :
    (id : String) (hit : CollectorKey → Bool) (now : ℕ) (entry : Entry) (db : Db) (k : CollectorKey)
    → find_key id db ≡ some k
    → hit k ≡ true
    → find_key id (
        audited entry id (with_keys (update_where hit (revoke_key now) db.local.collector_keys) db))
      ≡ some (revoke_key now k)
unfolding revoke_key
revoked_key id hit now entry db k known live =
    find_key-audited id id entry _
    ∙ find_key-with_keys id hit (revoke_key now) db (λ x. refl)
    ∙ ap (map_option (adjust hit (revoke_key now))) known
    ∙ rw live refl

is_key_self :
    (id : String) (db : Db) (k : CollectorKey) → find_key id db ≡ some k → is_key id k ≡ true
unfolding is_key
is_key_self id db k known = ground (arith, find_key-id id db k known, eq_refl id)

module _ (sha256 : String → String) (id current : String) (now : ℕ) (entry : Entry) (db : Db)
    (k : CollectorKey) (known : find_key id db ≡ some k) {db' : Db} where
  revoke_ok : revoke id now entry db ≡ ok db' → find_key id db' ≡ some (revoke_key now k)
  unfolding revoke revoke_key
  revoke_ok h =
      let base = revoke_connections id now db in
      let same : audited entry id (update_key id (revoke_key now) base) ≡ db' = ground arith in
      subst (λ d. find_key id d ≡ some (revoke_key now k)) same
        (find_key-audited id id entry (update_key id (revoke_key now) base)
          ∙ find_key-update_key id id (revoke_key now) base (λ x. refl)
          ∙ ap (map_option (adjust (is_key id) (revoke_key now)))
              (find_key-revoke_connections id id now db ∙ known)
          ∙ rw (is_key_self id db k known) refl)

  unpair_ok :
      unpair sha256 id current now entry db ≡ ok db' → find_key id db' ≡ some (revoke_key now k)
  unfolding unpair revoke_connections is_live_key
  unpair_ok h =
      let base = revoke_connections id now db in
      let same : audited entry id (
            with_keys (update_where (is_live_key id) (revoke_key now) base.local.collector_keys)
              base)
          ≡ db' =
        ground arith in
      subst (λ d. find_key id d ≡ some (revoke_key now k)) same
        (revoked_key id (is_live_key id) now entry base k
          (find_key-revoke_connections id id now db ∙ known)
          (ground (arith, is_key_self id db k known)))

  -- A connection that an administrator revoked or that its agent ended delivers nothing more: no
  -- credential authenticates the installation, and no batch and no single observation of it
  -- changes the database. Its key is known before.
  pub ended_refuses :
      (secret : String) (o : Observation) (rest : List Observation) (at sent_at : ℕ)
      (batch_id : String) (s : Service)
      → (revoke id now entry db ≡ ok db') ⊎ (unpair sha256 id current now entry db ≡ ok db')
      → o.collector_id ≡ id
      → ((accept_batch sha256 secret (o ∷ rest) at sent_at batch_id s db').db ≡ db')
        × ((accept sha256 secret o at s db').db ≡ db')
        × (authenticate sha256 id secret at db' ≡ err authentication_failed)
  unfolding revoke_key
  ended_refuses secret o rest at sent_at batch_id s ended own =
      let found : find_key id db' ≡ some (revoke_key now k) = elim ended [
        | inl h ↦ revoke_ok h
        | inr h ↦ unpair_ok h
      ] in
      let refused =
        revoked_refused sha256 secret o rest at sent_at batch_id s db' (revoke_key now k) now
          (subst (λ i. find_key i db' ≡ some (revoke_key now k)) (sym own) found) refl in
      (
        refused.0,
        refused.1,
        subst (λ i. authenticate sha256 i secret at db' ≡ err authentication_failed) own refused.2,
      )
