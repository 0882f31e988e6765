-- ===== src/AgentPairing/Replaced.antt =====
-- The replacement of a credential, and its end.
use Prim.Native.String.{len}
use mathlib.Core.Path.{subst}
use watchpost.Base.{
  sym, ℕ, ◌+◌, ◌<◌, ◌≤◌, String, ◌≡◌, ◌≢◌, refl, ◌∙◌, true, false, none, some, List, ◌∷◌, eq_iff,
  eq_refl, arith, adjust, update_where, count-narrow, map_option, ap, ok, err, count,
}
use watchpost.Store.Rows.{CollectorKey}
use watchpost.Store.Tables.{Db}
use watchpost.Store.Audit.{Entry, knows_actor}
use watchpost.Ingest.Types.{Observation, authentication_failed}
use watchpost.Ingest.Budget.{Service}
use watchpost.Ingest.Key.{find_key, is_key, key_info, pending_matches, promote}
use watchpost.Ingest.Accept.{authenticate, accept_batch}
use watchpost.Ingest.Batch.{record_batch}
use watchpost.Ingest.Delivery.Stored.{key_after, write_batch-ok}
use watchpost.Ingest.Delivery.Redelivered.{accepted}
use watchpost.AgentPairing.Credentials.{
  is_current, pending_replacement_lifetime, replace_with, rotate, with_keys, audited,
}
use watchpost.AgentPairing.Keys.{find_key-with_keys, find_key-audited}

is_current-is_key :
    (id hash : String) (k : CollectorKey) → is_current id hash k ≡ true → is_key id k ≡ true
unfolding is_current
is_current-is_key id hash k h = ground arith

unrevoked :
    (id hash : String) (k : CollectorKey) → is_current id hash k ≡ true → k.revoked_at ≡ none
unfolding is_current
unrevoked id hash k h = ground arith

module _ (sha256 : String → String) (id current credential : String) (now : ℕ) (entry : Entry)
    (db : Db) (k : CollectorKey) where
  abbrev rotated : Db
  rotated = audited entry id (
      with_keys
        (update_where (is_current id (sha256 current)) (replace_with (sha256 credential) now)
          db.local.collector_keys)
        db)

  rotate-ok :
      id ≢ ""
      → current ≢ ""
      → count (is_key id) db.local.collector_keys ≡ 1
      → find_key id db ≡ some k
      → is_current id (sha256 current) k ≡ true
      → knows_actor entry db ≡ true
      → rotate sha256 id current credential now entry db ≡ ok rotated
  unfolding rotate find_key
  rotate-ok named given one known live allowed = ground (
    arith,
    allowed,
    eq_iff id "",
    eq_iff current "",
    count-narrow (is_key id) (is_current id (sha256 current))
        (is_current-is_key id (sha256 current)) db.local.collector_keys k one known live,
  )

  rotated_key :
      find_key id db ≡ some k
      → is_current id (sha256 current) k ≡ true
      → find_key id rotated ≡ some (replace_with (sha256 credential) now k)
  unfolding replace_with
  rotated_key known live =
      find_key-audited id id entry _
      ∙ find_key-with_keys id (is_current id (sha256 current))
          (replace_with (sha256 credential) now) db (λ x. refl)
      ∙ ap
          (map_option
            (adjust (is_current id (sha256 current)) (replace_with (sha256 credential) now)))
          known
      ∙ rw live refl

  both_authenticate :
      (now' late : ℕ) (db' : Db)
      → id ≢ ""
      → current ≢ ""
      → credential ≢ ""
      → len (sha256 credential) ≡ 32
      → sha256 credential ≢ sha256 current
      → now' < now + pending_replacement_lifetime
      → now + pending_replacement_lifetime ≤ late
      → is_current id (sha256 current) k ≡ true
      → find_key id db' ≡ some (replace_with (sha256 credential) now k)
      → (authenticate sha256 id current late db' ≡ ok tt)
        × (authenticate sha256 id credential now' db' ≡ ok tt)
        × (authenticate sha256 id credential late db' ≡ err authentication_failed)
  unfolding authenticate key_info pending_matches is_current replace_with
  both_authenticate now' late db' named given fresh size differs early over live known = ground (
    arith,
    eq_iff id "",
    eq_iff current "",
    eq_iff credential "",
    eq_iff k.secret_hash (sha256 current),
    eq_iff k.secret_hash (sha256 credential),
    eq_refl (sha256 credential),
  )

  -- The rotation of a live key by its current credential succeeds (the key is the only one of its
  -- id, and no text is empty), and leaves both credentials valid: the current one at any time, the
  -- replacement for ten minutes and no longer. Its hash has 32 bytes and is not the current one's,
  -- and the actor is nobody or a user.
  pub rotated_both :
      (now' late : ℕ)
      → id ≢ ""
      → current ≢ ""
      → credential ≢ ""
      → len (sha256 credential) ≡ 32
      → sha256 credential ≢ sha256 current
      → now' < now + pending_replacement_lifetime
      → now + pending_replacement_lifetime ≤ late
      → count (is_key id) db.local.collector_keys ≡ 1
      → find_key id db ≡ some k
      → is_current id (sha256 current) k ≡ true
      → knows_actor entry db ≡ true
      → (db' : Db) × (rotate sha256 id current credential now entry db ≡ ok db')
        × (authenticate sha256 id current late db' ≡ ok tt)
        × (authenticate sha256 id credential now' db' ≡ ok tt)
        × (authenticate sha256 id credential late db' ≡ err authentication_failed)
  rotated_both now' late named given fresh size differs early over one known live allowed =
      let both =
        both_authenticate now' late rotated named given fresh size differs early over live
          (rotated_key known live) in
      (rotated, rotate-ok named given one known live allowed, both.0, both.1, both.2)

  -- the credentials of the key after a batch that the replacement delivered
  taken_over :
      (first : Observation) (rest : List Observation) (at sent_at late : ℕ) (batch_id : String)
      (d before : Db)
      → first.collector_id ≢ ""
      → current ≢ ""
      → credential ≢ ""
      → len (sha256 credential) ≡ 32
      → sha256 credential ≢ sha256 current
      → at < now + pending_replacement_lifetime
      → k.revoked_at ≡ none
      → find_key first.collector_id d
        ≡ some (
            key_after
              (replace_with (sha256 credential) now k)
              (sha256 credential)
              first
              rest
              at
              sent_at
              batch_id
              before)
      → (authenticate sha256 first.collector_id credential late d ≡ ok tt)
        × (authenticate sha256 first.collector_id current late d ≡ err authentication_failed)
  unfolding authenticate key_info pending_matches replace_with record_batch promote
  taken_over first rest at sent_at late batch_id d before named given fresh size differs early live
        known =
      ground (
        arith,
        eq_iff first.collector_id "",
        eq_iff current "",
        eq_iff credential "",
        eq_iff (sha256 credential) (sha256 current),
        eq_refl (sha256 credential),
      )

  rotate_key :
      {db' : Db}
      → find_key id db ≡ some k
      → is_current id (sha256 current) k ≡ true
      → rotate sha256 id current credential now entry db ≡ ok db'
      → find_key id db' ≡ some (replace_with (sha256 credential) now k)
  unfolding rotate
  rotate_key {db'} known live h =
      let same : rotated ≡ db' = ground arith in
      subst (λ d. find_key id d ≡ some (replace_with (sha256 credential) now k)) same
        (rotated_key known live)

  -- A replacement takes over with the first batch that it delivers before it expires: once a batch
  -- of the key that presents the replacement has been stored, the replacement authenticates at any
  -- time and the former credential no longer does. The texts are not empty, the hash of the
  -- replacement has 32 bytes and is not that of the former credential.
  pub replacement_takes_over :
      {db' : Db} (first : Observation) (rest : List Observation) (at sent_at late : ℕ)
      (batch_id : String) (s : Service)
      → id ≢ ""
      → current ≢ ""
      → credential ≢ ""
      → len (sha256 credential) ≡ 32
      → sha256 credential ≢ sha256 current
      → at < now + pending_replacement_lifetime
      → find_key id db ≡ some k
      → is_current id (sha256 current) k ≡ true
      → rotate sha256 id current credential now entry db ≡ ok db'
      → first.collector_id ≡ id
      → (accept_batch sha256 credential (first ∷ rest) at sent_at batch_id s db').answer ≡ ok false
      → let after = (accept_batch sha256 credential (first ∷ rest) at sent_at batch_id s db').db in
        (authenticate sha256 id credential late after ≡ ok tt)
        × (authenticate sha256 id current late after ≡ err authentication_failed)
  replacement_takes_over {db'} first rest at sent_at late batch_id s named given fresh size differs
        early known live done own stored =
      let k' = replace_with (sha256 credential) now k in
      let after = (accept_batch sha256 credential (first ∷ rest) at sent_at batch_id s db').db in
      let found : find_key first.collector_id db' ≡ some k' =
        subst (λ i. find_key i db' ≡ some k') (sym own) (rotate_key known live done) in
      let taken = accepted sha256 credential first rest at sent_at batch_id s db' k' found stored in
      let written =
        write_batch-ok k' (sha256 credential) first rest at sent_at batch_id db' found taken.0 in
      subst
        (λ i.
          (authenticate sha256 i credential late after ≡ ok tt)
          × (authenticate sha256 i current late after ≡ err authentication_failed))
        own
        (taken_over first rest at sent_at late batch_id after db' (λ e. named (sym own ∙ e)) given
          fresh size differs early (unrevoked id (sha256 current) k live) written.0)
