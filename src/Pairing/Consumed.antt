-- ===== src/Pairing/Consumed.antt =====
-- The inversion of a successful `Consume`, statement by statement, and what each of them leaves.
use mathlib.Core.Path.{subst}
use watchpost.Base.{
  ℕ, String, ◌≡◌, ◌≢◌, refl, ◌∙◌, inl, inr, true, false, Option, none, some, List, [], ◌∷◌, ◌==◌,
  eq_refl, arith, any, find, update_where, any-remove_self, find-update_where, ok, Option-cases,
  Result-cases,
}
use watchpost.Store.Rows.{CollectorKey, PairingToken}
use watchpost.Store.Tables.{Db}
use watchpost.Ingest.Key.{new_key, find_key, update_key, is_key}
use watchpost.Pairing.{
  is_token, find_token, is_usable, drop_observations, re_key, upsert_key, is_unused_token,
  use_token, mark_used, Enrollment, consume,
}

find-use_token :
    (hash : String) (now : ℕ) (tokens : List PairingToken) (t : PairingToken)
    → find (is_token hash) tokens ≡ some t
    → t.used_at ≡ none
    → find (is_token hash) (update_where (is_unused_token hash) (use_token now) tokens)
      ≡ some (use_token now t)
unfolding find update_where is_unused_token is_token use_token
find-use_token hash now [] t h unused = cc
find-use_token hash now (x ∷ xs) t h unused = ground (arith, find-use_token hash now xs t)

module _ (id post_id secret_hash : String) (db : Db) where
  upsert_key-tokens :
      {db' : Db}
      → upsert_key id post_id secret_hash db ≡ ok db'
      → (db'.local.collector_pairing_tokens ≡ db.local.collector_pairing_tokens)
        × (db'.local.observations ≡ db.local.observations)
  unfolding upsert_key update_key
  upsert_key-tokens h = ground arith

  find_key-new_key :
      (db' : Db)
      → db'.local.collector_keys ≡ new_key id post_id secret_hash ∷ db.local.collector_keys
      → find_key id db' ≡ some (new_key id post_id secret_hash)
  unfolding find_key find is_key new_key
  find_key-new_key db' h = rw h (rw (eq_refl id) refl)

  find_key-re_key :
      (k : CollectorKey)
      → find_key id db ≡ some k
      → find_key id (update_key id (re_key secret_hash) db) ≡ some (re_key secret_hash k)
  unfolding find_key update_key re_key is_key
  find_key-re_key k h =
      find-update_where (is_key id) (re_key secret_hash) (λ x e. e) db.local.collector_keys k h

  abbrev pub upserted : Option CollectorKey → CollectorKey
  upserted none = new_key id post_id secret_hash
  upserted (some k) = re_key secret_hash k

  upsert_key-key :
      (o : Option CollectorKey) {db' : Db}
      → find_key id db ≡ o
      → upsert_key id post_id secret_hash db ≡ ok db'
      → find_key id db' ≡ some (upserted o)
  unfolding upsert_key
  upsert_key-key none {db'} known h = find_key-new_key db' (ground arith)
  upsert_key-key (some k) {db'} known h =
      let same : update_key id (re_key secret_hash) db ≡ db' = ground arith in
      subst (λ d. find_key id d ≡ some (re_key secret_hash k)) same (find_key-re_key k known)

mark_used-ok :
    (hash : String) (now : ℕ) (db : Db) (t : PairingToken) {db' : Db}
    → find_token hash db ≡ some t
    → t.used_at ≡ none
    → mark_used hash now db ≡ ok db'
    → (find_token hash db' ≡ some (use_token now t))
      × (db'.local.collector_keys ≡ db.local.collector_keys)
      × (db'.local.observations ≡ db.local.observations)
unfolding mark_used find_token
mark_used-ok hash now db t h unused done =
    ground (arith, find-use_token hash now db.local.collector_pairing_tokens t h unused)

pub find_key-same :
    (id : String) (db db' : Db)
    → db'.local.collector_keys ≡ db.local.collector_keys
    → find_key id db' ≡ find_key id db
unfolding find_key
find_key-same id db db' same = rw same refl

find_token-same :
    (hash : String) (db db' : Db)
    → db'.local.collector_pairing_tokens ≡ db.local.collector_pairing_tokens
    → find_token hash db' ≡ find_token hash db
unfolding find_token
find_token-same hash db db' same = rw same refl

find_key-drop_observations :
    (id : String) (db : Db) → find_key id (drop_observations id db) ≡ find_key id db
unfolding find_key drop_observations
find_key-drop_observations id db = refl

-- what a successful call did: its token, and the database after the key was written
pub record Consumed (sha256 : String → String) (token id secret : String) (now : ℕ) (db db' : Db)
    : Type 0 where
  pub used : PairingToken
  pub keyed : Db
  pub found : find_token (sha256 token) db ≡ some used
  pub usable : is_usable now used ≡ true
  pub named : (token ≢ "") × (id ≢ "")
  pub upserted_key : upsert_key id used.post_id (sha256 secret) (drop_observations id db) ≡ ok keyed
  pub marked : mark_used (sha256 token) now keyed ≡ ok db'

module _ (sha256 : String → String) (token id secret : String) (now : ℕ) (db : Db) where
  pub consume-Consumed :
      {db' : Db} {enrollment : Enrollment}
      → consume sha256 token id secret now db ≡ ok (db', enrollment)
      → Consumed sha256 token id secret now db db'
  unfolding consume
  consume-Consumed {db'} {enrollment} h = elim (Option-cases (find_token (sha256 token) db)) [
    | inl missing ↦ absurd (ground arith)
    | inr (t, found) ↦
        elim (Result-cases (upsert_key id t.post_id (sha256 secret) (drop_observations id db))) [
          | inl (keyed, done) ↦ record {
            used = t;
            keyed = keyed;
            found = found;
            usable = ground arith;
            named = ground (arith, eq_refl token, eq_refl id);
            upserted_key = done;
            marked = ground arith;
          }
          | inr (e, failed) ↦ absurd (ground arith)
        ]
  ]

  is_usable-unused : (t : PairingToken) → is_usable now t ≡ true → t.used_at ≡ none
  unfolding is_usable
  is_usable-unused t h = ground arith

  drop-tokens :
      (drop_observations id db).local.collector_pairing_tokens ≡ db.local.collector_pairing_tokens
  unfolding drop_observations
  drop-tokens = refl

  module _ {db' : Db} {enrollment : Enrollment}
      (h : consume sha256 token id secret now db ≡ ok (db', enrollment)) where
    -- what the last two statements of the transaction leave
    pub written :
        let c = consume-Consumed h in
        (find_token (sha256 token) db' ≡ some (use_token now c.used))
        × (db'.local.collector_keys ≡ c.keyed.local.collector_keys)
        × (db'.local.observations ≡ (drop_observations id db).local.observations)
    written =
        let c = consume-Consumed h in
        let before =
          upsert_key-tokens id c.used.post_id (sha256 secret) (drop_observations id db)
            c.upserted_key in
        let token_before =
          find_token-same (sha256 token) (drop_observations id db) c.keyed before.0
          ∙ find_token-same (sha256 token) db (drop_observations id db) drop-tokens
          ∙ c.found in
        let marked =
          mark_used-ok (sha256 token) now c.keyed c.used token_before
            (is_usable-unused c.used c.usable) c.marked in
        (marked.0, marked.1, marked.2 ∙ before.1)

    pub rows_dropped : any (λ o. o.collector_id == id) db'.local.observations ≡ false
    unfolding drop_observations
    rows_dropped = rw written.2 (any-remove_self (λ o. o.collector_id == id) db.local.observations)

    pub key_after :
        (o : Option CollectorKey)
        → find_key id db ≡ o
        → find_key id db'
          ≡ some (
              upserted id
                (consume-Consumed h).used.post_id
                (sha256 secret)
                (drop_observations id db)
                o)
    key_after o known =
        let c = consume-Consumed h in
        find_key-same id c.keyed db' written.1
        ∙ upsert_key-key id c.used.post_id (sha256 secret) (drop_observations id db) o
            (find_key-drop_observations id db ∙ known) c.upserted_key
