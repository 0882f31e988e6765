-- ===== src/AgentPairing/Keys.antt =====
-- The rows that the statements of the component leave: keys, connections and requests.
use watchpost.Base.{
  Option-cases, ==-comm, inl, inr, String, ◌≡◌, refl, Bool, false, Option, none, some, ◌∷◌, ◌==◌,
  eq_iff, eq_refl, arith, find, update_where, adjust, find-some, map_option,
  find-update_where-adjust,
}
use watchpost.Store.Rows.{CollectorKey}
use watchpost.Store.Tables.{Db}
use watchpost.Ingest.Key.{is_key, find_key, update_key, new_key}
use watchpost.Store.Audit.{Entry}
use watchpost.AgentPairing.Credentials.{with_keys, audited}
use watchpost.AgentPairing.Poll.{upsert_key, take_over}

-- a statement that keeps the ids of the rows
pub find_key-with_keys :
    (id : String) (p : CollectorKey → Bool) (f : CollectorKey → CollectorKey) (db : Db)
    → ((k : CollectorKey) → (f k).id ≡ k.id)
    → find_key id (with_keys (update_where p f db.local.collector_keys) db)
      ≡ map_option (adjust p f) (find_key id db)
unfolding find_key with_keys is_key
find_key-with_keys id p f db same =
    find-update_where-adjust (is_key id) p f (λ k. rw (same k) refl) db.local.collector_keys

pub find_key-update_key :
    (id other : String) (f : CollectorKey → CollectorKey) (db : Db)
    → ((k : CollectorKey) → (f k).id ≡ k.id)
    → find_key id (update_key other f db) ≡ map_option (adjust (is_key other) f) (find_key id db)
unfolding find_key update_key is_key
find_key-update_key id other f db same =
    find-update_where-adjust (is_key id) (is_key other) f (λ k. rw (same k) refl)
      db.local.collector_keys

pub find_key-audited :
    (id object : String) (entry : Entry) (db : Db)
    → find_key id (audited entry object db) ≡ find_key id db
unfolding find_key audited
find_key-audited id object entry db = refl

-- the key that is found has the id that was asked for
pub find_key-id : (id : String) (db : Db) (k : CollectorKey) → find_key id db ≡ some k → k.id ≡ id
unfolding find_key is_key
find_key-id id db k h =
    ground (arith, find-some (is_key id) db.local.collector_keys k, eq_iff k.id id)

pub find_key-update_other :
    (id other : String) (f : CollectorKey → CollectorKey) (db : Db)
    → (id == other) ≡ false
    → ((k : CollectorKey) → (f k).id ≡ k.id)
    → find_key other (update_key id f db) ≡ find_key other db
unfolding is_key
find_key-update_other id other f db differs same = elim (Option-cases (find_key other db)) [
  | inl missing ↦ ground (arith, find_key-update_key other id f db same)
  | inr (k, known) ↦ ground (
    arith,
    find_key-update_key other id f db same,
    find_key-id other db k known,
    ==-comm id other,
  )
]

find_key-cons :
    (other : String) (k : CollectorKey) (db : Db)
    → (k.id == other) ≡ false
    → find_key other (with_keys (k ∷ db.local.collector_keys) db) ≡ find_key other db
unfolding find_key with_keys find is_key
find_key-cons other k db differs = ground arith

-- the key after the upsert of an enrolment
abbrev pub upserted : String → String → String → Option CollectorKey → CollectorKey
upserted id post_id secret_hash none = new_key id post_id secret_hash
upserted id post_id secret_hash (some k) = take_over post_id secret_hash k

module _ (id post_id secret_hash : String) (db : Db) where
  pub upsert_key_self :
      (o : Option CollectorKey)
      → find_key id db ≡ o
      → find_key id (upsert_key id post_id secret_hash db)
        ≡ some (upserted id post_id secret_hash o)
  unfolding upsert_key find_key find is_key new_key
  upsert_key_self none known = ground (arith, eq_refl id)
  upsert_key_self (some k) known = ground (
    arith,
    find_key-update_key id id (take_over post_id secret_hash) db,
    find_key-id id db k known,
    eq_refl id,
  )

  pub upsert_key-other :
      (other : String)
      → (id == other) ≡ false
      → find_key other (upsert_key id post_id secret_hash db) ≡ find_key other db
  unfolding upsert_key new_key with_keys
  upsert_key-other other differs = elim (Option-cases (find_key id db)) [
    | inl missing ↦ ground (arith, find_key-cons other (new_key id post_id secret_hash) db differs)
    | inr (k, known) ↦ ground (
      arith,
      find_key-update_other id other (take_over post_id secret_hash) db differs (λ x. refl),
    )
  ]
