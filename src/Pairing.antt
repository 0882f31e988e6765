-- ===== src/Pairing.antt =====
-- internal/pairing/pairing.go: the tokens that pair a collector with a post. The token and the
-- secret that are drawn at random are arguments, and so is the hash, SHA-256; a time is in
-- nanoseconds.
pub mod Consumed
pub mod Enrolled
use watchpost.Base.{
  ℕ, ◌+◌, ◌*◌, String, Bool, true, false, not, ◌&&◌, ◌||◌, Option, none, some, List, [], ◌∷◌, ◌==◌,
  eqb, ltb, any, find, remove, count, update_where, Result, ok, err, ◌>>=◌, ◌>>◌, guard, require,
  if◌then◌else◌,
}
use watchpost.Store.Rows.{CollectorKey, PairingToken}
use watchpost.Store.Tables.{Db}
use watchpost.Store.Audit.{Entry, knows_actor, insert_audit}
use watchpost.Ingest.Budget.{minute}
use watchpost.Ingest.Key.{new_key, find_key, update_key}

pub data PairingError : Type 0 where
  invalid_lifetime post_unavailable invalid_request token_invalid : PairingError
  token_expired_or_used other_post token_already_used storage_failed identity_unavailable :
      PairingError

abbrev pub max_lifetime : ℕ
max_lifetime = 30 * minute

unfoldable pub is_token : String → PairingToken → Bool
is_token hash t = t.token_hash == hash

unfoldable pub find_token : String → Db → Option PairingToken
unfolding find is_token
find_token hash db = find (is_token hash) db.local.collector_pairing_tokens

-- `Create`; the hash is the primary key of the table
unfoldable pub create_token :
    (String → String) → String → String → ℕ → ℕ → Entry → Db → Result PairingError Db
unfolding any is_token insert_audit
create_token sha256 raw post_id lifetime now entry db = do
  guard (not (ltb lifetime minute || ltb max_lifetime lifetime)) invalid_lifetime
  guard (any (λ p. p.id == post_id && not p.archived) db.posts) post_unavailable
  guard (not (any (is_token (sha256 raw)) db.local.collector_pairing_tokens)) storage_failed
  let row : PairingToken = record {
    token_hash = sha256 raw;
    post_id = post_id;
    expires_at = now + lifetime;
    used_at = none;
  }
  guard (knows_actor entry db) storage_failed
  ok (
      insert_audit (record entry { object_type = "post"; object_id = post_id })
        (record db {
          local = record db.local {
            collector_pairing_tokens = row ∷ db.local.collector_pairing_tokens;
          };
        }))

unfoldable pub is_usable : ℕ → PairingToken → Bool
is_usable now t = elim t.used_at [ none ↦ ltb now t.expires_at | some u ↦ false ]

-- `DELETE FROM observations WHERE collector_id=?`
unfoldable pub drop_observations : String → Db → Db
unfolding remove
drop_observations id db = record db {
  local = record db.local {
    observations = remove (λ o. o.collector_id == id) db.local.observations;
  };
}

-- `ON CONFLICT(id) DO UPDATE SET …`: the columns that it does not name stay
unfoldable pub re_key : String → CollectorKey → CollectorKey
re_key secret_hash k = record k {
  secret_hash = secret_hash;
  revoked_at = none;
  last_sequence = 0;
  last_seen_at = none;
  last_observed_at = none;
  last_sent_at = none;
  last_error = "";
  last_rejected_at = none;
  rejected_count = 0;
  partial = false;
}

-- an upsert that is refused where the key belongs to another post
unfoldable pub upsert_key : String → String → String → Db → Result PairingError Db
unfolding find_key update_key re_key new_key any
upsert_key id post_id secret_hash db = elim (find_key id db) [
  | none ↦ ok (record db {
    local = record db.local {
      collector_keys = new_key id post_id secret_hash ∷ db.local.collector_keys;
    };
  })
  | some k ↦
      if k.post_id == post_id then ok (update_key id (re_key secret_hash) db) else err other_post
]

-- `UPDATE … SET used_at=? WHERE token_hash=? AND used_at IS NULL`
unfoldable pub is_unused_token : String → PairingToken → Bool
unfolding is_token
is_unused_token hash t = is_token hash t && elim t.used_at [ none ↦ true | some u ↦ false ]

unfoldable pub use_token : ℕ → PairingToken → PairingToken
use_token now t = record t { used_at = some now }

unfoldable pub mark_used : String → ℕ → Db → Result PairingError Db
unfolding is_unused_token use_token update_where count
mark_used hash now db = do
  let tokens = db.local.collector_pairing_tokens
  guard (eqb (count (is_unused_token hash) tokens) 1) token_already_used
  ok (record db {
    local = record db.local {
      collector_pairing_tokens = update_where (is_unused_token hash) (use_token now) tokens;
    };
  })

pub record Enrollment : Type 0 where
  pub version : ℕ
  pub post_id : String
  pub collector_id : String
  pub secret : String

-- `Consume`
unfoldable pub consume :
    (String → String) → String → String → String → ℕ → Db → Result PairingError (Db × Enrollment)
unfolding find_token is_usable drop_observations upsert_key mark_used
consume sha256 token collector_id secret now db = do
  guard (not (token == "" || collector_id == "")) invalid_request
  t ← require (find_token (sha256 token) db) token_invalid
  guard (is_usable now t) token_expired_or_used
  keyed ← upsert_key collector_id t.post_id (sha256 secret) (drop_observations collector_id db)
  used ← mark_used (sha256 token) now keyed
  ok (
    used,
    record { version = 1; post_id = t.post_id; collector_id = collector_id; secret = secret },
  )
