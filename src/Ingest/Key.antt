-- ===== src/Ingest/Key.antt =====
-- internal/ingest/ingest.go: the key of a collector and its replacement credential. The hashes are
-- those of SHA-256, as texts.
use Prim.Native.String.{len}
use watchpost.Base.{
  ℕ, String, Bool, true, false, not, ◌&&◌, ◌||◌, Option, none, some, ◌==◌, eqb, ltb, find,
  update_where, Result, ok, ◌>>=◌, ◌>>◌, guard, require,
}
use watchpost.Store.Rows.{CollectorKey}
use watchpost.Store.Tables.{Db}
use watchpost.Ingest.Types.{IngestError, authentication_failed}

abbrev pub sha256_size : ℕ
sha256_size = 32

pub record KeyInfo : Type 0 where
  pub post : String
  pub last : ℕ
  pub revoked : Bool
  pub active : Bool
  pub pending : Bool
  pub last_batch : String

abbrev pub is_some {ℓ} : {A : Type ℓ} → Option A → Bool
is_some none = false
is_some (some a) = true

abbrev pub text_or_empty : Option String → String
text_or_empty none = ""
text_or_empty (some t) = t

-- an unexpired replacement credential that is the one presented
unfoldable pub pending_matches : CollectorKey → String → ℕ → Bool
pending_matches k presented now = elim k.pending_secret_hash [
  | none ↦ false
  | some h ↦
      eqb (len h) sha256_size
      && h == presented
      && elim k.pending_expires_at [ none ↦ true | some t ↦ ltb now t ]
]

unfoldable pub key_info : CollectorKey → String → ℕ → KeyInfo
unfolding pending_matches
key_info k presented now = record {
  post = k.post_id;
  last = k.last_sequence;
  revoked = is_some k.revoked_at;
  active = k.secret_hash == presented;
  pending = pending_matches k presented now;
  last_batch = text_or_empty k.last_batch_id;
}

unfoldable pub is_key : String → CollectorKey → Bool
is_key id k = k.id == id

-- a new row of collector_keys: the columns that the statement does not name have their defaults
unfoldable pub new_key : String → String → String → CollectorKey
new_key id post_id secret_hash = record {
  id = id;
  post_id = post_id;
  secret_hash = secret_hash;
  revoked_at = none;
  last_sequence = 0;
  last_seen_at = none;
  last_observed_at = none;
  last_sent_at = none;
  last_error = "";
  last_rejected_at = none;
  rejected_count = 0;
  partial = false;
  pending_secret_hash = none;
  pending_expires_at = none;
  last_batch_id = none;
}

unfoldable pub find_key : String → Db → Option CollectorKey
unfolding is_key find
find_key id db = find (is_key id) db.local.collector_keys

unfoldable pub update_key : String → (CollectorKey → CollectorKey) → Db → Db
unfolding is_key update_where
update_key id f db = record db {
  local = record db.local { collector_keys = update_where (is_key id) f db.local.collector_keys };
}

-- `promotePending`, at a key that has a replacement
unfoldable pub promote : CollectorKey → CollectorKey
promote k = elim k.pending_secret_hash [
  | none ↦ k
  | some h ↦ record k {
    secret_hash = h;
    pending_secret_hash = none;
    pending_expires_at = none;
    last_error = "";
  }
]

unfoldable pub is_accepted_by : KeyInfo → String → Bool
is_accepted_by info post_id =
    not info.revoked && info.post == post_id && (info.active || info.pending)

-- the row is looked up and checked before anything is written
unfoldable pub authorize : String → String → String → ℕ → Db → Result IngestError CollectorKey
unfolding key_info is_accepted_by
authorize id post_id presented now db = do
  k ← require (find_key id db) authentication_failed
  guard (is_accepted_by (key_info k presented now) post_id) authentication_failed
  ok k
