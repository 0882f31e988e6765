-- ===== src/Store/Rows.antt =====
-- internal/store/store.go: the rows of the tables that the modelled code reads or writes, with the
-- columns that it uses. A time is a number of nanoseconds. Of a table whose rows the code only
-- deletes with their post the model keeps the row's identity and its references.
use watchpost.Base.{ℕ, String, Bool, Option}
use watchpost.Base.Int.{ℤ}

pub record Post : Type 0 where
  pub id : String
  pub name : String
  pub kind : String
  pub address : String
  pub owner : String
  pub labels : String
  pub maintenance : Bool
  pub archived : Bool
  pub version : ℕ
  pub created_at : String
  pub updated_at : String

pub record Dependency : Type 0 where
  pub post_id : String
  pub depends_on_id : String

pub record Rule : Type 0 where
  pub id : String
  pub post_id : String
  pub signal : String
  pub operator : String
  pub threshold : ℤ
  pub duration_seconds : ℕ
  pub recovery_threshold : Option ℤ
  pub missing_policy : String
  pub severity : String
  pub enabled : Bool
  pub version : ℕ

pub data AlertState : Type 0 where
  pending firing acknowledged suppressed resolved : AlertState

pub record Alert : Type 0 where
  pub id : ℕ
  pub rule_id : String
  pub post_id : String
  pub state : AlertState
  pub severity : String
  pub opened_at : ℕ
  pub updated_at : ℕ
  pub acknowledged_at : Option ℕ
  pub resolved_at : Option ℕ
  pub value : Option ℤ

pub record CollectorKey : Type 0 where
  pub id : String
  pub post_id : String
  pub secret_hash : String
  pub revoked_at : Option ℕ
  pub last_sequence : ℕ
  pub last_seen_at : Option ℕ
  pub last_observed_at : Option ℕ
  pub last_sent_at : Option ℕ
  pub last_error : String
  pub last_rejected_at : Option ℕ
  pub rejected_count : ℕ
  pub partial : Bool
  pub pending_secret_hash : Option String
  pub pending_expires_at : Option ℕ
  pub last_batch_id : Option String

pub record Observation : Type 0 where
  pub post_id : String
  pub collector_id : String
  pub observed_at : ℕ
  pub ingested_at : ℕ
  pub sequence : ℕ
  pub signal : String
  pub value : Option ℤ
  pub unit : String
  pub quality : String

pub record PairingToken : Type 0 where
  pub token_hash : String
  pub post_id : String
  pub expires_at : ℕ
  pub used_at : Option ℕ

-- a row that refers to a post, or to none where the column is NULL
pub record PostRef : Type 0 where
  pub id : String
  pub post_id : Option String

-- a row that refers to a row of another table
pub record Child : Type 0 where
  pub id : String
  pub parent : String

-- a row that refers to an alert
pub record AlertRef : Type 0 where
  pub id : String
  pub alert_id : ℕ

pub record AuditRow : Type 0 where
  pub actor_user_id : Option ℕ
  pub action : String
  pub object_type : String
  pub object_id : String
  pub detail : String
