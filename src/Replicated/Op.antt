-- ===== src/Replicated/Op.antt =====
-- internal/replicated/fsm.go: operations, their payloads and results, and what can go wrong. The
-- operation type, its codec, its digest and its version belong to gantry-core, which is not part
-- of this repository: `Core` stands for them.
use watchpost.Base.{ℕ, String, Bool, false, Option, none, some, Result, ok, err}
use watchpost.Base.Int.{ℤ, pos}

pub data Kind : Type 0 where
  post_create post_update post_delete dependency_add rule_create rule_set_enable : Kind
  other : String → Kind

pub record PostPayload : Type 0 where
  pub name : String
  pub kind : String
  pub address : String
  pub owner : String
  pub labels_json : String
  pub maintenance : Bool
  pub archived : Bool
  pub created_at : String
  pub updated_at : String

pub record DepPayload : Type 0 where
  pub depends_on : String

pub record RulePayload : Type 0 where
  pub post_id : String
  pub signal : String
  pub operator : String
  pub threshold : ℤ
  pub duration_seconds : ℕ
  pub recovery_threshold : Option ℤ
  pub missing_policy : String
  pub severity : String
  pub enabled : Bool

-- The JSON text of a payload: that of one of the three structs, `null` (a nil payload), no bytes at
-- all, or bytes that are no such JSON.
pub data Payload : Type 0 where
  post : PostPayload → Payload
  dependency : DepPayload → Payload
  rule : RulePayload → Payload
  null empty malformed : Payload

abbrev zero_post : PostPayload
zero_post = record {
  name = "";
  kind = "";
  address = "";
  owner = "";
  labels_json = "";
  maintenance = false;
  archived = false;
  created_at = "";
  updated_at = "";
}

abbrev pub zero_rule : RulePayload
zero_rule = record {
  post_id = "";
  signal = "";
  operator = "";
  threshold = pos 0;
  duration_seconds = 0;
  recovery_threshold = none;
  missing_policy = "";
  severity = "";
  enabled = false;
}

-- `json.Unmarshal` into each struct. The structs share no key, so the text of another struct, like
-- `null`, leaves every field zero and is no error.
unfoldable pub decode_post : Payload → Option PostPayload
decode_post (post p) = some p
decode_post empty = none
decode_post malformed = none
decode_post _ = some zero_post

unfoldable pub decode_dependency : Payload → Option DepPayload
decode_dependency (dependency p) = some p
decode_dependency empty = none
decode_dependency malformed = none
decode_dependency _ = some (record { depends_on = "" })

unfoldable pub decode_rule : Payload → Option RulePayload
decode_rule (rule p) = some p
decode_rule empty = none
decode_rule malformed = none
decode_rule _ = some zero_rule

pub record Operation : Type 0 where
  pub id : String
  pub product : String
  pub version : ℕ
  pub kind : Kind
  pub object_kind : String
  pub object_id : String
  pub revision : ℕ
  pub domain_revision : ℕ
  pub payload : Payload
  pub origin_node : String

pub record ApplyResult : Type 0 where
  pub index : ℕ
  pub term : ℕ
  pub op_id : String
  pub object_id : String
  pub kind : Kind
  pub version : ℕ
  pub revision : ℕ

-- the reasons of `invariantf`
pub data Invariant : Type 0 where
  duplicate_post stale_post stale_graph missing_post empty_source self_dependency : Invariant
  missing_endpoints duplicate_dependency dependency_cycle insert_failed invalid_rule stale_rule :
      Invariant

pub data Failure : Type 0 where
  corrupt_entry unsupported_version unsupported_kind no_digest conflicting_retry : Failure
  bad_payload storage : Failure
  invariant : Invariant → Failure
  injected : String → Failure

-- gantry-core/replication
pub record Core : Type 0 where
  pub version : ℕ
  pub decode_operation : String → Option Operation
  pub digest : Operation → Option String

-- A transaction's answers: whether it begins, whether the metadata is written, whether it commits.
pub record Disk : Type 0 where
  pub begin_ok : Bool
  pub meta_ok : Bool
  pub commit_ok : Bool

unfoldable pub validate_kind : Kind → Result Failure (Unit {0})
validate_kind (other k) = err unsupported_kind
validate_kind _ = ok tt
