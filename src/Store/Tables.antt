-- ===== src/Store/Tables.antt =====
-- The database: the replicated tables, the adapter's metadata and the node-local tables.
use watchpost.Base.{ℕ, Option, none, List, []}
use watchpost.Store.Rows.{
  Post, Dependency, Rule, Alert, CollectorKey, Observation, PairingToken, PostRef, Child, AlertRef,
  AuditRow,
}
use watchpost.Store.Agents.{PairingRequest, AgentConnection}

-- a value of _replicated_meta as `Sscanf("%d")` reads it
pub data MetaValue : Type 0 where
  number : ℕ → MetaValue
  malformed : MetaValue

pub record Meta : Type 0 where
  pub applied_index : Option MetaValue
  pub applied_term : Option MetaValue
  pub graph_revision : Option MetaValue

-- `users` has the keys of that table
pub record Local : Type 0 where
  pub users : List ℕ
  pub alerts : List Alert
  pub notification_deliveries : List AlertRef
  pub incident_alerts : List AlertRef
  pub observations : List Observation
  pub conversations : List PostRef
  pub conversation_messages : List Child
  pub action_requests : List PostRef
  pub device_profiles : List PostRef
  pub device_profile_oids : List Child
  pub collector_pairing_tokens : List PairingToken
  pub collector_keys : List CollectorKey
  pub logs : List PostRef
  pub changes : List PostRef
  -- tables whose foreign key cascades
  pub agent_pairing_requests : List PairingRequest
  pub agent_connections : List AgentConnection
  pub check_schedules : List PostRef
  pub audit : List AuditRow

pub record Db : Type 0 where
  pub posts : List Post
  pub post_dependencies : List Dependency
  pub rules : List Rule
  pub meta : Meta
  pub local : Local

abbrev pub empty_meta : Meta
empty_meta = record { applied_index = none; applied_term = none; graph_revision = none }

abbrev pub empty_local : Local
empty_local = record {
  users = [];
  alerts = [];
  notification_deliveries = [];
  incident_alerts = [];
  observations = [];
  conversations = [];
  conversation_messages = [];
  action_requests = [];
  device_profiles = [];
  device_profile_oids = [];
  collector_pairing_tokens = [];
  collector_keys = [];
  logs = [];
  changes = [];
  agent_pairing_requests = [];
  agent_connections = [];
  check_schedules = [];
  audit = [];
}

abbrev pub empty_db : Db
empty_db = record {
  posts = [];
  post_dependencies = [];
  rules = [];
  meta = empty_meta;
  local = empty_local;
}
