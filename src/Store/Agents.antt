-- ===== src/Store/Agents.antt =====
-- internal/store/store.go: the tables that pair agents, agent_pairing_requests and
-- agent_connections. A time is in nanoseconds.
use watchpost.Base.{ℕ, String, Option}

-- `CHECK(state IN ('pending','approved','rejected','consumed'))`
pub data RequestState : Type 0 where
  pending approved rejected consumed : RequestState

pub record PairingRequest : Type 0 where
  pub id : String
  pub request_secret_hash : String
  pub installation_id : String
  pub hostname : String
  pub platform : String
  pub agent_version : String
  pub phrase : String
  pub state : RequestState
  pub post_id : Option String
  pub expires_at : ℕ
  pub created_at : ℕ
  pub approved_at : Option ℕ
  pub terminal_at : Option ℕ

pub record AgentConnection : Type 0 where
  pub installation_id : String
  pub post_id : String
  pub hostname : String
  pub platform : String
  pub agent_version : String
  pub created_at : ℕ
  pub revoked_at : Option ℕ
