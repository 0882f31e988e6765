-- ===== src/Store/Audit.antt =====
-- internal/audit/audit.go: the audit row that a mutation writes in its own transaction. The newest
-- row stands first.
use Prim.Native.String.{len, slice}
use watchpost.Base.{Bool, ◌||◌, any, ℕ, String, none, some, ◌∷◌, ltb, eqb, if◌then◌else◌}
use watchpost.Store.Tables.{Db}

pub record Entry : Type 0 where
  pub actor_id : ℕ
  pub action : String
  pub object_type : String
  pub object_id : String
  pub detail : String

abbrev pub max_detail : ℕ
max_detail = 400

-- `actor_user_id INTEGER REFERENCES users(id)`: the actor is nobody, or a user
unfoldable pub knows_actor : Entry → Db → Bool
unfolding any
knows_actor entry db = eqb entry.actor_id 0 || any (eqb entry.actor_id) db.local.users

-- the row, where the foreign key allows it: an operation asks `knows_actor` before
unfoldable pub insert_audit : Entry → Db → Db
insert_audit entry db = record db {
  local = record db.local {
    audit =
        record {
          actor_user_id = if eqb entry.actor_id 0 then none else some entry.actor_id;
          action = entry.action;
          object_type = entry.object_type;
          object_id = entry.object_id;
          detail =
              if ltb max_detail (len entry.detail)
              then slice entry.detail 0 max_detail
              else entry.detail;
        }
        ∷ db.local.audit;
  };
}
