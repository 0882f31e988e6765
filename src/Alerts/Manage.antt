-- ===== src/Alerts/Manage.antt =====
-- internal/rules/rules.go: the rules and the list of alerts.
use watchpost.Base.{
  ℕ, ◌+◌, String, Bool, not, ◌&&◌, ◌||◌, Option, none, some, List, ◌==◌, eqb, ltb, if◌then◌else◌,
  count, take, update_where, Result, ok, err, ◌>>=◌, ◌>>◌, guard,
}
use watchpost.Store.Rows.{Rule, Alert}
use watchpost.Store.Tables.{Db}
use watchpost.Store.Audit.{Entry, knows_actor, insert_audit}
use watchpost.Replicated.Apply.{insert_rule}
use watchpost.Alerts.Decide.{AlertError, invalid_rule, rule_not_found, storage_failed}

-- what the mutation authority answers: done, refused, or that the node is standalone
pub data Authority : Type 0 where
  accepted refused standalone : Authority

-- the checks of `Create` on a rule; a negative duration cannot be written here
unfoldable pub is_valid_rule : Rule → Bool
is_valid_rule r =
    not (r.id == "" || r.post_id == "" || r.signal == "")
    && (r.operator == "gt" || r.operator == "gte" || r.operator == "lt" || r.operator == "lte")
    && (r.missing_policy == "unknown"
        || r.missing_policy == "healthy"
        || r.missing_policy == "firing")

unfoldable pub insert_new_rule : Rule → Db → Result AlertError Db
unfolding insert_rule
insert_new_rule r db = elim (insert_rule (record r { version = 1 }) db) [
  | err e ↦ err storage_failed
  | ok db' ↦ ok db'
]

unfoldable pub create_local : Rule → Entry → Db → Result AlertError Db
unfolding insert_new_rule insert_audit
create_local r entry db = do
  db' ← insert_new_rule r db
  guard (knows_actor entry db) storage_failed
  ok (insert_audit (record entry { object_type = "rule"; object_id = r.id }) db')

unfoldable pub create : Option Authority → Rule → Entry → Db → Result AlertError Db
unfolding is_valid_rule
create authority r entry db = do
  guard (is_valid_rule r) invalid_rule
  elim authority [
    | none ↦ create_local r entry db
    | some a ↦ elim a [
      | accepted ↦ ok db
      | refused ↦ err storage_failed
      | standalone ↦ create_local r entry db
    ]
  ]

unfoldable pub enable_row : Bool → Rule → Rule
enable_row enabled r = record r { enabled = enabled; version = r.version + 1 }

unfoldable pub set_enabled_local : String → Bool → Entry → Db → Result AlertError Db
unfolding enable_row insert_audit
set_enabled_local id enabled entry db = do
  let hit = λ (r : Rule). r.id == id
  guard (eqb (count hit db.rules) 1) rule_not_found
  guard (knows_actor entry db) storage_failed
  ok (
      insert_audit (record entry { object_type = "rule"; object_id = id })
        (record db { rules = update_where hit (enable_row enabled) db.rules }))

unfoldable pub set_enabled : Option Authority → String → Bool → Entry → Db → Result AlertError Db
unfolding set_enabled_local
set_enabled none id enabled entry db = set_enabled_local id enabled entry db
set_enabled (some accepted) id enabled entry db = ok db
set_enabled (some refused) id enabled entry db = err storage_failed
set_enabled (some standalone) id enabled entry db = set_enabled_local id enabled entry db

unfoldable pub list_alerts : ℕ → Db → Option (List Alert)
list_alerts limit db =
    if ltb limit 1 || ltb 1000 limit then none else some (take limit db.local.alerts)
