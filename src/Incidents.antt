-- ===== src/Incidents.antt =====
-- internal/incidents/incidents.go: incidents and their timeline. A time is in nanoseconds; the
-- newest row stands first, and an id, an INTEGER PRIMARY KEY, is above those of the table. What
-- `fmt.Sprint` prints for an id is the parameter `shown`.
pub mod Steps
pub mod Settled
pub mod Timeline
use Prim.Native.String.{len, ◌++◌}
use watchpost.Base.{
  ℕ, suc, String, Bool, true, false, not, ◌&&◌, ◌||◌, Option, none, some, List, [], ◌∷◌, ◌==◌, eqb,
  ltb, leb, if◌then◌else◌, any, find, count, update_where, Result, ok, err, ◌>>=◌, ◌>>◌, guard,
  require,
}
use watchpost.Store.Rows.{AlertRef}
use watchpost.Store.Tables.{Db}
use watchpost.Store.Audit.{Entry, knows_actor, insert_audit}

pub record Incident : Type 0 where
  pub id : ℕ
  pub title : String
  pub severity : String
  pub status : String
  pub owner : String
  pub summary : String
  pub created_at : ℕ
  pub updated_at : ℕ
  pub resolved_at : Option ℕ

pub record TimelineEntry : Type 0 where
  pub id : ℕ
  pub incident_id : ℕ
  pub at : ℕ
  pub kind : String
  pub actor : String
  pub body : String

-- the two tables of the component, and the rest of the database
pub record Tables : Type 0 where
  pub incidents : List Incident
  pub timeline : List TimelineEntry
  pub db : Db

pub data IncidentError : Type 0 where
  invalid_incident invalid_status invalid_note invalid_owner : IncidentError
  not_found constraint_failed invalid_limit : IncidentError

unfoldable pub is_severity : String → Bool
is_severity s = s == "info" || s == "warning" || s == "critical"

unfoldable pub is_status : String → Bool
is_status s = s == "open" || s == "investigating" || s == "mitigated" || s == "resolved"

unfoldable pub next_incident : List Incident → ℕ
next_incident [] = 1
next_incident (i ∷ rest) = let n = next_incident rest in if leb n i.id then suc i.id else n

unfoldable pub next_entry : List TimelineEntry → ℕ
next_entry [] = 1
next_entry (e ∷ rest) = let n = next_entry rest in if leb n e.id then suc e.id else n

unfoldable pub is_incident : ℕ → Incident → Bool
is_incident id i = eqb i.id id

-- `INSERT INTO incident_timeline`: the incident must be there
unfoldable pub add_entry : ℕ → ℕ → String → String → String → Tables → Result IncidentError Tables
unfolding next_entry is_incident any
add_entry incident at kind actor body t = do
  guard (any (is_incident incident) t.incidents) constraint_failed
  ok (record t {
    timeline =
        record {
          id = next_entry t.timeline;
          incident_id = incident;
          at = at;
          kind = kind;
          actor = actor;
          body = body;
        }
        ∷ t.timeline;
  })

-- `INSERT INTO incident_alerts`: primary key and foreign key
unfoldable pub link_alerts : String → List ℕ → Db → Result IncidentError Db
unfolding any
link_alerts incident [] db = ok db
link_alerts incident (alert ∷ alerts) db = do
  guard
      (not
        (any (λ (x : AlertRef). x.id == incident && eqb x.alert_id alert) db.local.incident_alerts))
      constraint_failed
  guard (any (λ a. eqb a.id alert) db.local.alerts) constraint_failed
  let row : AlertRef = record { id = incident; alert_id = alert }
  link_alerts incident alerts
      (record db { local = record db.local { incident_alerts = row ∷ db.local.incident_alerts } })

unfoldable pub audited : Entry → String → Tables → Tables
unfolding insert_audit
audited entry incident t = record t {
  db = insert_audit (record entry { object_type = "incident"; object_id = incident }) t.db;
}

unfoldable pub get : ℕ → Tables → Result IncidentError Incident
unfolding find is_incident
get id t = require (find (is_incident id) t.incidents) not_found

unfoldable pub opened : ℕ → String → String → ℕ → Incident
opened id title severity now = record {
  id = id;
  title = title;
  severity = severity;
  status = "open";
  owner = "";
  summary = "";
  created_at = now;
  updated_at = now;
  resolved_at = none;
}

-- `nullable(status == "resolved", now)`
unfoldable pub moved : String → String → ℕ → Incident → Incident
moved status summary now i = record i {
  status = status;
  summary = summary;
  updated_at = now;
  resolved_at = if status == "resolved" then some now else none;
}

unfoldable pub assigned : String → ℕ → Incident → Incident
assigned owner now i = record i { owner = owner; updated_at = now }

-- `UPDATE incidents SET … WHERE id=?`, of one row
unfoldable pub change : ℕ → (Incident → Incident) → Tables → Result IncidentError Tables
unfolding is_incident update_where count
change id f t = do
  guard (eqb (count (is_incident id) t.incidents) 1) not_found
  ok (record t { incidents = update_where (is_incident id) f t.incidents })

module _ (shown : ℕ → String) where
  unfoldable pub create :
      String
      → String
      → String
      → List ℕ
      → ℕ
      → Entry
      → Tables
      → Result IncidentError (Tables × Incident)
  unfolding is_severity next_incident opened link_alerts add_entry audited
  create title severity actor alerts now entry t = do
    guard (not (title == "") && is_severity severity) invalid_incident
    let id = next_incident t.incidents
    let row = opened id title severity now
    db ← link_alerts (shown id) alerts t.db
    done ←
        add_entry id now "created" actor title (record t { incidents = row ∷ t.incidents; db = db })
    guard (knows_actor entry t.db) constraint_failed
    ok (audited entry (shown id) done, row)

  unfoldable pub transition :
      ℕ → String → String → String → ℕ → Entry → Tables → Result IncidentError Tables
  unfolding is_status change moved add_entry audited
  transition id status actor summary now entry t = do
    guard (is_status status) invalid_status
    changed ← change id (moved status summary now) t
    done ← add_entry id now "status" actor (status ++ ": " ++ summary) changed
    guard (knows_actor entry t.db) constraint_failed
    ok (audited entry (shown id) done)

  unfoldable pub add_note : ℕ → String → String → ℕ → Entry → Tables → Result IncidentError Tables
  unfolding add_entry audited
  add_note id actor body now entry t = do
    guard (not (body == "" || ltb 10000 (len body))) invalid_note
    done ← add_entry id now "note" actor body t
    guard (knows_actor entry t.db) constraint_failed
    ok (audited entry (shown id) done)

  unfoldable pub assign : ℕ → String → String → ℕ → Entry → Tables → Result IncidentError Tables
  unfolding change assigned add_entry audited
  assign id owner actor now entry t = do
    guard (not (owner == "" || ltb 254 (len owner))) invalid_owner
    changed ← change id (assigned owner now) t
    done ← add_entry id now "assignment" actor owner changed
    guard (knows_actor entry t.db) constraint_failed
    ok (audited entry (shown id) done)
