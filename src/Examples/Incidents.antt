-- ===== src/Examples/Incidents.antt =====
-- An incident that is opened and resolved.
use watchpost.Base.{ℕ, String, ◌≡◌, refl, none, some, List, [], ◌∷◌, ◌++◌, ok, length}
use watchpost.Store.Rows.{AuditRow}
use watchpost.Store.Tables.{empty_db}
use watchpost.Store.Audit.{Entry}
use watchpost.Incidents.{Incident, TimelineEntry, Tables, create, transition}
use watchpost.Incidents.Steps.{created, transitioned, Steps, done, then}
use watchpost.Incidents.Settled.{IsKept, steps-IsKept}
use watchpost.Incidents.Timeline.{steps_append}

abbrev shown : ℕ → String
shown n = "1"

abbrev audit_entry : Entry
audit_entry = record {
  actor_id = 0;
  action = "incident";
  object_type = "";
  object_id = "";
  detail = "";
}

abbrev nothing : Tables
nothing = record { incidents = []; timeline = []; db = empty_db }

abbrev row : Incident
row = record {
  id = 1;
  title = "disk";
  severity = "warning";
  status = "open";
  owner = "";
  summary = "";
  created_at = 5;
  updated_at = 5;
  resolved_at = none;
}

abbrev note_of : ℕ → ℕ → String → String → TimelineEntry
note_of id at kind body = record {
  id = id;
  incident_id = 1;
  at = at;
  kind = kind;
  actor = "ann";
  body = body;
}

abbrev audit_row : AuditRow
audit_row = record {
  actor_user_id = none;
  action = "incident";
  object_type = "incident";
  object_id = "1";
  detail = "";
}

abbrev open_tables : Tables
open_tables = record {
  incidents = row ∷ [];
  timeline = note_of 1 5 "created" "disk" ∷ [];
  db = record empty_db { local = record empty_db.local { audit = audit_row ∷ [] } };
}

abbrev closed_tables : Tables
closed_tables = record {
  incidents =
      record row { status = "resolved"; summary = "swapped"; updated_at = 9; resolved_at = some 9 }
      ∷ [];
  timeline = note_of 2 9 "status" "resolved: swapped" ∷ note_of 1 5 "created" "disk" ∷ [];
  db = record empty_db { local = record empty_db.local { audit = audit_row ∷ audit_row ∷ [] } };
}

opening : create shown "disk" "warning" "ann" [] 5 audit_entry nothing ≡ ok (open_tables, row)
unfolding create watchpost.Store.Audit.knows_actor
opening = refl

closing : transition shown 1 "resolved" "ann" "swapped" 9 audit_entry open_tables ≡ ok closed_tables
unfolding transition watchpost.Store.Audit.knows_actor
closing = refl

abbrev both_steps : Steps shown nothing closed_tables
both_steps =
    then (then done (created "disk" "warning" "ann" [] 5 audit_entry row opening))
      (transitioned 1 "resolved" "ann" "swapped" 9 audit_entry closing)

steps-IsKept_example : IsKept closed_tables
steps-IsKept_example =
    steps-IsKept shown nothing closed_tables both_steps (record { settled = tt; owned = tt })

steps_append_example :
    (new : List TimelineEntry) × (closed_tables.timeline ≡ new ++ []) × (length new ≡ 2)
steps_append_example = steps_append shown nothing closed_tables both_steps
