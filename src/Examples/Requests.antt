-- ===== src/Examples/Requests.antt =====
-- An action that a user requests, another approves, and the node executes.
use watchpost.Base.{ℕ, String, ◌≡◌, refl, true, none, some, List, [], ◌∷◌, ok, err, All}
use watchpost.Store.Rows.{AuditRow}
use watchpost.Store.Tables.{empty_db}
use watchpost.Store.Audit.{Entry}
use watchpost.Actions.{
  Definition, Registry, pending, approved, executing, completed, Request, Tables, request, approve,
  claim, finish, not_approved,
}
use watchpost.Actions.Steps.{Steps, done, then, requested, granted, finished}
use watchpost.Actions.Authorized.{IsAuthorized, steps-IsAuthorized, claimed_once}

abbrev shown : ℕ → String
shown n = "1"

abbrev error_text : String → String
error_text e = e

abbrev restart : Definition
restart = record {
  needs_approval = true;
  validate = some (λ p. true);
  execute = some (λ post p. ok "done");
}

abbrev registry : Registry
registry = ("restart", restart) ∷ []

abbrev entry : Entry
entry = record { actor_id = 1; action = "action"; object_type = ""; object_id = ""; detail = "" }

abbrev audit_row : ℕ → AuditRow
audit_row actor = record {
  actor_user_id = some actor;
  action = "action";
  object_type = "action";
  object_id = "1";
  detail = "";
}

abbrev waiting : Request
waiting = record {
  id = 1;
  kind = "restart";
  post_id = none;
  parameters = "{}";
  state = pending;
  requested_by = 1;
  approved_by = none;
  requested_at = 5;
  updated_at = 5;
  idempotency_key = "k";
  result = "{}";
}

abbrev allowed : Request
allowed = record waiting { state = approved; approved_by = some 2; updated_at = 6 }

abbrev tables : List Request → List AuditRow → Tables
tables rows audit = record {
  requests = rows;
  users = 1 ∷ 2 ∷ [];
  db = record empty_db { local = record empty_db.local { audit = audit } };
}

abbrev asked : Tables
asked = tables (waiting ∷ []) (audit_row 1 ∷ [])

abbrev ready : Tables
ready = tables (allowed ∷ []) (audit_row 2 ∷ audit_row 1 ∷ [])

abbrev running : Tables
running =
    tables (record allowed { state = executing; updated_at = 7 } ∷ [])
      (audit_row 2 ∷ audit_row 1 ∷ [])

abbrev over : Tables
over =
    tables (record allowed { state = completed; updated_at = 8; result = "done" } ∷ [])
      (audit_row 1 ∷ audit_row 2 ∷ audit_row 1 ∷ [])

asking :
    request shown error_text registry "restart" "" "{}" 1 "k" 5 entry (tables [] []) ≡ ok (asked, 1)
unfolding request
asking = refl

granting : approve shown error_text 1 2 6 entry asked ≡ ok ready
unfolding approve watchpost.Base.any
granting = refl

claiming : claim shown error_text 1 7 ready ≡ ok (running, allowed)
unfolding claim
claiming = refl

finishing : finish shown error_text 1 (ok "done") 8 entry running ≡ over
unfolding finish
finishing = refl

abbrev to_ready : Steps shown error_text registry (tables [] []) registry ready
to_ready =
    then (then done (requested "restart" "" "{}" 1 "k" 5 entry 1 asking refl))
      (granted 1 2 6 entry granting refl)

steps-IsAuthorized_example : All (IsAuthorized registry) (allowed ∷ [])
steps-IsAuthorized_example =
    steps-IsAuthorized shown error_text registry (tables [] []) registry ready to_ready tt

abbrev to_over : Steps shown error_text registry running registry over
to_over = then done (finished 1 (ok "done") 8 entry finishing refl)

claimed_once_example : claim shown error_text 1 9 over ≡ err not_approved
claimed_once_example =
    claimed_once shown error_text 1 7 9 registry ready running allowed registry over claiming
      to_over
