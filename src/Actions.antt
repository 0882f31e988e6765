-- ===== src/Actions.antt =====
-- internal/actions/actions.go: actions that users request, approve and execute. A time is in
-- nanoseconds; parameters and results are their JSON texts, and the newest row stands first.
pub mod Steps
pub mod Changed
pub mod Authorized
use watchpost.Base.{
  ℕ, suc, String, Bool, true, false, not, ◌&&◌, ◌||◌, Option, none, some, List, [], ◌∷◌, ◌==◌, eqb,
  ltb, leb, if◌then◌else◌, any, count, find, take, update_where, Result, ok, err, ◌>>=◌, ◌>>◌,
  guard, require,
}
use watchpost.Base.Assoc.{Assoc, lookup, insert}
use watchpost.Store.Tables.{Db}
use watchpost.Store.Audit.{Entry, insert_audit}
use watchpost.Replicated.Apply.{has_post}
use watchpost.Ingest.Key.{is_some, text_or_empty}

-- `Definition`; `execute` answers with the text of a result or of an error
pub record Definition : Type 0 where
  pub needs_approval : Bool
  pub validate : Option (String → Bool)
  pub execute : Option (String → String → Result String String)

abbrev pub Registry : Type 0
Registry = Assoc Definition

pub data ActionState : Type 0 where
  pending approved executing completed failed : ActionState

pub record Request : Type 0 where
  pub id : ℕ
  pub kind : String
  pub post_id : Option String
  pub parameters : String
  pub state : ActionState
  pub requested_by : ℕ
  pub approved_by : Option ℕ
  pub requested_at : ℕ
  pub updated_at : ℕ
  pub idempotency_key : String
  pub result : String

-- the table of the component, the ids of the users, and the rest of the database
pub record Tables : Type 0 where
  pub requests : List Request
  pub users : List ℕ
  pub db : Db

pub data ActionError : Type 0 where
  invalid_definition duplicate_action unknown_action invalid_parameters : ActionError
  constraint_failed not_approvable no_rows not_approved already_claimed unavailable : ActionError
  invalid_limit : ActionError
  execution_failed : String → ActionError

-- `Register`
unfoldable pub register : String → Definition → Registry → Result ActionError Registry
unfolding lookup insert
register kind d r = do
  guard (not (kind == "") && is_some d.validate && is_some d.execute) invalid_definition
  guard (not (is_some (lookup kind r))) duplicate_action
  ok (insert kind d r)

unfoldable pub next_request : List Request → ℕ
next_request [] = 1
next_request (x ∷ rest) = let n = next_request rest in if leb n x.id then suc x.id else n

abbrev pub nullable : String → Option String
nullable v = if v == "" then none else some v

unfoldable pub audited : Entry → ℕ → String → Tables → Tables
unfolding insert_audit
audited entry actor id t = record t {
  db =
      insert_audit (record entry { actor_id = actor; object_type = "action"; object_id = id }) t.db;
}

-- `INSERT INTO action_requests`: the key is unique, and the post and the user must be there
unfoldable pub insert_request : Request → Tables → Result ActionError Tables
unfolding any
insert_request row t = do
  guard (not (any (λ x. x.idempotency_key == row.idempotency_key) t.requests)) constraint_failed
  guard (elim row.post_id [ none ↦ true | some p ↦ has_post t.db.posts p ]) constraint_failed
  guard (any (eqb row.requested_by) t.users) constraint_failed
  ok (record t { requests = row ∷ t.requests })

unfoldable pub is_valid : Definition → String → Bool
is_valid d parameters = elim d.validate [ none ↦ false | some v ↦ v parameters ]

unfoldable pub new_request : Definition → ℕ → String → String → String → ℕ → String → ℕ → Request
new_request d id kind post_id parameters user key now = record {
  id = id;
  kind = kind;
  post_id = nullable post_id;
  parameters = parameters;
  state = if d.needs_approval then pending else approved;
  requested_by = user;
  approved_by = none;
  requested_at = now;
  updated_at = now;
  idempotency_key = key;
  result = "{}";
}

unfoldable pub is_request : ℕ → Request → Bool
is_request id x = eqb x.id id

unfoldable pub is_pending : ActionState → Bool
is_pending pending = true
is_pending approved = false
is_pending executing = false
is_pending completed = false
is_pending failed = false

unfoldable pub is_approved : ActionState → Bool
is_approved pending = false
is_approved approved = true
is_approved executing = false
is_approved completed = false
is_approved failed = false

unfoldable pub is_executing : ActionState → Bool
is_executing pending = false
is_executing approved = false
is_executing executing = true
is_executing completed = false
is_executing failed = false

-- `WHERE id=? AND state='pending' AND requested_by<>?`
unfoldable pub approvable : ℕ → ℕ → Request → Bool
unfolding is_request is_pending
approvable id approver x =
    is_request id x && is_pending x.state && not (eqb x.requested_by approver)

unfoldable pub approve_row : ℕ → ℕ → Request → Request
approve_row approver now x = record x {
  state = approved;
  approved_by = some approver;
  updated_at = now;
}

-- `WHERE id=? AND state='approved'`
unfoldable pub claimable : ℕ → Request → Bool
unfolding is_request is_approved
claimable id x = is_request id x && is_approved x.state

unfoldable pub claim_row : ℕ → Request → Request
claim_row now x = record x { state = executing; updated_at = now }

-- `WHERE id=? AND state='executing'`
unfoldable pub running : ℕ → Request → Bool
unfolding is_request is_executing
running id x = is_request id x && is_executing x.state

unfoldable pub finish_row : ActionState → String → ℕ → Request → Request
finish_row state result now x = record x { state = state; result = result; updated_at = now }

unfoldable pub update_requests : (Request → Bool) → (Request → Request) → Tables → Tables
unfolding update_where
update_requests hit f t = record t { requests = update_where hit f t.requests }

-- `List`: the newest first
unfoldable pub list : ℕ → Tables → Result ActionError (List Request)
list limit t = do
  guard (not (ltb limit 1 || ltb 500 limit)) invalid_limit
  ok (take limit t.requests)

module _ (shown : ℕ → String) (error_text : String → String) where
  -- `Request`
  unfoldable pub request :
      Registry
      → String
      → String
      → String
      → ℕ
      → String
      → ℕ
      → Entry
      → Tables
      → Result ActionError (Tables × ℕ)
  unfolding lookup is_valid next_request new_request insert_request audited
  request r kind post_id parameters user key now entry t = do
    d ← require (lookup kind r) unknown_action
    guard (not (key == "")) unknown_action
    guard (is_valid d parameters) invalid_parameters
    let id = next_request t.requests
    added ← insert_request (new_request d id kind post_id parameters user key now) t
    ok (audited entry user (shown id) added, id)

  -- `Approve`
  unfoldable pub approve : ℕ → ℕ → ℕ → Entry → Tables → Result ActionError Tables
  unfolding count approvable approve_row update_requests audited
  approve id approver now entry t = do
    guard (eqb (count (approvable id approver) t.requests) 1) not_approvable
    guard (any (eqb approver) t.users) constraint_failed
    ok (
        audited entry approver (shown id)
          (update_requests (approvable id approver) (approve_row approver now) t))

  -- the first statements of `Execute`: the claim, which is committed before the action runs
  unfoldable pub claim : ℕ → ℕ → Tables → Result ActionError (Tables × Request)
  unfolding find is_request is_approved count claimable claim_row update_requests
  claim id now t = do
    x ← require (find (is_request id) t.requests) no_rows
    guard (is_approved x.state) not_approved
    guard (eqb (count (claimable id) t.requests) 1) already_claimed
    ok (update_requests (claimable id) (claim_row now) t, x)

  -- the transaction that ends `Execute`, with the answer of the action
  unfoldable pub finish : ℕ → Result String String → ℕ → Entry → Tables → Tables
  unfolding running finish_row update_requests audited
  finish id (ok result) now entry t =
      audited entry entry.actor_id (shown id)
        (update_requests (running id) (finish_row completed result now) t)
  finish id (err e) now entry t =
      audited entry entry.actor_id (shown id)
        (update_requests (running id) (finish_row failed (error_text e) now) t)

  -- the action of a claimed request, where its definition is there
  unfoldable pub run_action : Registry → Request → Option (Result String String)
  unfolding lookup
  run_action r x = elim (lookup x.kind r) [
    | none ↦ none
    | some d ↦ elim d.execute [
      | none ↦ none
      | some f ↦ some (f (text_or_empty x.post_id) x.parameters)
    ]
  ]

  -- what `Execute` leaves and answers, when nothing else happens between its two transactions
  unfoldable pub execute :
      Registry → ℕ → ℕ → ℕ → Entry → Tables → Tables × Result ActionError String
  unfolding claim finish run_action
  execute r id now later entry t = elim (claim id now t) [
    | err e ↦ (t, err e)
    | ok (claimed, x) ↦ elim (run_action r x) [
      | none ↦ (claimed, err unavailable)
      | some (ok result) ↦ (finish id (ok result) later entry claimed, ok result)
      | some (err e) ↦ (finish id (err e) later entry claimed, err (execution_failed e))
    ]
  ]
