-- ===== src/Checks.antt =====
-- internal/checks/schedules.go: scheduled checks and their results. A time and a latency are in
-- nanoseconds. What the target policy and a probe of the network answer is a parameter.
pub mod Timed
pub mod Spaced
use watchpost.Base.{
  ℕ, ◌+◌, ◌*◌, String, Bool, true, false, not, ◌&&◌, ◌||◌, Option, none, some, List, [], ◌∷◌, ◌==◌,
  ltb, text_before, any, find, filter, take, map, update_where, if◌then◌else◌, Result, ok, err,
  ◌>>◌, guard, require,
}
use Prim.Native.String.{◌++◌ as ◌++ˢ◌, compare}
use text.Mathlib.Text.{is_lt}
use watchpost.Store.Tables.{Db}
use watchpost.Store.Audit.{Entry, knows_actor, insert_audit}
use watchpost.Alerts.Decide.{second}
use watchpost.Ingest.Key.{new_key, find_key}
use watchpost.Replicated.Snapshot.{order_by, text_le}

-- a row of check_schedules
pub record Schedule : Type 0 where
  pub id : String
  pub post_id : String
  pub kind : String
  pub address : String
  pub server_name : String
  pub interval_seconds : ℕ
  pub enabled : Bool
  pub next_run_at : ℕ

-- `Result`, what a probe answers
pub record Probed : Type 0 where
  pub kind : String
  pub address : String
  pub succeeded : Bool
  pub latency : ℕ
  pub status : ℕ
  pub expires_at : Option ℕ
  pub failure : String

-- a row of check_results
pub record StoredResult : Type 0 where
  pub schedule_id : String
  pub checked_at : ℕ
  pub succeeded : Bool
  pub latency : ℕ
  pub status : ℕ
  pub expires_at : Option ℕ
  pub failure : String

pub record Tables : Type 0 where
  pub schedules : List Schedule
  pub results : List StoredResult
  pub db : Db

pub data CheckError : Type 0 where
  invalid_schedule unsupported_kind target_refused constraint_failed no_rows : CheckError

-- the target policy, where there is one, answers with a reason to refuse an address
pub record Network : Type 0 where
  pub policy : Option (String → Option String)
  pub run : String → String → String → Probed

unfoldable pub is_schedule : String → Schedule → Bool
is_schedule id s = s.id == id

unfoldable pub is_kind : String → Bool
is_kind k = k == "http" || k == "tcp" || k == "tls" || k == "dns" || k == "icmp"

unfoldable pub is_valid : Schedule → Bool
is_valid v = not (
    v.id == ""
    || v.post_id == ""
    || v.address == ""
    || ltb v.interval_seconds 30
    || ltb 86_400 v.interval_seconds)

-- `policy.Validate`, where there is a policy
unfoldable pub refusal : Network → String → Option String
refusal net address = elim net.policy [ none ↦ none | some p ↦ p address ]

unfoldable pub is_allowed : Network → String → Bool
unfolding refusal
is_allowed net address = elim (refusal net address) [ none ↦ true | some e ↦ false ]

-- the identity of the checks of a schedule: `ON CONFLICT(id) DO NOTHING`
unfoldable pub insert_identity : (String → String) → Schedule → Db → Db
unfolding find_key new_key
insert_identity sha256 v db = elim (find_key v.id db) [
  | some k ↦ db
  | none ↦ record db {
    local = record db.local {
      collector_keys =
          new_key v.id v.post_id (sha256 ("central-check:" ++ˢ v.id)) ∷ db.local.collector_keys;
    };
  }
]

-- `Save`; the id is the primary key, and the post must be there
unfoldable pub save :
    (String → String) → Network → Schedule → ℕ → Entry → Tables → Result CheckError Tables
unfolding is_valid is_kind is_allowed any is_schedule insert_identity insert_audit
save sha256 net v now entry t = do
  guard (is_valid v) invalid_schedule
  guard (is_kind v.kind) unsupported_kind
  guard (is_allowed net v.address) target_refused
  guard (not (any (is_schedule v.id) t.schedules)) constraint_failed
  guard (any (λ p. p.id == v.post_id) t.db.posts) constraint_failed
  guard (knows_actor entry t.db) constraint_failed
  ok (record t {
    schedules = record v { enabled = true; next_run_at = now } ∷ t.schedules;
    db =
        insert_audit (record entry { object_type = "check_schedule"; object_id = v.id })
          (insert_identity sha256 v t.db);
  })

-- `Get`
unfoldable pub get : String → Tables → Result CheckError Schedule
unfolding find is_schedule
get id t = require (find (is_schedule id) t.schedules) no_rows

unfoldable pub schedule_le : Schedule → Schedule → Bool
schedule_le a b =
    is_lt (compare a.post_id b.post_id) || (a.post_id == b.post_id && text_le a.id b.id)

-- the last result of a schedule: `ORDER BY checked_at DESC LIMIT 1`
unfoldable pub last_result : String → List StoredResult → Option StoredResult
last_result id [] = none
last_result id (r ∷ rs) =
    let last = last_result id rs in
    if r.schedule_id == id
    then elim last [
      | none ↦ some r
      | some q ↦ if text_before r.checked_at q.checked_at then some q else some r
    ]
    else last

-- `List`
unfoldable pub list : Tables → List (Schedule × Option StoredResult)
unfolding order_by schedule_le last_result
list t = map (λ s. (s, last_result s.id t.results)) (order_by schedule_le t.schedules)

abbrev pub max_due : ℕ
max_due = 32

unfoldable pub is_due : ℕ → Schedule → Bool
is_due now s = s.enabled && not (text_before now s.next_run_at)

-- the schedules that `RunDue` reads
unfoldable pub due : ℕ → Tables → List Schedule
unfolding filter is_due order_by
due now t = take max_due (
    order_by (λ a b. not (text_before b.next_run_at a.next_run_at))
      (filter (is_due now) t.schedules))

-- `runWithPolicy`
unfoldable pub run_with_policy : Network → Schedule → Probed
unfolding refusal
run_with_policy net v = elim (refusal net v.address) [
  | none ↦ net.run v.kind v.address v.server_name
  | some reason ↦ record {
    kind = v.kind;
    address = v.address;
    succeeded = false;
    latency = 0;
    status = 0;
    expires_at = none;
    failure = reason;
  }
]

unfoldable pub result_row : String → ℕ → Probed → StoredResult
result_row id now r = record {
  schedule_id = id;
  checked_at = now;
  succeeded = r.succeeded;
  latency = r.latency;
  status = r.status;
  expires_at = r.expires_at;
  failure = r.failure;
}

unfoldable pub reschedule : ℕ → Schedule → Schedule
reschedule at s = record s { next_run_at = at }

-- the transaction that stores one result
unfoldable pub store_result : ℕ → Schedule → Probed → Tables → Result CheckError Tables
unfolding any is_schedule result_row update_where reschedule
store_result now v r t = do
  guard (any (is_schedule v.id) t.schedules) constraint_failed
  ok (record t {
    results = result_row v.id now r ∷ t.results;
    schedules =
        update_where (is_schedule v.id) (reschedule (now + v.interval_seconds * second))
          t.schedules;
  })

-- the loop over the results: an error ends it and leaves what is committed
unfoldable pub store_results : ℕ → Network → List Schedule → Tables → Tables × Option CheckError
unfolding store_result run_with_policy
store_results now net [] t = (t, none)
store_results now net (v ∷ rest) t = elim (store_result now v (run_with_policy net v) t) [
  | err e ↦ (t, some e)
  | ok t' ↦ store_results now net rest t'
]

-- `RunDue`: the tables, an error, and the results that it answers with where there is none
unfoldable pub run_due :
    Network → ℕ → Tables → Tables × Option CheckError × List (Schedule × Probed)
unfolding due store_results run_with_policy
run_due net now t =
    let work = due now t in
    let (t', failed) = store_results now net work t in
    (t', failed, elim failed [ none ↦ map (λ v. (v, run_with_policy net v)) work | some e ↦ [] ])
