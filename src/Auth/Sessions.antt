-- ===== src/Auth/Sessions.antt =====
-- internal/auth/auth.go: the login and its throttle, and the sessions.
use watchpost.Base.{
  ℕ, ◌+◌, ◌*◌, String, Bool, not, none, some, List, [], ◌∷◌, ◌++◌, ◌==◌, ltb, if◌then◌else◌, any,
  find, filter, length, Result, ok, err, ◌>>=◌, ◌>>◌, guard, require,
}
use watchpost.Base.Assoc.{Assoc, lookup, insert}
use watchpost.Store.Audit.{Entry}
use watchpost.Ingest.Budget.{minute}
use watchpost.Auth.{
  SessionRow, Tables, Account, User, AuthError, Primitives, constraint_failed, no_rows, throttled,
  invalid_credentials, is_user, delete_sessions, audited, knows_actor, load_accounts,
  user_from_account,
}

-- the failed logins of each name, the oldest first
abbrev pub Failures : Type 0
Failures = Assoc (List ℕ)

abbrev pub throttle_window : ℕ
throttle_window = 5 * minute

abbrev pub max_failures : ℕ
max_failures = 5

unfoldable pub failures_of : String → Failures → List ℕ
unfolding lookup
failures_of key f = elim (lookup key f) [ none ↦ [] | some times ↦ times ]

-- `at.After(cutoff)`
unfoldable pub is_recent : ℕ → ℕ → Bool
is_recent now at = ltb now (at + throttle_window)

-- `allow`: the old failures are forgotten
unfoldable pub allow : String → ℕ → Failures → Failures × Bool
unfolding filter is_recent failures_of insert
allow key now f =
    let kept = filter (is_recent now) (failures_of key f) in
    (insert key kept f, ltb (length kept) max_failures)

unfoldable pub failed : String → ℕ → Failures → Failures
unfolding failures_of insert
failed key now f = insert key (failures_of key f ++ now ∷ []) f

-- `delete(m.failures, key)`
unfoldable pub clear : String → Failures → Failures
clear key [] = []
clear key ((other, times) ∷ rest) =
    let others = clear key rest in if other == key then others else (other, times) ∷ others

pub record Session : Type 0 where
  pub token : String
  pub csrf : String
  pub user : User

-- the answer of a login, with the failures and the tables that it leaves
pub record Outcome : Type 0 where
  pub failures : Failures
  pub tables : Tables
  pub answer : Result AuthError Session

unfoldable pub is_session : String → SessionRow → Bool
is_session hash s = s.token_hash == hash

abbrev pub day : ℕ
day = 24 * 60 * minute

-- `INSERT INTO sessions`: primary key and foreign key
unfoldable pub insert_session : SessionRow → Tables → Result AuthError Tables
unfolding any is_session is_user
insert_session row t = do
  guard (not (any (is_session row.token_hash) t.sessions)) constraint_failed
  guard (any (is_user row.user_id) t.users) constraint_failed
  ok (record t { sessions = row ∷ t.sessions })

unfoldable pub open_session :
    Primitives → User → String → String → ℕ → Entry → Tables → Result AuthError Tables
unfolding insert_session audited
open_session core u token csrf now entry t = do
  let row : SessionRow = record {
    token_hash = core.sha256 token;
    user_id = u.id;
    csrf_token = csrf;
    expires_at = now + day;
  }
  opened ← insert_session row t
  guard (knows_actor (record entry { actor_id = u.id }) opened) constraint_failed
  ok (audited (record entry { actor_id = u.id }) "session" "" opened)

unfoldable pub admit :
    Primitives → String → Account → String → String → ℕ → Entry → Failures → Tables → Outcome
unfolding user_from_account clear open_session
admit core key account token csrf now entry f t = elim (user_from_account core account) [
  | err e ↦ record { failures = f; tables = t; answer = err e }
  | ok u ↦ elim (open_session core u token csrf now entry t) [
    | err e ↦ record { failures = clear key f; tables = t; answer = err e }
    | ok t' ↦ record {
      failures = clear key f;
      tables = t';
      answer = ok (record { token = token; csrf = csrf; user = u });
    }
  ]
]

-- the name under which failures are counted
unfoldable pub throttle_key : Primitives → String → String
throttle_key core email = core.to_lower (core.trim_space email)

-- `Login` after `allow` has granted it: the mutex is free while the password is verified, so this
-- may meet the failures that other logins have left since
unfoldable pub verify :
    Primitives → String → String → String → String → ℕ → Entry → Failures → Tables → Outcome
unfolding load_accounts failed admit throttle_key
verify core email password token csrf now entry f t =
    elim (core.authenticate_password (load_accounts core t.users) email password) [
      | none ↦ record {
        failures = failed (throttle_key core email) now f;
        tables = t;
        answer = err invalid_credentials;
      }
      | some account ↦ admit core (throttle_key core email) account token csrf now entry f t
    ]

-- `Login` where no other login comes between its two parts
unfoldable pub login :
    Primitives → String → String → String → String → ℕ → Entry → Failures → Tables → Outcome
unfolding allow verify throttle_key
login core email password token csrf now entry f t =
    let (f', granted) = allow (throttle_key core email) now f in
    if not granted
    then record { failures = f'; tables = t; answer = err throttled }
    else verify core email password token csrf now entry f' t

-- `Authenticate`: the session and its user, unless it has expired
unfoldable pub authenticate : Primitives → String → ℕ → Tables → Result AuthError Session
unfolding find is_session is_user
authenticate core token now t = do
  s ← require (find (is_session (core.sha256 token)) t.sessions) no_rows
  u ← require (find (is_user s.user_id) t.users) no_rows
  guard (not (ltb s.expires_at now)) no_rows
  ok (record {
    token = "";
    csrf = s.csrf_token;
    user = record { id = u.id; email = u.email; role = u.role };
  })

-- `Logout`
unfoldable pub logout : Primitives → String → Entry → Tables → Tables
unfolding delete_sessions is_session audited
logout core token entry t =
    audited entry "session" entry.object_id (delete_sessions (is_session (core.sha256 token)) t)
