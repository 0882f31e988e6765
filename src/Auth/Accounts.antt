-- ===== src/Auth/Accounts.antt =====
-- internal/auth/auth.go: the first administrator, users, roles and passwords.
use Prim.Native.String.{len}
use watchpost.Base.{
  ℕ, String, Bool, true, false, not, ◌&&◌, ◌||◌, none, some, List, [], ◌∷◌, ◌==◌, eqb, ltb, leb,
  text_before, if◌then◌else◌, any, count, find, length, update_where, Result, ok, ◌>>=◌, ◌>>◌,
  guard, require,
}
use watchpost.Store.Audit.{Entry}
use watchpost.Auth.{
  constraint_failed, UserRow, SessionRow, BootstrapToken, Tables, Account, User, AuthError,
  Primitives, invalid_input, hash_failed, setup_completed, bootstrap_refused, token_required,
  invalid_role, no_rows, last_administrator, password_too_short, password_incorrect,
  minimum_password_length, has_at, is_role, is_user, is_admin, next_user, new_user, insert_user,
  update_users, delete_sessions, audited, knows_actor, load_accounts, user_from_account,
}

unfoldable pub is_bootstrap : String → BootstrapToken → Bool
is_bootstrap hash b = b.token_hash == hash

-- `SetBootstrapToken`: an upsert that forgets the consumption
unfoldable pub set_bootstrap_token : Primitives → String → ℕ → Tables → Result AuthError Tables
unfolding any is_bootstrap update_where
set_bootstrap_token core raw expires_at t = do
  guard (not (raw == "")) token_required
  let hash = core.sha256 raw
  let fresh : BootstrapToken = record {
    token_hash = hash;
    expires_at = expires_at;
    consumed_at = none;
  }
  ok (record t {
    bootstrap_tokens =
        if any (is_bootstrap hash) t.bootstrap_tokens
        then update_where (is_bootstrap hash) (λ b. fresh) t.bootstrap_tokens
        else fresh ∷ t.bootstrap_tokens;
  })

-- `WHERE token_hash=? AND consumed_at IS NULL AND expires_at>?`
unfoldable pub is_usable : String → ℕ → BootstrapToken → Bool
unfolding is_bootstrap
is_usable hash now b =
    is_bootstrap hash b
    && elim b.consumed_at [ none ↦ true | some u ↦ false ]
    && text_before now b.expires_at

unfoldable pub consume_row : ℕ → BootstrapToken → BootstrapToken
consume_row now b = record b { consumed_at = some now }

-- the token that gates the setup, where one is required
unfoldable pub consume_bootstrap : Bool → String → ℕ → Tables → Result AuthError Tables
unfolding count is_usable update_where consume_row
consume_bootstrap false hash now t = ok t
consume_bootstrap true hash now t = do
  guard (eqb (count (is_usable hash now) t.bootstrap_tokens) 1) bootstrap_refused
  ok (record t {
    bootstrap_tokens = update_where (is_usable hash now) (consume_row now) t.bootstrap_tokens;
  })

unfoldable pub is_registrable : Primitives → String → String → String → Bool
unfolding has_at
is_registrable core username email password = not (
    core.trim_space username == ""
    || not (has_at email)
    || ltb (len password) minimum_password_length)

-- `Setup`
unfoldable pub setup :
    Primitives
    → Bool
    → String
    → String
    → String
    → String
    → ℕ
    → Tables
    → Result AuthError (Tables × User)
unfolding is_registrable consume_bootstrap next_user new_user insert_user audited
setup core required username email password token now t = do
  guard (is_registrable core username email password) invalid_input
  hash ← require (core.hash_password password) hash_failed
  guard (eqb (length t.users) 0) setup_completed
  consumed ← consume_bootstrap required (core.sha256 token) now t
  let id = next_user t.users
  let row = new_user id (core.trim_space username) (core.trim_space email) hash "admin" now
  added ← insert_user row consumed
  let entry : Entry = record {
    actor_id = id;
    action = "setup";
    object_type = "user";
    object_id = core.shown id;
    detail = "first administrator created";
  }
  guard (knows_actor entry added) constraint_failed
  ok (audited entry "user" (core.shown id) added, record { id = id; email = email; role = "admin" })

-- `SetupRequired`
abbrev pub setup_required : Tables → Bool
setup_required t = eqb (length t.users) 0

unfoldable pub users_from : Primitives → List Account → Result AuthError (List User)
unfolding user_from_account
users_from core [] = ok []
users_from core (a ∷ rest) = do u ← user_from_account core a; us ← users_from core rest; ok (u ∷ us)

-- `ListUsers`
unfoldable pub list_users : Primitives → Tables → Result AuthError (List User)
unfolding users_from load_accounts
list_users core t = users_from core (load_accounts core t.users)

-- `CreateUser`
unfoldable pub create_user :
    Primitives
    → String
    → String
    → String
    → String
    → ℕ
    → Entry
    → Tables
    → Result AuthError (Tables × User)
unfolding is_registrable is_role next_user new_user insert_user audited
create_user core username email password role now entry t = do
  guard (is_registrable core username email password && is_role role) invalid_input
  hash ← require (core.hash_password password) hash_failed
  let id = next_user t.users
  let row = new_user id (core.trim_space username) (core.trim_space email) hash role now
  added ← insert_user row t
  guard (knows_actor entry added) constraint_failed
  ok (
    audited entry "user" (core.shown id) added,
    record { id = id; email = core.trim_space email; role = role },
  )

unfoldable pub with_role : String → UserRow → UserRow
with_role role u = record u { role = role }

-- an administrator stays one unless there is another
unfoldable pub may_change : UserRow → String → List UserRow → Bool
unfolding is_admin count
may_change u role users =
    not (u.role == "admin" && not (role == "admin") && leb (count is_admin users) 1)

-- `SetRole`
unfoldable pub set_role : Primitives → ℕ → String → Entry → Tables → Result AuthError Tables
unfolding is_role find is_user may_change count update_users with_role audited
set_role core id role entry t = do
  guard (is_role role) invalid_role
  u ← require (find (is_user id) t.users) no_rows
  guard (may_change u role t.users) last_administrator
  guard (eqb (count (is_user id) t.users) 1) no_rows
  guard (knows_actor entry t) constraint_failed
  ok (audited entry "user" (core.shown id) (update_users (is_user id) (with_role role) t))

unfoldable pub with_password : String → UserRow → UserRow
with_password hash u = record u { password_hash = hash }

unfoldable pub is_of : ℕ → SessionRow → Bool
is_of id s = eqb s.user_id id

-- `ResetPassword`
unfoldable pub reset_password : Primitives → ℕ → String → Entry → Tables → Result AuthError Tables
unfolding count is_user update_users with_password delete_sessions is_of audited
reset_password core id new_password entry t = do
  guard (not (ltb (len new_password) minimum_password_length)) password_too_short
  hash ← require (core.hash_password new_password) hash_failed
  guard (eqb (count (is_user id) t.users) 1) no_rows
  guard (knows_actor entry t) constraint_failed
  ok (
      audited entry "user" (core.shown id)
        (delete_sessions (is_of id) (update_users (is_user id) (with_password hash) t)))

-- `RevokeSessions`, with the number of sessions that it ended
unfoldable pub revoke_sessions : Primitives → ℕ → Entry → Tables → Tables × ℕ
unfolding delete_sessions is_of count audited
revoke_sessions core id entry t = (
  audited entry "user" (core.shown id) (delete_sessions (is_of id) t),
  count (is_of id) t.sessions,
)

-- `user_id=? AND token_hash<>?`
unfoldable pub is_other : ℕ → String → SessionRow → Bool
unfolding is_of
is_other id keep s = is_of id s && not (s.token_hash == keep)

-- `ChangePassword`
unfoldable pub change_password :
    Primitives → ℕ → String → String → String → Entry → Tables → Result AuthError Tables
unfolding find is_user delete_sessions is_other update_users with_password audited
change_password core id current new_password keep_token entry t = do
  guard (not (ltb (len new_password) minimum_password_length)) password_too_short
  u ← require (find (is_user id) t.users) no_rows
  guard (core.verify_password current u.password_hash) password_incorrect
  hash ← require (core.hash_password new_password) hash_failed
  guard (knows_actor (record entry { actor_id = id }) t) constraint_failed
  ok (
      audited (record entry { actor_id = id }) "user" (core.shown id)
        (update_users (is_user id) (with_password hash)
          (delete_sessions (is_other id (core.sha256 keep_token)) t)))
