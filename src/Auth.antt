-- ===== src/Auth.antt =====
-- internal/auth/auth.go, model.go: the users of a node, their passwords and sessions. What the
-- repository takes from gantry-core and from the tables of Unicode is the record `Primitives`; what
-- is drawn at random is an argument; a time is in nanoseconds.
pub mod Accounts
pub mod Sessions
pub mod Steps
pub mod Changed
pub mod Governed
pub mod Revoked
pub mod Admitted
pub mod Throttled
use Prim.Native.String
use Prim.Native.String.{◌∷◌ as ◌∷ˢ◌}
use Prim.Native.Char.{Char, code}
use watchpost.Base.{
  ℕ, suc, ◌+◌, String, Bool, true, false, not, ◌&&◌, ◌||◌, Option, none, some, List, [], ◌∷◌, map,
  ◌==◌, eqb, ltb, leb, if◌then◌else◌, any, count, update_where, remove, Result, ok, err, ◌>>=◌,
  ◌>>◌, guard, require,
}
use watchpost.Store.Tables.{Db}
use watchpost.Store.Audit.{Entry, insert_audit}
use watchpost.Replicated.Snapshot.{order_by}

pub record UserRow : Type 0 where
  pub id : ℕ
  pub username : String
  pub email : String
  pub password_hash : String
  pub role : String
  pub created_at : ℕ

pub record SessionRow : Type 0 where
  pub token_hash : String
  pub user_id : ℕ
  pub csrf_token : String
  pub expires_at : ℕ

pub record BootstrapToken : Type 0 where
  pub token_hash : String
  pub expires_at : ℕ
  pub consumed_at : Option ℕ

-- the three tables of the component, and the rest of the database
pub record Tables : Type 0 where
  pub users : List UserRow
  pub sessions : List SessionRow
  pub bootstrap_tokens : List BootstrapToken
  pub db : Db

-- an account of gantry-core with its one identity
pub record Account : Type 0 where
  pub id : String
  pub display_name : String
  pub roles : List String
  pub email : String
  pub password_hash : String

pub record User : Type 0 where
  pub id : ℕ
  pub email : String
  pub role : String

pub data AuthError : Type 0 where
  invalid_input hash_failed setup_completed bootstrap_refused token_required : AuthError
  constraint_failed invalid_role no_rows last_administrator password_too_short : AuthError
  password_incorrect throttled invalid_credentials bad_account : AuthError

pub record Primitives : Type 0 where
  pub sha256 : String → String
  pub hash_password : String → Option String
  pub verify_password : String → String → Bool
  -- email or name, and password, of the accounts that are loaded
  pub authenticate_password : List Account → String → String → Option Account
  pub trim_space : String → String
  pub to_lower : String → String
  pub shown : ℕ → String
  pub parse_int : String → Option ℕ

abbrev pub minimum_password_length : ℕ
minimum_password_length = 7

-- `COLLATE NOCASE` folds the capitals of ASCII
abbrev pub fold_case : ℕ → ℕ
fold_case n = if leb 65 n && leb n 90 then n + 32 else n

unfoldable pub nocase_le : String → String → Bool
nocase_le String.[] t = true
nocase_le (c ∷ˢ s) String.[] = false
nocase_le (c ∷ˢ s) (d ∷ˢ t) =
    let rest = nocase_le s t in
    ltb (fold_case (code c)) (fold_case (code d))
    || eqb (fold_case (code c)) (fold_case (code d)) && rest

unfoldable pub nocase_eq : String → String → Bool
unfolding nocase_le
nocase_eq s t = nocase_le s t && nocase_le t s

-- `strings.Contains(email, "@")`
unfoldable pub has_at : String → Bool
has_at String.[] = false
has_at (c ∷ˢ s) = eqb (code c) 64 || has_at s

unfoldable pub is_role : String → Bool
is_role role = role == "admin" || role == "operator" || role == "viewer"

unfoldable pub is_user : ℕ → UserRow → Bool
is_user id u = eqb u.id id

unfoldable pub is_admin : UserRow → Bool
is_admin u = u.role == "admin"

unfoldable pub next_user : List UserRow → ℕ
next_user [] = 1
next_user (u ∷ us) = let n = next_user us in if leb n u.id then suc u.id else n

unfoldable pub new_user : ℕ → String → String → String → String → ℕ → UserRow
new_user id username email hash role now = record {
  id = id;
  username = username;
  email = email;
  password_hash = hash;
  role = role;
  created_at = now;
}

-- `INSERT INTO users`: the email is unique, and the role checked
unfoldable pub insert_user : UserRow → Tables → Result AuthError Tables
unfolding any nocase_eq is_role
insert_user row t = do
  guard (not (any (λ (u : UserRow). nocase_eq u.email row.email) t.users)) constraint_failed
  guard (is_role row.role) constraint_failed
  ok (record t { users = row ∷ t.users })

unfoldable pub update_users : (UserRow → Bool) → (UserRow → UserRow) → Tables → Tables
unfolding update_where
update_users hit f t = record t { users = update_where hit f t.users }

unfoldable pub delete_sessions : (SessionRow → Bool) → Tables → Tables
unfolding remove
delete_sessions gone t = record t { sessions = remove gone t.sessions }

-- the foreign key of the audit row to the users here: the actor is nobody, or a user
unfoldable pub knows_actor : Entry → Tables → Bool
unfolding any is_user
knows_actor entry t = eqb entry.actor_id 0 || any (is_user entry.actor_id) t.users

unfoldable pub audited : Entry → String → String → Tables → Tables
unfolding insert_audit
audited entry kind object t = record t {
  db = insert_audit (record entry { object_type = kind; object_id = object }) t.db;
}

-- `LoadAccounts`, which each call reloads
unfoldable pub account_of : Primitives → UserRow → Account
account_of core u = record {
  id = core.shown u.id;
  display_name = u.username;
  roles = (if u.role == "admin" then "administrator" else u.role) ∷ [];
  email = u.email;
  password_hash = u.password_hash;
}

unfoldable pub load_accounts : Primitives → List UserRow → List Account
unfolding account_of order_by nocase_le
load_accounts core users =
    map (account_of core) (order_by (λ (u v : UserRow). nocase_le u.email v.email) users)

-- the loop over the roles: the administrator's ends it
unfoldable pub role_among : String → List String → String
role_among role [] = role
role_among role (r ∷ rs) =
    let rest = role_among (if r == "operator" then "operator" else role) rs in
    if r == "administrator" then "admin" else rest

-- `userFromAccount`
unfoldable pub user_from_account : Primitives → Account → Result AuthError User
unfolding role_among
user_from_account core a = do
  id ← require (core.parse_int a.id) bad_account
  ok (record {
    id = id;
    email = if a.email == "" then a.display_name else a.email;
    role = role_among "viewer" a.roles;
  })
