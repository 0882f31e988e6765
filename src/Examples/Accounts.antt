-- ===== src/Examples/Accounts.antt =====
-- The first administrator, a second user, and their sessions.
use watchpost.Base.{
  ◌⊎◌, ℕ, String, ◌≡◌, ◌≢◌, refl, none, some, List, [], ◌∷◌, arith, ok, err, true, find, any,
}
use watchpost.Store.Rows.{AuditRow}
use watchpost.Store.Tables.{empty_db}
use watchpost.Store.Audit.{Entry}
use watchpost.Auth.{
  AuthError, UserRow, SessionRow, Tables, Primitives, no_rows, is_user, is_admin, is_role,
}
use watchpost.Auth.Accounts.{set_role, change_password}
use watchpost.Auth.Sessions.{allow, verify, Session, login, logout, authenticate, Failures}
use watchpost.Auth.Steps.{done, then, assigned}
use watchpost.Auth.Governed.{IsGoverned, steps-IsGoverned}
use watchpost.Auth.Revoked.{change_keeps_one}
use watchpost.Auth.Admitted.{login_authenticates}
use watchpost.Auth.Throttled.{done as begun}

-- a password is its own hash, and the account of the first user takes any
abbrev core : Primitives
core = record {
  sha256 = λ t. t;
  hash_password = λ p. some p;
  verify_password = λ p h. true;
  authenticate_password =
      λ accounts email password. elim accounts [ [] ↦ none | a ∷ rest ↦ some a ];
  trim_space = λ t. t;
  to_lower = λ t. t;
  shown = λ n. "1";
  parse_int = λ t. some 1;
}

abbrev nobody : Primitives
nobody = record core { authenticate_password = λ accounts email password. none }

abbrev user : ℕ → String → String → UserRow
user id name role = record {
  id = id;
  username = name;
  email = name;
  password_hash = "password";
  role = role;
  created_at = 1;
}

abbrev session : String → SessionRow
session hash = record { token_hash = hash; user_id = 1; csrf_token = "csrf"; expires_at = 900 }

abbrev tables : List UserRow → List SessionRow → Tables
tables users sessions = record {
  users = users;
  sessions = sessions;
  bootstrap_tokens = [];
  db = empty_db;
}

abbrev entry : Entry
entry = record { actor_id = 1; action = "user"; object_type = ""; object_id = ""; detail = "" }

abbrev audit_row : String → AuditRow
audit_row kind = record {
  actor_user_id = some 1;
  action = "user";
  object_type = kind;
  object_id = "1";
  detail = "";
}

abbrev with_audit : Tables → Tables
with_audit t = record t {
  db = record empty_db { local = record empty_db.local { audit = audit_row "user" ∷ [] } };
}

abbrev ann : UserRow
ann = user 1 "ann@x" "admin"

abbrev bob : String → UserRow
bob role = user 2 "bob@x" role

abbrev before : Tables
before = tables (ann ∷ bob "operator" ∷ []) []

abbrev after : Tables
after = with_audit (tables (ann ∷ bob "admin" ∷ []) [])

promoted : set_role core 2 "admin" entry before ≡ ok after
unfolding set_role watchpost.Auth.knows_actor
promoted = refl

steps-IsGoverned_example : IsGoverned after
unfolding is_admin is_role is_user any
steps-IsGoverned_example =
    steps-IsGoverned core before after (then done (assigned 2 "admin" entry promoted)) (record {
      governed = refl;
      roles = (refl, (refl, tt));
      distinct = (refl, (refl, tt));
      owned = tt;
    })

abbrev bobs : SessionRow
bobs = record (session "bobs") { user_id = 2 }

abbrev busy : Tables
busy = tables (ann ∷ bob "operator" ∷ []) (session "kept" ∷ session "lost" ∷ bobs ∷ [])

abbrev changed_tables : Tables
changed_tables = with_audit (
    tables (record ann { password_hash = "longer password" } ∷ bob "operator" ∷ [])
      (session "kept" ∷ bobs ∷ []))

changing_ok :
    change_password core 1 "password" "longer password" "kept" entry busy ≡ ok changed_tables
unfolding change_password watchpost.Auth.knows_actor
changing_ok = refl

abbrev bobs_session : Session
bobs_session = record {
  token = "";
  csrf = "csrf";
  user = record { id = 2; email = "bob@x"; role = "operator" };
}

bob_stays : authenticate core "bobs" 10 changed_tables ≡ ok bobs_session
unfolding authenticate
bob_stays = refl

change_keeps_one_example :
    (authenticate core "kept" 10 changed_tables ≡ authenticate core "kept" 10 busy)
    × ((◌≡◌ {A = String} "bobs" "kept")
        ⊎ ((e : AuthError) × (authenticate core "bobs" 10 changed_tables ≡ err e))
        ⊎ ((s : Session) × (authenticate core "bobs" 10 changed_tables ≡ ok s) × (s.user.id ≢ 1)))
    × ((u : UserRow) × (find (is_user 1) busy.users ≡ some u) × (true ≡ true))
change_keeps_one_example =
    change_keeps_one core 1 entry busy "password" "longer password" "kept" "bobs" 10 changing_ok

abbrev anns_session : Session
anns_session = record {
  token = "token";
  csrf = "csrf";
  user = record { id = 1; email = "ann@x"; role = "admin" };
}

logged_in :
    (login core "ann@x" "password" "token" "csrf" 10 entry [] before).answer ≡ ok anns_session
unfolding login watchpost.Auth.knows_actor
logged_in = refl

login_authenticates_example :
    let t = (login core "ann@x" "password" "token" "csrf" 10 entry [] before).tables in
    ((a : Session) × (authenticate core "token" 20 t ≡ ok a) × (a.user.id ≡ 1) × (a.csrf ≡ "csrf"))
    × (authenticate core "token" 30 (logout core "token" entry t) ≡ err no_rows)
login_authenticates_example =
    login_authenticates core "ann@x" "password" "token" "csrf" 10 20 30 entry entry [] before
      logged_in (omega arith)

-- the guess of a login that is under way, and the failures that it leaves
abbrev trying : Failures
trying = (allow "ann@x" 10 []).0

abbrev guesses : Failures
guesses = (verify nobody "ann@x" "guess" "token" "csrf" 11 entry trying before).failures
