-- ===== src/Auth/Changed.antt =====
-- Each call changes the users and the sessions in one of the ways of `Change`.
use mathlib.Core.Path.{subst}
use watchpost.Base.{
  ℕ, ◌+◌, String, ◌≡◌, refl, Bool, true, false, List, [], ◌∷◌, arith, find, remove, filter,
  any-update_grow, inl, inr, ok, Option-cases, Result-cases,
}
use watchpost.Store.Audit.{Entry}
use watchpost.Auth.{
  UserRow, SessionRow, Tables, User, Primitives, is_user, is_admin, next_user, new_user,
  insert_user, update_users, delete_sessions, audited, user_from_account, load_accounts,
}
use watchpost.Auth.Accounts.{
  set_bootstrap_token, setup, consume_bootstrap, create_user, with_role, set_role, with_password,
  is_of, reset_password, revoke_sessions, is_other, change_password,
}
use watchpost.Auth.Sessions.{
  Failures, Session, is_session, insert_session, open_session, admit, login, logout, day,
}
use watchpost.Auth.Steps.{
  Step, prepared, started, enrolled, assigned, reset, changed, signed_in, signed_out, ended, Change,
  added, updated, opened, closed, kept, next_user-fresh, role-admins,
}

insert_user-Change :
    (row : UserRow) (entry : Entry) (object : String) (t mid : Tables) {t' : Tables}
    → row.id ≡ next_user t.users
    → mid.users ≡ t.users
    → mid.sessions ≡ t.sessions
    → insert_user row mid ≡ ok t'
    → Change t (audited entry "user" object t')
unfolding insert_user audited
insert_user-Change row entry object t mid fresh users sessions h =
    added row (ground arith) (ground arith) (ground arith)
      (ground (arith, next_user-fresh (next_user t.users) t.users))

consume_bootstrap-kept :
    (required : Bool) (hash : String) (now : ℕ) (t : Tables) {t' : Tables}
    → consume_bootstrap required hash now t ≡ ok t'
    → (t'.users ≡ t.users) × (t'.sessions ≡ t.sessions)
unfolding consume_bootstrap
consume_bootstrap-kept true hash now t h = ground arith
consume_bootstrap-kept false hash now t h = ground arith

abbrev setup_entry : Primitives → ℕ → Entry
setup_entry core id = record {
  actor_id = id;
  action = "setup";
  object_type = "user";
  object_id = core.shown id;
  detail = "first administrator created";
}

remove-nothing : (rows : List SessionRow) → rows ≡ remove (λ s. false) rows
unfolding remove filter
remove-nothing [] = refl
remove-nothing (s ∷ rows) = ground (arith, remove-nothing rows)

module _ (core : Primitives) (t : Tables) {t' : Tables} where
  setup-Change :
      (required : Bool) (username email password token : String) (now : ℕ) (u : User)
      → setup core required username email password token now t ≡ ok (t', u)
      → Change t t'
  unfolding setup new_user
  setup-Change required username email password token now u h =
      elim (Option-cases (core.hash_password password)) [
        | inl failed ↦ absurd (ground arith)
        | inr (hash, hashed) ↦
            elim (Result-cases (consume_bootstrap required (core.sha256 token) now t)) [
              | inr (e, failed) ↦ absurd (ground arith)
              | inl (mid, consumed) ↦
                  let id = next_user t.users in
                  let row =
                    new_user id (core.trim_space username) (core.trim_space email) hash "admin"
                      now in
                  elim (Result-cases (insert_user row mid)) [
                    | inr (e, failed) ↦ absurd (ground arith)
                    | inl (d, inserted) ↦
                        let same : audited (setup_entry core id) "user" (core.shown id) d ≡ t' =
                          ground arith in
                        let (users, sessions) =
                          consume_bootstrap-kept required (core.sha256 token) now t consumed in
                        subst (Change t) same (
                          insert_user-Change row (setup_entry core id) (core.shown id) t mid refl
                            users sessions inserted)
                  ]
            ]
      ]

  create_user-Change :
      (username email password role : String) (now : ℕ) (entry : Entry) (u : User)
      → create_user core username email password role now entry t ≡ ok (t', u)
      → Change t t'
  unfolding create_user new_user
  create_user-Change username email password role now entry u h =
      elim (Option-cases (core.hash_password password)) [
        | inl failed ↦ absurd (ground arith)
        | inr (hash, hashed) ↦
            let id = next_user t.users in
            let row =
              new_user id (core.trim_space username) (core.trim_space email) hash role now in
            elim (Result-cases (insert_user row t)) [
              | inr (e, failed) ↦ absurd (ground arith)
              | inl (d, inserted) ↦
                  let same : audited entry "user" (core.shown id) d ≡ t' = ground arith in
                  subst (Change t) same
                    (insert_user-Change row entry (core.shown id) t t refl refl refl inserted)
            ]
      ]

  set_role-Change :
      (id : ℕ) (role : String) (entry : Entry) → set_role core id role entry t ≡ ok t' → Change t t'
  unfolding set_role update_users audited with_role
  set_role-Change id role entry h = elim (Option-cases (find (is_user id) t.users)) [
    | inl missing ↦ absurd (ground arith)
    | inr (u, found) ↦
        updated (is_user id) (with_role role) (λ s. false) (ground arith)
          (ground (arith, remove-nothing t.sessions)) (λ x. refl) (λ x e. ground arith)
          (role-admins id role u t.users found (ground arith) (ground arith))
  ]

  reset-Change :
      (id : ℕ) (password : String) (entry : Entry)
      → reset_password core id password entry t ≡ ok t'
      → Change t t'
  unfolding reset_password update_users delete_sessions audited with_password is_admin
  reset-Change id password entry h = elim (Option-cases (core.hash_password password)) [
    | inl failed ↦ absurd (ground arith)
    | inr (hash, hashed) ↦
        updated (is_user id) (with_password hash) (is_of id) (ground arith) (ground arith)
          (λ x. refl) (λ x e. e)
          (any-update_grow is_admin (is_user id) (with_password hash) (λ x e. e) t.users)
  ]

  change-Change :
      (id : ℕ) (current password keep : String) (entry : Entry)
      → change_password core id current password keep entry t ≡ ok t'
      → Change t t'
  unfolding change_password update_users delete_sessions audited with_password is_admin
  change-Change id current password keep entry h = elim (Option-cases (find (is_user id) t.users)) [
    | inl missing ↦ absurd (ground arith)
    | inr (u, found) ↦ elim (Option-cases (core.hash_password password)) [
      | inl failed ↦ absurd (ground arith)
      | inr (hash, hashed) ↦
          updated (is_user id) (with_password hash) (is_other id (core.sha256 keep)) (ground arith)
            (ground arith) (λ x. refl) (λ x e. e)
            (any-update_grow is_admin (is_user id) (with_password hash) (λ x e. e) t.users)
    ]
  ]

  prepare-Change :
      (raw : String) (expires_at : ℕ)
      → set_bootstrap_token core raw expires_at t ≡ ok t'
      → Change t t'
  unfolding set_bootstrap_token
  prepare-Change raw expires_at h = kept (ground arith) (ground arith)

  open-Change :
      (u : User) (token csrf : String) (now : ℕ) (entry : Entry)
      → open_session core u token csrf now entry t ≡ ok t'
      → Change t t'
  unfolding open_session insert_session audited
  open-Change u token csrf now entry h =
      opened
        (record {
          token_hash = core.sha256 token;
          user_id = u.id;
          csrf_token = csrf;
          expires_at = now + day;
        })
        (ground arith) (ground arith) (ground arith)

-- what a successful login went through
pub login_ok :
    (core : Primitives) (email password token csrf : String) (now : ℕ) (entry : Entry)
    (f : Failures) (t : Tables) {s : Session}
    → (login core email password token csrf now entry f t).answer ≡ ok s
    → (u : User) × (open_session core u token csrf now entry t
        ≡ ok (login core email password token csrf now entry f t).tables)
      × (s ≡ record { token = token; csrf = csrf; user = u })
unfolding login admit
login_ok core email password token csrf now entry f t h =
    elim (Option-cases (core.authenticate_password (load_accounts core t.users) email password)) [
      | inl refused ↦ absurd (ground arith)
      | inr (account, known) ↦ elim (Result-cases (user_from_account core account)) [
        | inr (e, failed) ↦ absurd (ground arith)
        | inl (u, read) ↦ elim (Result-cases (open_session core u token csrf now entry t)) [
          | inr (e, failed) ↦ absurd (ground arith)
          | inl (d, made) ↦ (u, ground arith, ground arith)
        ]
      ]
    ]

closed-Change :
    (core : Primitives) (t : Tables) (token : String) (id : ℕ) (entry : Entry)
    → Change t (logout core token entry t) × Change t ((revoke_sessions core id entry t).0)
unfolding logout revoke_sessions delete_sessions audited
closed-Change core t token id entry =
    (closed (is_session (core.sha256 token)) refl refl, closed (is_of id) refl refl)

pub step-Change : (core : Primitives) (t t' : Tables) → Step core t t' → Change t t'
step-Change core t t' (prepared raw expires_at h) = prepare-Change core t raw expires_at h
step-Change core t t' (started required username email password token now u h) =
    setup-Change core t required username email password token now u h
step-Change core t t' (enrolled username email password role now entry u h) =
    create_user-Change core t username email password role now entry u h
step-Change core t t' (assigned id role entry h) = set_role-Change core t id role entry h
step-Change core t t' (reset id password entry h) = reset-Change core t id password entry h
step-Change core t t' (changed id current password keep entry h) =
    change-Change core t id current password keep entry h
step-Change core t t' (signed_in email password token csrf now entry f s h same) =
    let (u, made, _) = login_ok core email password token csrf now entry f t h in
    subst (Change t) same (open-Change core t u token csrf now entry made)
step-Change core t t' (signed_out token entry same) =
    subst (Change t) same (closed-Change core t token 0 entry).0
step-Change core t t' (ended id entry same) =
    subst (Change t) same (closed-Change core t "" id entry).1
