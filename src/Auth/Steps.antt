-- ===== src/Auth/Steps.antt =====
-- The accepted calls as steps, and what each of them does to the users and the sessions.
use watchpost.Base.{
  ℕ, ◌≤◌, String, ◌≡◌, refl, Bool, true, false, some, List, [], ◌∷◌, ◌==◌, arith, any, count, find,
  remove, update_where, any-update_one, any-update_grow, count-update_where-ge, count-any-pos, inl,
  inr, ok, Bool-cases,
}
use watchpost.Store.Audit.{Entry}
use watchpost.Auth.{
  UserRow, SessionRow, Tables, User, Primitives, is_role, is_user, is_admin, next_user,
}
use watchpost.Auth.Accounts.{
  set_bootstrap_token, setup, create_user, with_role, may_change, set_role, reset_password,
  revoke_sessions, change_password,
}
use watchpost.Auth.Sessions.{Failures, Session, login, logout}

pub data Step (core : Primitives) (t t' : Tables) : Type 0 where
  prepared :
      (raw : String) (expires_at : ℕ)
      → set_bootstrap_token core raw expires_at t ≡ ok t'
      → Step core t t'
  started :
      (required : Bool) (username email password token : String) (now : ℕ) (u : User)
      → setup core required username email password token now t ≡ ok (t', u)
      → Step core t t'
  enrolled :
      (username email password role : String) (now : ℕ) (entry : Entry) (u : User)
      → create_user core username email password role now entry t ≡ ok (t', u)
      → Step core t t'
  assigned :
      (id : ℕ) (role : String) (entry : Entry)
      → set_role core id role entry t ≡ ok t'
      → Step core t t'
  reset :
      (id : ℕ) (password : String) (entry : Entry)
      → reset_password core id password entry t ≡ ok t'
      → Step core t t'
  changed :
      (id : ℕ) (current password keep : String) (entry : Entry)
      → change_password core id current password keep entry t ≡ ok t'
      → Step core t t'
  signed_in :
      (email password token csrf : String) (now : ℕ) (entry : Entry) (f : Failures) (s : Session)
      → (login core email password token csrf now entry f t).answer ≡ ok s
      → (login core email password token csrf now entry f t).tables ≡ t'
      → Step core t t'
  signed_out : (token : String) (entry : Entry) → logout core token entry t ≡ t' → Step core t t'
  ended : (id : ℕ) (entry : Entry) → (revoke_sessions core id entry t).0 ≡ t' → Step core t t'

pub data Steps (core : Primitives) (t : Tables) : Tables → Type 0 where
  done : Steps core t t
  then : {mid last : Tables} → Steps core t mid → Step core mid last → Steps core t last

-- what a call does to the users and the sessions
pub data Change (t t' : Tables) : Type 0 where
  added :
      (row : UserRow)
      → t'.users ≡ row ∷ t.users
      → t'.sessions ≡ t.sessions
      → is_role row.role ≡ true
      → any (is_user row.id) t.users ≡ false
      → Change t t'
  updated :
      (hit : UserRow → Bool) (f : UserRow → UserRow) (gone : SessionRow → Bool)
      → t'.users ≡ update_where hit f t.users
      → t'.sessions ≡ remove gone t.sessions
      → ((u : UserRow) → (f u).id ≡ u.id)
      → ((u : UserRow) → is_role u.role ≡ true → is_role (f u).role ≡ true)
      → (any is_admin t.users ≡ true → any is_admin (update_where hit f t.users) ≡ true)
      → Change t t'
  opened :
      (row : SessionRow)
      → t'.users ≡ t.users
      → t'.sessions ≡ row ∷ t.sessions
      → any (is_user row.user_id) t.users ≡ true
      → Change t t'
  closed :
      (gone : SessionRow → Bool)
      → t'.users ≡ t.users
      → t'.sessions ≡ remove gone t.sessions
      → Change t t'
  kept : t'.users ≡ t.users → t'.sessions ≡ t.sessions → Change t t'

pub next_user-fresh : (n : ℕ) (us : List UserRow) → next_user us ≤ n → any (is_user n) us ≡ false
unfolding next_user any is_user
next_user-fresh n [] h = refl
next_user-fresh n (u ∷ us) h = ground (arith, next_user-fresh n us)

grown :
    (role : String) (u : UserRow) → (role == "admin") ≡ true → is_admin (with_role role u) ≡ true
unfolding is_admin with_role
grown role u h = h

plain-is_admin : (u : UserRow) → (u.role == "admin") ≡ false → is_admin u ≡ false
unfolding is_admin
plain-is_admin u h = h

-- the administrators after a permitted change of a role
pub role-admins :
    (id : ℕ) (role : String) (u : UserRow) (users : List UserRow)
    → find (is_user id) users ≡ some u
    → may_change u role users ≡ true
    → count (is_user id) users ≡ 1
    → any is_admin users ≡ true
    → any is_admin (update_where (is_user id) (with_role role) users) ≡ true
unfolding may_change
role-admins id role u users found allowed one h = elim (Bool-cases (role == "admin")) [
  | inl same ↦
      any-update_grow is_admin (is_user id) (with_role role) (λ x e. grown role x same) users h
  | inr other ↦ elim (Bool-cases (u.role == "admin")) [
    | inr plain ↦
        any-update_one is_admin (is_user id) (with_role role) users u one found
          (plain-is_admin u plain) h
    | inl admin ↦
        count-any-pos is_admin (update_where (is_user id) (with_role role) users)
          (ground (arith, count-update_where-ge is_admin (is_user id) (with_role role) users))
  ]
]
