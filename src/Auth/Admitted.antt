-- ===== src/Auth/Admitted.antt =====
-- A login and the session that it opens.
use watchpost.Base.{
  ap, Bool-cases, ℕ, ◌+◌, ◌≤◌, String, ◌≡◌, refl, ◌∙◌, sym, Bool, true, some, List, [], ◌∷◌, arith,
  eq_refl, any, find, remove, any-remove_self, find-none, inl, inr, ok, err,
}
use watchpost.Store.Audit.{Entry}
use watchpost.Auth.{UserRow, Tables, User, Primitives, no_rows, is_user, delete_sessions, audited}
use watchpost.Auth.Sessions.{
  Failures, Session, day, is_session, insert_session, open_session, login, authenticate, logout,
}
use watchpost.Auth.Changed.{login_ok}

find-of-any :
    (p : UserRow → Bool) (users : List UserRow)
    → any p users ≡ true
    → (u : UserRow) × (find p users ≡ some u) × (p u ≡ true)
unfolding any find
find-of-any p [] h = cc
find-of-any p (x ∷ users) h = elim (Bool-cases (p x)) [
  | inl e ↦ (x, ground arith, e)
  | inr e ↦ let (u, found, holds) = find-of-any p users (ground arith) in (u, ground arith, holds)
]

opened_authenticates :
    (core : Primitives) (u : User) (token csrf : String) (now now' : ℕ) (entry : Entry) (t : Tables)
    {t' : Tables}
    → open_session core u token csrf now entry t ≡ ok t'
    → now' ≤ now + day
    → (s : Session) × (authenticate core token now' t' ≡ ok s)
      × (s.user.id ≡ u.id)
      × (s.csrf ≡ csrf)
unfolding open_session insert_session audited authenticate is_session is_user find
opened_authenticates core u token csrf now now' entry t {t'} h early =
    let (row, found, holds) = find-of-any (is_user u.id) t.users (ground arith) in
    (
      record {
        token = "";
        csrf = csrf;
        user = record { id = row.id; email = row.email; role = row.role };
      },
      ground (arith, eq_refl (core.sha256 token)),
      ground arith,
      refl,
    )

logout_refuses :
    (core : Primitives) (token : String) (now : ℕ) (entry : Entry) (t : Tables)
    → authenticate core token now (logout core token entry t) ≡ err no_rows
unfolding authenticate logout delete_sessions audited
logout_refuses core token now entry t = ground (
  arith,
  find-none (is_session (core.sha256 token)) (remove (is_session (core.sha256 token)) t.sessions)
      (any-remove_self (is_session (core.sha256 token)) t.sessions),
)

-- The token of an accepted login authenticates for a day as the user that the login answered with,
-- under the login's CSRF token, and after a logout with it no longer.
pub login_authenticates :
    (core : Primitives) (email password token csrf : String) (now now' late : ℕ)
    (entry leaving : Entry) (f : Failures) (t : Tables) {s : Session}
    → (login core email password token csrf now entry f t).answer ≡ ok s
    → now' ≤ now + day
    → let t' = (login core email password token csrf now entry f t).tables in
      ((a : Session) × (authenticate core token now' t' ≡ ok a)
        × (a.user.id ≡ s.user.id)
        × (a.csrf ≡ s.csrf))
      × (authenticate core token late (logout core token leaving t') ≡ err no_rows)
login_authenticates core email password token csrf now now' late entry leaving f t {s} h early =
    let t' = (login core email password token csrf now entry f t).tables in
    let (u, made, same) = login_ok core email password token csrf now entry f t h in
    let (a, valid, user, mark) =
      opened_authenticates core u token csrf now now' entry t made early in
    (
      (
        a,
        valid,
        user ∙ sym (ap (λ (x : Session). x.user.id) same),
        mark ∙ sym (ap (λ (x : Session). x.csrf) same),
      ),
      logout_refuses core token late leaving t',
    )
