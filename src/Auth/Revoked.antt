-- ===== src/Auth/Revoked.antt =====
-- A new password ends the sessions of its user.
use watchpost.Base.{
  ◌⊎◌, ◌==◌, err, Bool-cases, Result-cases, ℕ, String, ◌≡◌, ◌≢◌, refl, ◌∙◌, Bool, true, false, some,
  List, [], ◌∷◌, eqb, arith, eq_iff, find, remove, filter, find-some, find-update_where-adjust, sym,
  ap, inl, inr, ok, Option-cases,
}
use watchpost.Store.Audit.{Entry}
use watchpost.Auth.{
  AuthError, UserRow, SessionRow, Tables, Primitives, is_user, update_users, delete_sessions,
  audited,
}
use watchpost.Auth.Accounts.{with_password, is_of, reset_password, is_other, change_password}
use watchpost.Auth.Sessions.{Session, is_session, authenticate}

-- a row that is found among what is left was there and was not removed
find-remove :
    (p gone : SessionRow → Bool) (rows : List SessionRow) (s : SessionRow)
    → find p (remove gone rows) ≡ some s
    → gone s ≡ false
unfolding find remove filter
find-remove p gone [] s h = cc
find-remove p gone (r ∷ rows) s h = ground (arith, find-remove p gone rows s)

-- the sessions after a deletion, as a token finds them
refused_or :
    (core : Primitives) (gone : SessionRow → Bool) (token : String) (now id : ℕ) (t : Tables)
    (s : Session)
    → ((r : SessionRow)
        → is_session (core.sha256 token) r ≡ true
        → gone r ≡ false
        → eqb r.user_id id ≡ false)
    → authenticate core token now (delete_sessions gone t) ≡ ok s
    → s.user.id ≢ id
unfolding authenticate delete_sessions is_user
refused_or core gone token now id t s stays h =
    elim (Option-cases (find (is_session (core.sha256 token)) (remove gone t.sessions))) [
      | inl missing ↦ absurd (ground arith)
      | inr (r, found) ↦ elim (Option-cases (find (is_user r.user_id) t.users)) [
        | inl missing ↦ absurd (ground arith)
        | inr (u, owner) ↦ ground (
          arith,
          stays r,
          find-some (is_session (core.sha256 token)) (remove gone t.sessions) r found,
          find-remove (is_session (core.sha256 token)) gone t.sessions r found,
          find-some (is_user r.user_id) t.users u owner,
        )
      ]
    ]

authenticate-audited :
    (core : Primitives) (entry : Entry) (kind object token : String) (now : ℕ) (t : Tables)
    → authenticate core token now (audited entry kind object t) ≡ authenticate core token now t
unfolding authenticate audited
authenticate-audited core entry kind object token now t = refl

-- a password is no part of an answer
authenticate-with_password :
    (core : Primitives) (id : ℕ) (hash token : String) (now : ℕ) (t : Tables)
    → authenticate core token now (update_users (is_user id) (with_password hash) t)
      ≡ authenticate core token now t
unfolding authenticate update_users with_password is_user
authenticate-with_password core id hash token now t =
    elim (Option-cases (find (is_session (core.sha256 token)) t.sessions)) [
      | inl missing ↦ ground arith
      | inr (r, found) ↦ elim (Option-cases (find (is_user r.user_id) t.users)) [
        | inl missing ↦ ground (
          arith,
          find-update_where-adjust (is_user r.user_id) (is_user id) (with_password hash) (λ u. refl)
              t.users,
        )
        | inr (u, owner) ↦ ground (
          arith,
          find-update_where-adjust (is_user r.user_id) (is_user id) (with_password hash) (λ u. refl)
              t.users,
        )
      ]
    ]

find-remove-same :
    (p gone : SessionRow → Bool)
    → ((r : SessionRow) → p r ≡ true → gone r ≡ false)
    → (rows : List SessionRow) → find p (remove gone rows) ≡ find p rows
unfolding find remove filter
find-remove-same p gone stays [] = refl
find-remove-same p gone stays (r ∷ rows) =
    ground (arith, stays r, find-remove-same p gone stays rows)

authenticate-delete :
    (core : Primitives) (token : String) (now : ℕ) (gone : SessionRow → Bool) (t : Tables)
    → ((r : SessionRow) → is_session (core.sha256 token) r ≡ true → gone r ≡ false)
    → authenticate core token now (delete_sessions gone t) ≡ authenticate core token now t
unfolding authenticate delete_sessions
authenticate-delete core token now gone t stays =
    rw (find-remove-same (is_session (core.sha256 token)) gone stays t.sessions) refl

module _ (core : Primitives) (id : ℕ) (entry : Entry) (t : Tables) {t' : Tables} where
  reset_ok :
      (password : String)
      → reset_password core id password entry t ≡ ok t'
      → (hash : String) × (t'
          ≡ audited entry "user"
              (core.shown id)
              (delete_sessions (is_of id) (update_users (is_user id) (with_password hash) t)))
  unfolding reset_password
  reset_ok password h = elim (Option-cases (core.hash_password password)) [
    | inl failed ↦ absurd (ground arith)
    | inr (hash, hashed) ↦ (hash, ground arith)
  ]

  change_ok :
      (current password keep : String)
      → change_password core id current password keep entry t ≡ ok t'
      → (hash : String) × (u : UserRow) × (find (is_user id) t.users ≡ some u)
        × (core.verify_password current u.password_hash ≡ true)
        × (t'
            ≡ audited
                (record entry { actor_id = id })
                "user"
                (core.shown id)
                (update_users
                  (is_user id)
                  (with_password hash)
                  (delete_sessions (is_other id (core.sha256 keep)) t)))
  unfolding change_password
  change_ok current password keep h = elim (Option-cases (find (is_user id) t.users)) [
    | inl missing ↦ absurd (ground arith)
    | inr (u, found) ↦ elim (Option-cases (core.hash_password password)) [
      | inl failed ↦ absurd (ground arith)
      | inr (hash, hashed) ↦ (hash, u, found, ground arith, ground arith)
    ]
  ]

  -- A reset ends every session of its user: a token that authenticates after it, at any time,
  -- belongs to another user.
  pub reset_ends_sessions :
      (password token : String) (now : ℕ) (s : Session)
      → reset_password core id password entry t ≡ ok t'
      → authenticate core token now t' ≡ ok s
      → s.user.id ≢ id
  unfolding is_of
  reset_ends_sessions password token now s h valid =
      let (hash, same) = reset_ok password h in
      let base = update_users (is_user id) (with_password hash) t in
      refused_or core (is_of id) token now id base s (λ r asked stays. stays)
        (sym (
            authenticate-audited core entry "user" (core.shown id) token now
              (delete_sessions (is_of id) base))
          ∙ ap (λ x. authenticate core token now x) (sym same)
          ∙ valid)

  -- A user who changes the password keeps the session that was named and ends the others: the kept
  -- token is answered as before, and a token with another hash is refused afterwards or belongs to
  -- another user. The call is accepted only with the current password.
  pub change_keeps_one :
      (current password keep token : String) (now : ℕ)
      → change_password core id current password keep entry t ≡ ok t'
      → (authenticate core keep now t' ≡ authenticate core keep now t)
        × ((core.sha256 token ≡ core.sha256 keep)
            ⊎ ((e : AuthError) × (authenticate core token now t' ≡ err e))
            ⊎ ((s : Session) × (authenticate core token now t' ≡ ok s) × (s.user.id ≢ id)))
        × ((u : UserRow) × (find (is_user id) t.users ≡ some u)
            × (core.verify_password current u.password_hash ≡ true))
  unfolding is_other is_session
  change_keeps_one current password keep token now h =
      let (hash, u, found, verified, same) = change_ok current password keep h in
      let gone = is_other id (core.sha256 keep) in
      let rest = delete_sessions gone t in
      let step = λ (x : String).
        (ap (λ d. authenticate core x now d) same
          ∙ authenticate-audited core (record entry { actor_id = id }) "user" (core.shown id) x now
              (update_users (is_user id) (with_password hash) rest)
          ∙ authenticate-with_password core id hash x now rest) in
      (
        step keep ∙ authenticate-delete core keep now gone t (λ r asked. ground arith),
        elim (Result-cases (authenticate core token now t')) [
          | inr (e, refused) ↦ inr (inl (e, refused))
          | inl (s, valid) ↦ elim (Bool-cases (core.sha256 token == core.sha256 keep)) [
            | inl one ↦ inl (ground (arith, eq_iff (core.sha256 token) (core.sha256 keep)))
            | inr other ↦ inr (
                inr (
                  s,
                  valid,
                  refused_or core gone token now id t s
                      (λ r asked stays. ground (
                        arith,
                        eq_iff r.token_hash (core.sha256 token),
                        eq_iff r.token_hash (core.sha256 keep),
                        eq_iff (core.sha256 token) (core.sha256 keep),
                      ))
                      (sym (step token) ∙ valid),
                ))
          ]
        ],
        (u, found, verified),
      )
