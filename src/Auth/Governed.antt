-- ===== src/Auth/Governed.antt =====
-- Sequences of accepted calls keep an administrator, the roles, the ids and the owners of sessions.
use mathlib.Core.Path.{subst}
use watchpost.Base.{
  sym, ◌≡◌, ◌∙◌, ap, Bool, true, List, ◌∷◌, eqb, arith, any, update_where, any-update_where, All,
  All-map, All-remove, All-update_where, Distinct, Distinct-update_where,
}
use watchpost.Auth.{UserRow, SessionRow, Tables, Primitives, is_role, is_user, is_admin}
use watchpost.Auth.Steps.{Steps, done, then, Change, added, updated, opened, closed, kept}
use watchpost.Auth.Changed.{step-Change}

abbrev pub same_user : UserRow → UserRow → Bool
same_user u v = is_user u.id v

abbrev pub IsOf : List UserRow → SessionRow → Type 0
IsOf users s = any (is_user s.user_id) users ≡ true

pub record IsGoverned (t : Tables) : Type 0 where
  pub governed : any is_admin t.users ≡ true
  pub roles : All (λ (u : UserRow). is_role u.role ≡ true) t.users
  pub distinct : Distinct same_user t.users
  pub owned : All (IsOf t.users) t.sessions

cons-more :
    (q : UserRow → Bool) (u : UserRow) (users : List UserRow)
    → any q users ≡ true
    → any q (u ∷ users) ≡ true
unfolding any
cons-more q u users h = ground arith

change-IsGoverned : (t t' : Tables) → Change t t' → IsGoverned t → IsGoverned t'
unfolding is_user
change-IsGoverned t t' (added row users sessions role fresh) k = record {
  governed = rw users (cons-more is_admin row t.users k.governed);
  roles = rw users (role, k.roles);
  distinct = rw users (fresh, k.distinct);
  owned = rw sessions (
      rw users (
        All-map (IsOf t.users) (IsOf (row ∷ t.users))
          (λ s. cons-more (is_user s.user_id) row t.users) t.sessions k.owned));
}
change-IsGoverned t t' (updated hit f gone users sessions ids roles admins) k = record {
  governed = rw users (admins k.governed);
  roles = rw users (All-update_where _ hit f roles t.users k.roles);
  distinct = rw users (
      Distinct-update_where same_user hit f (λ u v. ap (λ i. eqb i u.id) (ids v))
        (λ u v. ap (eqb v.id) (ids u)) t.users k.distinct);
  owned = rw sessions (
      rw users (
        All-remove (IsOf t.users) (IsOf (update_where hit f t.users)) gone
          (λ s o e.
            any-update_where (is_user s.user_id) hit f (λ u. ap (λ i. eqb i s.user_id) (ids u))
              t.users
            ∙ o)
          t.sessions k.owned));
}
change-IsGoverned t t' (opened row users sessions owner) k = record {
  governed = rw users k.governed;
  roles = rw users k.roles;
  distinct = rw users k.distinct;
  owned =
      rw sessions
        (subst (λ us. IsOf us row × All (IsOf us) t.sessions) (sym users) (owner, k.owned));
}
change-IsGoverned t t' (closed gone users sessions) k = record {
  governed = rw users k.governed;
  roles = rw users k.roles;
  distinct = rw users k.distinct;
  owned =
      rw sessions
        (rw users (All-remove (IsOf t.users) (IsOf t.users) gone (λ s o e. o) t.sessions k.owned));
}
change-IsGoverned t t' (kept users sessions) k = record {
  governed = rw users k.governed;
  roles = rw users k.roles;
  distinct = rw users k.distinct;
  owned = rw sessions (rw users k.owned);
}

-- From tables with an administrator, accepted calls in any number and order lead to tables with an
-- administrator, however roles are assigned; every user has a known role, no two have one id, and
-- every session belongs to a user, if this was so before.
pub steps-IsGoverned :
    (core : Primitives) (t t' : Tables) → Steps core t t' → IsGoverned t → IsGoverned t'
steps-IsGoverned core t _ done k = k
steps-IsGoverned core t t' (then {mid = mid} steps step) k =
    change-IsGoverned mid t' (step-Change core mid t' step) (steps-IsGoverned core t mid steps k)
