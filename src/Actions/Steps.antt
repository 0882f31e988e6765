-- ===== src/Actions/Steps.antt =====
-- The accepted calls as steps, the two transactions of an execution apart, and what each of them
-- does to the requests.
use mathlib.Core.Path.{subst}
use watchpost.Base.{
  ℕ, ◌≤◌, ◌<◌, String, ◌≡◌, refl, Bool, true, false, not, ◌||◌, none, some, List, [], ◌∷◌, eqb,
  arith, eq_iff, any, update_where, ok, Result,
}
use watchpost.Base.Assoc.{lookup, insert, lookup-insert}
use watchpost.Store.Audit.{Entry}
use watchpost.Actions.{
  Definition, Registry, ActionState, pending, approved, executing, completed, failed, Request,
  Tables, register, next_request, audited, insert_request, new_request, is_request, is_pending,
  request, approve, claim, finish,
}

-- An accepted call, with other calls before and after it.
pub data Step (shown : ℕ → String) (error_text : String → String) (r : Registry) (t : Tables)
    (r' : Registry) (t' : Tables) : Type 0 where
  registered :
      (kind : String) (d : Definition)
      → register kind d r ≡ ok r'
      → t' ≡ t
      → Step shown error_text r t r' t'
  requested :
      (kind post_id parameters : String) (user : ℕ) (key : String) (now : ℕ) (entry : Entry)
      (id : ℕ)
      → request shown error_text r kind post_id parameters user key now entry t ≡ ok (t', id)
      → r' ≡ r
      → Step shown error_text r t r' t'
  granted :
      (id approver now : ℕ) (entry : Entry)
      → approve shown error_text id approver now entry t ≡ ok t'
      → r' ≡ r
      → Step shown error_text r t r' t'
  claimed :
      (id now : ℕ) (x : Request)
      → claim shown error_text id now t ≡ ok (t', x)
      → r' ≡ r
      → Step shown error_text r t r' t'
  finished :
      (id : ℕ) (answer : Result String String) (now : ℕ) (entry : Entry)
      → finish shown error_text id answer now entry t ≡ t'
      → r' ≡ r
      → Step shown error_text r t r' t'

pub data Steps (shown : ℕ → String) (error_text : String → String) (r : Registry) (t : Tables)
    : Registry → Tables → Type 0 where
  done : Steps shown error_text r t r t
  then :
      {mid : Registry} {before : Tables} {last : Registry} {after : Tables}
      → Steps shown error_text r t mid before
      → Step shown error_text mid before last after
      → Steps shown error_text r t last after

-- a request of a known action that either needs no approval, or waits for it, or has that of
-- another user than its own
abbrev pub is_authorized : Registry → Request → Bool
is_authorized r x = elim (lookup x.kind r) [
  | none ↦ false
  | some d ↦ elim x.approved_by [
    | none ↦ is_pending x.state || not d.needs_approval
    | some u ↦ not (eqb x.requested_by u)
  ]
]

-- how far a request has come
abbrev pub rank : ActionState → ℕ
rank pending = 0
rank approved = 1
rank executing = 2
rank completed = 3
rank failed = 3

pub data Change (r : Registry) (rows : List Request) (r' : Registry) (rows' : List Request)
    : Type 0 where
  added :
      (x : Request)
      → r' ≡ r
      → rows' ≡ x ∷ rows
      → is_authorized r x ≡ true
      → any (is_request x.id) rows ≡ false
      → Change r rows r' rows'
  updated :
      (hit : Request → Bool) (f : Request → Request)
      → r' ≡ r
      → rows' ≡ update_where hit f rows
      → ((x : Request) → (f x).id ≡ x.id)
      → ((x : Request) → hit x ≡ true → is_authorized r x ≡ true → is_authorized r (f x) ≡ true)
      → ((x : Request) → hit x ≡ true → rank x.state < rank (f x).state)
      → Change r rows r' rows'
  extended :
      rows' ≡ rows
      → ((x : Request) → is_authorized r x ≡ true → is_authorized r' x ≡ true)
      → Change r rows r' rows'

next_request-fresh :
    (n : ℕ) (rows : List Request) → next_request rows ≤ n → any (is_request n) rows ≡ false
unfolding next_request any is_request
next_request-fresh n [] h = refl
next_request-fresh n (x ∷ rows) h = ground (arith, next_request-fresh n rows)

pub register-Change :
    (kind : String) (d : Definition) (r : Registry) (rows rows' : List Request) {r' : Registry}
    → register kind d r ≡ ok r'
    → rows' ≡ rows
    → Change r rows r' rows'
unfolding register
register-Change kind d r rows rows' {r'} h same = extended same (λ x known.
    let grown : insert kind d r ≡ r' = ground arith in
    subst (λ reg. is_authorized reg x ≡ true) grown
      (ground (arith, lookup-insert kind x.kind d r, eq_iff kind x.kind)))

pub insert-Change :
    (x : Request) (entry : Entry) (user : ℕ) (object : String) (r : Registry) (t : Tables)
    {t' : Tables}
    → insert_request x t ≡ ok t'
    → x.id ≡ next_request t.requests
    → is_authorized r x ≡ true
    → Change r t.requests r (audited entry user object t').requests
unfolding insert_request audited
insert-Change x entry user object r t h fresh known =
    added x refl (ground arith) known
      (ground (arith, next_request-fresh (next_request t.requests) t.requests))

pub new_request-is_authorized :
    (r : Registry) (d : Definition) (id : ℕ) (kind post_id parameters : String) (user : ℕ)
    (key : String) (now : ℕ)
    → lookup kind r ≡ some d
    → is_authorized r (new_request d id kind post_id parameters user key now) ≡ true
unfolding new_request is_pending
new_request-is_authorized r d id kind post_id parameters user key now known = ground arith
