-- ===== src/Actions/Authorized.antt =====
-- Requests are authorized, and run once.
use watchpost.Base.{
  ℕ, ◌≤◌, String, ◌≡◌, refl, ◌∙◌, ap, true, some, List, eqb, arith, find, find-some, find-any,
  find-update_where-adjust, adjust, map_option, All, All-map, All-update_hit, inl, inr, ok, err,
  Bool-cases, Option-cases,
}
use watchpost.Actions.{
  Registry, Request, Tables, is_request, is_approved, claim, claimable, claim_row, update_requests,
  not_approved,
}
use watchpost.Actions.Steps.{
  Steps, done, then, is_authorized, rank, Change, added, updated, extended,
}
use watchpost.Actions.Changed.{step-Change}

abbrev pub IsAuthorized : Registry → Request → Type 0
IsAuthorized r x = is_authorized r x ≡ true

change-IsAuthorized :
    (r r' : Registry) (rows rows' : List Request)
    → Change r rows r' rows'
    → All (IsAuthorized r) rows
    → All (IsAuthorized r') rows'
change-IsAuthorized r r' rows rows' (added x reg same known fresh) all =
    rw reg (rw same (known, all))
change-IsAuthorized r r' rows rows' (updated hit f reg same ids keeps grows) all =
    rw reg (rw same (All-update_hit (IsAuthorized r) hit f keeps rows all))
change-IsAuthorized r r' rows rows' (extended same more) all =
    rw same (All-map (IsAuthorized r) (IsAuthorized r') more rows all)

-- Calls in any number and order, of any users, and executions that overlap them, keep every request
-- authorized: its action is known, and where the action needs approval the request is either still
-- waiting for it or was approved by another user than the one who asked.
pub steps-IsAuthorized :
    (shown : ℕ → String) (error_text : String → String) (r : Registry) (t : Tables) (r' : Registry)
    (t' : Tables)
    → Steps shown error_text r t r' t'
    → All (IsAuthorized r) t.requests
    → All (IsAuthorized r') t'.requests
steps-IsAuthorized shown error_text r t _ _ done all = all
steps-IsAuthorized shown error_text r t r' t' (then {mid = mid} {before = before} steps step) all =
    change-IsAuthorized mid r' before.requests t'.requests
      (step-Change shown error_text mid before r' t' step)
      (steps-IsAuthorized shown error_text r t mid before steps all)

-- a request goes only forward
change-forward :
    (id n : ℕ) (r r' : Registry) (rows rows' : List Request) (x : Request)
    → Change r rows r' rows'
    → find (is_request id) rows ≡ some x
    → n ≤ rank x.state
    → (y : Request) × (find (is_request id) rows' ≡ some y) × (n ≤ rank y.state)
unfolding find is_request
change-forward id n r r' rows rows' x (added z reg same known fresh) found far =
    (x, ground (arith, find-any (is_request id) rows x found), far)
change-forward id n r r' rows rows' x (updated hit f reg same ids keeps grows) found far = (
  adjust hit f x,
  (rw same (find-update_where-adjust (is_request id) hit f (λ z. ap (λ i. eqb i id) (ids z)) rows)
      ∙ ap (map_option (adjust hit f)) found),
  elim (Bool-cases (hit x)) [ inl e ↦ rw e (omega (arith, far, grows x e)) | inr e ↦ rw e far ],
)
change-forward id n r r' rows rows' x (extended same more) found far = (x, rw same found, far)

steps-forward :
    (shown : ℕ → String) (error_text : String → String) (id n : ℕ) (r : Registry) (t : Tables)
    (x : Request) (r' : Registry) (t' : Tables)
    → Steps shown error_text r t r' t'
    → find (is_request id) t.requests ≡ some x
    → n ≤ rank x.state
    → (y : Request) × (find (is_request id) t'.requests ≡ some y) × (n ≤ rank y.state)
steps-forward shown error_text id n r t x _ _ done found far = (x, found, far)
steps-forward shown error_text id n r t x r' t' (then {mid = mid} {before = before} steps step)
      found far =
    let (y, known, further) =
      steps-forward shown error_text id n r t x mid before steps found far in
    change-forward id n mid r' before.requests t'.requests y
      (step-Change shown error_text mid before r' t' step) known further

claim_ok :
    (shown : ℕ → String) (error_text : String → String) (id now : ℕ) (t : Tables) {t' : Tables}
    {x : Request}
    → claim shown error_text id now t ≡ ok (t', x)
    → (y : Request) × (find (is_request id) t'.requests ≡ some y) × (2 ≤ rank y.state)
unfolding claim update_requests claimable claim_row is_request
claim_ok shown error_text id now t {t'} {x} h =
    elim (Option-cases (find (is_request id) t.requests)) [
      | inl missing ↦ absurd (ground arith)
      | inr (y, found) ↦
          let rows =
            find-update_where-adjust (is_request id) (claimable id) (claim_row now) (λ z. refl)
              t.requests in
          (
            claim_row now y,
            ground (arith, rows, find-some (is_request id) t.requests y found),
            omega arith,
          )
    ]

claim_refused :
    (shown : ℕ → String) (error_text : String → String) (id now : ℕ) (t : Tables) (y : Request)
    → find (is_request id) t.requests ≡ some y
    → 2 ≤ rank y.state
    → claim shown error_text id now t ≡ err not_approved
unfolding claim is_approved
claim_refused shown error_text id now t y found far = ground arith

-- An action runs at most once: after a request has been claimed for execution, whatever calls
-- follow and whether the execution ends or not, it cannot be claimed again.
pub claimed_once :
    (shown : ℕ → String) (error_text : String → String) (id now later : ℕ) (r : Registry)
    (t claimed : Tables) (x : Request) (r' : Registry) (t' : Tables)
    → claim shown error_text id now t ≡ ok (claimed, x)
    → Steps shown error_text r claimed r' t'
    → claim shown error_text id later t' ≡ err not_approved
claimed_once shown error_text id now later r t claimed x r' t' h steps =
    let (y, found, far) = claim_ok shown error_text id now t h in
    let (z, known, further) =
      steps-forward shown error_text id 2 r claimed y r' t' steps found far in
    claim_refused shown error_text id later t' z known further
