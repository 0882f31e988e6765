-- ===== src/Actions/Changed.antt =====
-- Each call changes the requests in one of the ways of `Change`.
use mathlib.Core.Path.{subst}
use watchpost.Base.{
  ℕ, String, ◌≡◌, refl, sym, ap, true, false, arith, inl, inr, ok, err, Result, Option-cases,
  Result-cases,
}
use watchpost.Base.Assoc.{lookup}
use watchpost.Store.Audit.{Entry}
use watchpost.Actions.{
  Registry, completed, failed, Request, Tables, next_request, audited, insert_request, new_request,
  is_pending, approvable, approve_row, claimable, claim_row, running, finish_row, update_requests,
  request, approve, claim, finish, is_request, is_executing, is_approved,
}
use watchpost.Base.{find}
use watchpost.Actions.Steps.{
  Step, registered, requested, granted, claimed, finished, is_authorized, Change, updated,
  register-Change, insert-Change, new_request-is_authorized,
}

-- a row that was not pending and changes neither its action nor its users
kept_authority :
    (r : Registry) (x y : Request)
    → y.kind ≡ x.kind
    → y.approved_by ≡ x.approved_by
    → y.requested_by ≡ x.requested_by
    → is_pending x.state ≡ false
    → is_authorized r x ≡ true
    → is_authorized r y ≡ true
kept_authority r x y kind approver user started known = elim (Option-cases (lookup x.kind r)) [
  | inl unknown ↦ absurd (ground arith)
  | inr (d, found) ↦ ground arith
]

module _ (shown : ℕ → String) (error_text : String → String) (r : Registry) (t : Tables) where
  request-Change :
      (kind post_id parameters : String) (user : ℕ) (key : String) (now : ℕ) (entry : Entry)
      (id : ℕ) {t' : Tables}
      → request shown error_text r kind post_id parameters user key now entry t ≡ ok (t', id)
      → Change r t.requests r t'.requests
  unfolding request new_request
  request-Change kind post_id parameters user key now entry id {t'} h =
      elim (Option-cases (lookup kind r)) [
        | inl unknown ↦ absurd (ground arith)
        | inr (d, known) ↦
            let n = next_request t.requests in
            let x = new_request d n kind post_id parameters user key now in
            elim (Result-cases (insert_request x t)) [
              | inr (e, refused) ↦ absurd (ground arith)
              | inl (u, inserted) ↦
                  let same : audited entry user (shown n) u ≡ t' = ground arith in
                  subst (λ d'. Change r t.requests r d'.requests) same
                    (insert-Change x entry user (shown n) r t inserted refl
                      (new_request-is_authorized r d n kind post_id parameters user key now known))
            ]
      ]

  approve-Change :
      (id approver now : ℕ) (entry : Entry) {t' : Tables}
      → approve shown error_text id approver now entry t ≡ ok t'
      → Change r t.requests r t'.requests
  unfolding approve update_requests audited approvable approve_row
  approve-Change id approver now entry h =
      updated (approvable id approver) (approve_row approver now) refl (ground arith) (λ x. refl)
        (λ x hit known. elim (Option-cases (lookup x.kind r)) [
          | inl unknown ↦ absurd (ground arith)
          | inr (d, found) ↦ ground arith
        ])
        (λ x hit. ground arith)

  claim-Change :
      (id now : ℕ) (x : Request) {t' : Tables}
      → claim shown error_text id now t ≡ ok (t', x)
      → Change r t.requests r t'.requests
  unfolding claim update_requests claimable claim_row is_pending is_approved
  claim-Change id now x h = elim (Option-cases (find (is_request id) t.requests)) [
    | inl missing ↦ absurd (ground arith)
    | inr (y, found) ↦
        updated (claimable id) (claim_row now) refl (ground arith) (λ z. refl)
          (λ z hit known. kept_authority r z (claim_row now z) refl refl refl (ground arith) known)
          (λ z hit. ground arith)
  ]

  finish-Change :
      (id : ℕ) (answer : Result String String) (now : ℕ) (entry : Entry)
      → Change r t.requests r (finish shown error_text id answer now entry t).requests
  unfolding finish update_requests audited running finish_row is_pending is_executing
  finish-Change id (ok result) now entry =
      updated (running id) (finish_row completed result now) refl refl (λ z. refl)
        (λ z hit known.
          kept_authority r z (finish_row completed result now z) refl refl refl (ground arith)
            known)
        (λ z hit. ground arith)
  finish-Change id (err e) now entry =
      updated (running id) (finish_row failed (error_text e) now) refl refl (λ z. refl)
        (λ z hit known.
          kept_authority r z (finish_row failed (error_text e) now z) refl refl refl (ground arith)
            known)
        (λ z hit. ground arith)

pub step-Change :
    (shown : ℕ → String) (error_text : String → String) (r : Registry) (t : Tables) (r' : Registry)
    (t' : Tables)
    → Step shown error_text r t r' t'
    → Change r t.requests r' t'.requests
step-Change shown error_text r t r' t' (registered kind d h same) =
    register-Change kind d r t.requests t'.requests h (ap (λ (x : Tables). x.requests) same)
step-Change shown error_text r t r' t'
      (requested kind post_id parameters user key now entry id h same) =
    subst (λ x. Change r t.requests x t'.requests) (sym same)
      (request-Change shown error_text r t kind post_id parameters user key now entry id h)
step-Change shown error_text r t r' t' (granted id approver now entry h same) =
    subst (λ x. Change r t.requests x t'.requests) (sym same)
      (approve-Change shown error_text r t id approver now entry h)
step-Change shown error_text r t r' t' (claimed id now x h same) =
    subst (λ x. Change r t.requests x t'.requests) (sym same)
      (claim-Change shown error_text r t id now x h)
step-Change shown error_text r t r' t' (finished id answer now entry h same) =
    subst (λ x. Change r t.requests x t'.requests) (sym same)
      (subst (λ (d : Tables). Change r t.requests r d.requests) h
        (finish-Change shown error_text r t id answer now entry))
