-- ===== src/Fleet/Received.antt =====
-- The receipt of messages, with the passes of the retention between.
use mathlib.Core.Path.{subst}
use watchpost.Base.{
  text_before, text_before-lt, ◌+◌, ◌*◌, ◌-◌, ◌≤◌, ◌<◌, ◌&&◌, Bool, Bool-cases, eqb, [], List, sym,
  ℕ, String, ◌≡◌, ◌≢◌, refl, ◌∙◌, ap, true, false, some, ◌∷◌, arith, eq_iff, eq_refl, any, find,
  inl, inr, ok, Option-cases,
}
use watchpost.Store.Audit.{Entry}
use watchpost.Ingest.Budget.{minute}
use watchpost.Retention.{delete_first}
use watchpost.Retention.Batches.{delete_first-other}
use watchpost.Replicated.Snapshot.Ordered.{rev_onto, any-rev_onto}
use watchpost.Fleet.{
  Envelope, Peer, Inbound, Tables, Primitives, is_peer, enroll, is_acceptable, is_event, receive,
  queue, revoke, audited, prune_inbox, day,
}

-- An accepted call at the time `now`, of this node or of a peer, or a pass of the retention, which
-- keeps an event for the time `window`.
pub data Step (core : Primitives) (window now : ℕ) (t t' : Tables) : Type 0 where
  enrolled :
      (id secret : String) (entry : Entry)
      → enroll core id secret now entry t ≡ ok t'
      → Step core window now t t'
  received :
      (peer secret : String) (e : Envelope)
      → receive core peer secret e now t ≡ ok t'
      → Step core window now t t'
  queued :
      (peer event kind payload : String)
      → queue peer event kind payload now t ≡ ok t'
      → Step core window now t t'
  revoked :
      (id : String) (entry : Entry) → revoke id now entry t ≡ ok t' → Step core window now t t'
  pruned :
      (batch : ℕ)
      → window ≤ now
      → t' ≡ prune_inbox batch (now - window) t
      → Step core window now t t'

-- calls one after the other, from tables at a time
pub data Steps (core : Primitives) (window start : ℕ) (t : Tables) : ℕ → Tables → Type 0 where
  done : Steps core window start t start t
  then :
      {mid last : Tables} {at : ℕ} (now : ℕ)
      → Steps core window start t at mid
      → at ≤ now
      → Step core window now mid last
      → Steps core window start t now last

receive_ok :
    (core : Primitives) (peer secret : String) (e : Envelope) (now : ℕ) (t : Tables) {t' : Tables}
    → receive core peer secret e now t ≡ ok t'
    → (row : Inbound) × (t' ≡ record t { inbox = row ∷ t.inbox })
      × (row.peer_id ≡ peer)
      × (row.event_id ≡ e.event_id)
      × ((p : Peer) × (find (is_peer peer) t.peers ≡ some p) × (p.secret_hash ≡ core.sha256 secret))
unfolding receive
receive_ok core peer secret e now t {t'} h = elim (Option-cases (find (is_peer peer) t.peers)) [
  | inl missing ↦ absurd (ground arith)
  | inr (p, found) ↦ elim (Option-cases (core.decode e.signature)) [
    | inl unreadable ↦ absurd (ground arith)
    | inr (mark, read) ↦ (
      record {
        peer_id = peer;
        event_id = e.event_id;
        received_at = now;
        payload_hash = core.sha256 e.payload;
      },
      ground arith,
      refl,
      refl,
      (p, found, ground (arith, eq_iff p.secret_hash (core.sha256 secret))),
    )
  ]
]

-- the row of an event that was received at a time
abbrev pub is_row : String → String → ℕ → Inbound → Bool
is_row peer event at r = is_event peer event r && eqb r.received_at at

-- the row of an event is in the inbox, or its time to be kept is over but for a second
pub data IsKept (window : ℕ) (peer event : String) (at now : ℕ) (t : Tables) : Type 0 where
  there : any (is_row peer event at) t.inbox ≡ true → IsKept window peer event at now t
  over : at + window < now + 1_000_000_000 → IsKept window peer event at now t

row_time :
    (peer event : String) (at : ℕ) (r : Inbound)
    → is_row peer event at r ≡ true
    → r.received_at ≡ at
row_time peer event at r h = ground arith

prune-keeps :
    (peer event : String) (at batch cutoff : ℕ) (t : Tables)
    → text_before at cutoff ≡ false
    → any (is_row peer event at) (prune_inbox batch cutoff t).inbox
      ≡ any (is_row peer event at) t.inbox
unfolding prune_inbox any
prune-keeps peer event at batch cutoff t young =
    let old = λ (r : Inbound). text_before r.received_at cutoff in
    let rows = rev_onto t.inbox [] in
    let hit = is_row peer event at in
    ground (
      arith,
      any-rev_onto hit (delete_first old batch rows).0 [],
      any-rev_onto hit t.inbox [],
      delete_first-other old hit
          (λ (r : Inbound) q.
            subst (λ i. text_before i cutoff ≡ false) (sym (row_time peer event at r q)) young)
          batch rows,
    )

step-IsKept :
    (core : Primitives) (window now : ℕ) (peer event : String) (at : ℕ) (t t' : Tables)
    → Step core window now t t'
    → any (is_row peer event at) t.inbox ≡ true
    → IsKept window peer event at now t'
unfolding enroll queue revoke audited any
step-IsKept core window now peer event at t t' (enrolled id secret entry h) known =
    there (ground arith)
step-IsKept core window now peer event at t t' (received p secret e h) known =
    let (row, same, _, _, _) = receive_ok core p secret e now t h in there (ground arith)
step-IsKept core window now peer event at t t' (queued p e kind payload h) known =
    there (ground arith)
step-IsKept core window now peer event at t t' (revoked id entry h) known = there (ground arith)
step-IsKept core window now peer event at t t' (pruned batch past same) known =
    elim (Bool-cases (text_before at (now - window))) [
      | inl old ↦ over (ground (arith, text_before-lt at (now - window) old))
      | inr young ↦ there (
          ap (λ d. any (is_row peer event at) d.inbox) same
          ∙ prune-keeps peer event at batch (now - window) t young
          ∙ known)
    ]

steps-IsKept :
    (core : Primitives) (window start : ℕ) (peer event : String) (at : ℕ) (t : Tables) (now : ℕ)
    (t' : Tables)
    → Steps core window start t now t'
    → any (is_row peer event at) t.inbox ≡ true
    → IsKept window peer event at now t'
steps-IsKept core window start peer event at t _ _ done known = there known
steps-IsKept core window start peer event at t _ t'
      (then {mid = mid} {at = before} now steps after step) known =
    elim (steps-IsKept core window start peer event at t before mid steps known) [
      | there kept ↦ step-IsKept core window now peer event at mid t' step kept
      | over late ↦ over (omega (arith, late, after))
    ]

any-is_row :
    (peer event : String) (at : ℕ) (rows : List Inbound)
    → any (is_row peer event at) rows ≡ true
    → any (is_event peer event) rows ≡ true
unfolding any
any-is_row peer event at [] h = cc
any-is_row peer event at (r ∷ rows) h = ground (arith, any-is_row peer event at rows)

receive-event :
    (core : Primitives) (peer secret : String) (e : Envelope) (now : ℕ) (t : Tables) {t' : Tables}
    → receive core peer secret e now t ≡ ok t'
    → (any (is_event peer e.event_id) t.inbox ≡ false)
      × (any (is_event peer e.event_id) t'.inbox ≡ true)
unfolding receive any is_event
receive-event core peer secret e now t h = elim (Option-cases (find (is_peer peer) t.peers)) [
  | inl missing ↦ absurd (ground arith)
  | inr (p, found) ↦ elim (Option-cases (core.decode e.signature)) [
    | inl unreadable ↦ absurd (ground arith)
    | inr (mark, read) ↦ ground (arith, eq_refl peer, eq_refl e.event_id)
  ]
]

receive-is_row :
    (core : Primitives) (peer secret : String) (e : Envelope) (now : ℕ) (t : Tables) {t' : Tables}
    → receive core peer secret e now t ≡ ok t'
    → (any (is_row peer e.event_id now) t'.inbox ≡ true)
      × (e.created_at ≤ now + 5 * minute)
      × (now ≤ e.created_at + day)
unfolding receive any is_event is_acceptable
receive-is_row core peer secret e now t h = elim (Option-cases (find (is_peer peer) t.peers)) [
  | inl missing ↦ absurd (ground arith)
  | inr (p, found) ↦ elim (Option-cases (core.decode e.signature)) [
    | inl unreadable ↦ absurd (ground arith)
    | inr (mark, read) ↦
        (ground (arith, eq_refl peer, eq_refl e.event_id), ground arith, ground arith)
  ]
]

-- A message is received once, though the retention forgets it: after a peer's envelope has been
-- received, and whatever accepted calls and passes of the retention follow, an envelope of that peer
-- with the same event id and the same time of creation, as a replay of the message has, is not
-- received again, under any secret. Passes keep an event for a day, five minutes and a second at
-- least, and the times of the calls do not fall.
pub received_once :
    (core : Primitives) (window : ℕ) (peer secret secret' : String) (e e' : Envelope)
    (now at later : ℕ) (t first last again : Tables)
    → day + 5 * minute + 1_000_000_000 ≤ window
    → receive core peer secret e now t ≡ ok first
    → Steps core window now first at last
    → at ≤ later
    → e'.event_id ≡ e.event_id
    → e'.created_at ≡ e.created_at
    → receive core peer secret' e' later last ≢ ok again
received_once core window peer secret secret' e e' now at later t first last again long h steps
      after same made =
    λ replayed.
      let (row, early, _) = receive-is_row core peer secret e now t h in
      let (_, _, fresh) = receive-is_row core peer secret' e' later last replayed in
      elim (steps-IsKept core window now peer e.event_id now first at last steps row) [
        | over late ↦ omega (arith, long, early, fresh, late, after, made)
        | there kept ↦ ground (
          arith,
          receive-event core peer secret' e' later last replayed,
          any-is_row peer e.event_id now last.inbox kept,
          ap (λ i. any (is_event peer i) last.inbox) same,
        )
      ]
