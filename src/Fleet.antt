-- ===== src/Fleet.antt =====
-- internal/fleet/fleet.go: peers, and the events that they exchange. HMAC, SHA-256, base64 and the
-- JSON text of an envelope are the record `Primitives`; a time is in nanoseconds.
pub mod Received
pub mod Life
use Prim.Native.String.{len}
use watchpost.Base.{
  text_before, ℕ, suc, ◌+◌, ◌*◌, ◌-◌, String, Bool, true, false, not, ◌&&◌, ◌||◌, Option, none,
  some, List, [], ◌∷◌, ◌==◌, eqb, ltb, leb, any, count, find, filter, length, map, update_where,
  Result, ok, err, ◌>>=◌, ◌>>◌, guard, require, if◌then◌else◌,
}
use watchpost.Store.Tables.{Db}
use watchpost.Store.Audit.{Entry, knows_actor, insert_audit}
use watchpost.Ingest.Budget.{minute}
use watchpost.Retention.{delete_first}
use watchpost.Replicated.Snapshot.Ordered.{rev_onto}
use watchpost.Replicated.Snapshot.{order_by, text_le}

pub record Envelope : Type 0 where
  pub event_id : String
  pub kind : String
  pub created_at : ℕ
  pub payload : String
  pub signature : String

pub record Peer : Type 0 where
  pub id : String
  pub secret_hash : String
  pub state : String
  pub created_at : ℕ
  pub revoked_at : Option ℕ

pub record Inbound : Type 0 where
  pub peer_id : String
  pub event_id : String
  pub received_at : ℕ
  pub payload_hash : String

pub record Outbound : Type 0 where
  pub peer_id : String
  pub event_id : String
  pub kind : String
  pub payload : String
  pub created_at : ℕ
  pub delivered_at : Option ℕ

pub record Tables : Type 0 where
  pub peers : List Peer
  pub inbox : List Inbound
  pub outbox : List Outbound
  pub db : Db

pub data FleetError : Type 0 where
  id_required constraint_failed peer_unavailable authentication_failed invalid_signature :
      FleetError
  invalid_envelope duplicate_event invalid_payload peer_not_found : FleetError

pub record Primitives : Type 0 where
  pub sha256 : String → String
  pub hmac : String → String → String
  pub encode : String → String
  pub decode : String → Option String
  pub json : Envelope → String

abbrev pub max_payload : ℕ
max_payload = 262_144

abbrev pub day : ℕ
day = 24 * 60 * minute

unfoldable pub is_peer : String → Peer → Bool
is_peer id p = p.id == id

unfoldable pub audited : Entry → String → Tables → Tables
unfolding insert_audit
audited entry id t = record t {
  db = insert_audit (record entry { object_type = "peer"; object_id = id }) t.db;
}

-- `Enroll`, with the secret that is drawn at random
unfoldable pub enroll : Primitives → String → String → ℕ → Entry → Tables → Result FleetError Tables
unfolding any is_peer audited
enroll core id secret now entry t = do
  guard (not (id == "")) id_required
  guard (not (any (is_peer id) t.peers)) constraint_failed
  let row : Peer = record {
    id = id;
    secret_hash = core.sha256 secret;
    state = "active";
    created_at = now;
    revoked_at = none;
  }
  guard (knows_actor entry t.db) constraint_failed
  ok (audited entry id (record t { peers = row ∷ t.peers }))

-- `signingBytes`
unfoldable pub signing_bytes : Primitives → Envelope → String
signing_bytes core e = core.json (record e { signature = "" })

-- `Sign`
unfoldable pub sign : Primitives → String → Envelope → Envelope
unfolding signing_bytes
sign core secret e = record e { signature = core.encode (core.hmac secret (signing_bytes core e)) }

-- the clock and size bounds of an envelope; the subtraction stops at 0, before every time
unfoldable pub is_acceptable : ℕ → Envelope → Bool
is_acceptable now e = not (
    e.event_id == ""
    || ltb e.created_at (now - day)
    || ltb (now + 5 * minute) e.created_at
    || ltb max_payload (len e.payload))

unfoldable pub is_event : String → String → Inbound → Bool
is_event peer event i = i.peer_id == peer && i.event_id == event

-- `Receive`; peer and event are the primary key of the inbox
unfoldable pub receive :
    Primitives → String → String → Envelope → ℕ → Tables → Result FleetError Tables
unfolding find is_peer signing_bytes is_acceptable any is_event
receive core peer secret e now t = do
  p ← require (find (is_peer peer) t.peers) peer_unavailable
  guard (p.state == "active") peer_unavailable
  guard (p.secret_hash == core.sha256 secret) authentication_failed
  signature ← require (core.decode e.signature) invalid_signature
  guard (signature == core.hmac secret (signing_bytes core e)) invalid_signature
  guard (is_acceptable now e) invalid_envelope
  guard (not (any (is_event peer e.event_id) t.inbox)) duplicate_event
  let row : Inbound = record {
    peer_id = peer;
    event_id = e.event_id;
    received_at = now;
    payload_hash = core.sha256 e.payload;
  }
  ok (record t { inbox = row ∷ t.inbox })

-- the pruning of the inbox by internal/retention/retention.go: of the old rows, the first ones; the
-- newest row stands first here
unfoldable pub prune_inbox : ℕ → ℕ → Tables → Tables
unfolding delete_first
prune_inbox batch cutoff t = record t {
  inbox =
      rev_onto
        (delete_first (λ (r : Inbound). text_before r.received_at cutoff) batch
          (rev_onto t.inbox [])).0
        [];
}

unfoldable pub is_queued : String → String → Outbound → Bool
is_queued peer event o = o.peer_id == peer && o.event_id == event

-- `Queue`, of the JSON text of a payload
unfoldable pub queue : String → String → String → String → ℕ → Tables → Result FleetError Tables
unfolding any is_queued is_peer
queue peer event kind payload now t = do
  guard (not (ltb max_payload (len payload))) invalid_payload
  guard (any (is_peer peer) t.peers) constraint_failed
  guard (not (any (is_queued peer event) t.outbox)) constraint_failed
  let row : Outbound = record {
    peer_id = peer;
    event_id = event;
    kind = kind;
    payload = payload;
    created_at = now;
    delivered_at = none;
  }
  ok (record t { outbox = row ∷ t.outbox })

-- `WHERE id=? AND state='active'`
unfoldable pub is_active : String → Peer → Bool
unfolding is_peer
is_active id p = is_peer id p && p.state == "active"

unfoldable pub revoke_row : ℕ → Peer → Peer
revoke_row now p = record p { state = "revoked"; revoked_at = some now }

-- `Revoke`
unfoldable pub revoke : String → ℕ → Entry → Tables → Result FleetError Tables
unfolding count is_active update_where revoke_row audited
revoke id now entry t = do
  guard (eqb (count (is_active id) t.peers) 1) peer_not_found
  guard (knows_actor entry t.db) constraint_failed
  ok (audited entry id (record t { peers = update_where (is_active id) (revoke_row now) t.peers }))

pub record PeerStatus : Type 0 where
  pub id : String
  pub state : String
  pub created_at : ℕ
  pub revoked_at : Option ℕ
  pub pending : ℕ
  pub delivered : ℕ
  pub received : ℕ

unfoldable pub is_delivered : Outbound → Bool
is_delivered o = elim o.delivered_at [ none ↦ false | some t ↦ true ]

unfoldable pub status_of : Tables → Peer → PeerStatus
unfolding count is_delivered
status_of t p = record {
  id = p.id;
  state = p.state;
  created_at = p.created_at;
  revoked_at = p.revoked_at;
  pending = count (λ o. o.peer_id == p.id && not (is_delivered o)) t.outbox;
  delivered = count (λ o. o.peer_id == p.id && is_delivered o) t.outbox;
  received = count (λ i. i.peer_id == p.id) t.inbox;
}

-- `List`
unfoldable pub list : Tables → List PeerStatus
unfolding status_of order_by
list t = map (status_of t) (order_by (λ (p q : Peer). text_le p.id q.id) t.peers)
