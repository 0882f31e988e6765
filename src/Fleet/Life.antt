-- ===== src/Fleet/Life.antt =====
-- The life of a peer: its enrolment, what it signs, and its revocation.
use watchpost.Base.{
  ◌==◌, ℕ, String, ◌≡◌, refl, ◌∙◌, ap, true, false, none, some, ◌∷◌, arith, eq_iff, eq_refl, any,
  find, find-update_where-adjust, adjust, map_option, update_where, ok, err,
}
use watchpost.Store.Audit.{Entry}
use watchpost.Fleet.{
  Envelope, Peer, Tables, Primitives, peer_unavailable, is_peer, enroll, sign, signing_bytes,
  is_acceptable, is_event, receive, is_active, revoke_row, revoke, audited,
}

not_active :
    (core : Primitives) (id given : String) (e : Envelope) (now : ℕ) (t : Tables) (p : Peer)
    → find (is_peer id) t.peers ≡ some p
    → p.state ≡ "revoked"
    → receive core id given e now t ≡ err peer_unavailable
unfolding receive
not_active core id given e now t p found ended =
    let inactive : (p.state == "active") ≡ false = rw ended refl in ground arith

module _ (core : Primitives) (id secret : String) (now : ℕ) (entry : Entry) (t : Tables)
    {t1 : Tables} (h : enroll core id secret now entry t ≡ ok t1) where
  enrolled_peer :
      (p : Peer) × (find (is_peer id) t1.peers ≡ some p)
      × (p.secret_hash ≡ core.sha256 secret)
      × (p.state ≡ "active")
      × (t1.inbox ≡ t.inbox)
      × (p.id ≡ id)
  unfolding enroll audited find is_peer
  enrolled_peer = (
    record {
      id = id;
      secret_hash = core.sha256 secret;
      state = "active";
      created_at = now;
      revoked_at = none;
    },
    ground (arith, eq_refl id),
    refl,
    refl,
    ground arith,
    refl,
  )

  signed_received :
      (e : Envelope) (later : ℕ)
      → ((text : String) → core.decode (core.encode text) ≡ some text)
      → is_acceptable later e ≡ true
      → any (is_event id e.event_id) t.inbox ≡ false
      → (t2 : Tables) × (receive core id secret (sign core secret e) later t1 ≡ ok t2)
  unfolding receive sign signing_bytes is_acceptable
  signed_received e later back acceptable fresh =
      let (p, found, hash, active, inbox, own) = enrolled_peer in
      let bytes = core.hmac secret (core.json (record e { signature = "" })) in
      (
        record t1 {
          inbox =
              record {
                peer_id = id;
                event_id = e.event_id;
                received_at = later;
                payload_hash = core.sha256 e.payload;
              }
              ∷ t1.inbox;
        },
        ground (
          arith,
          back bytes,
          eq_refl bytes,
          eq_iff p.state "active",
          eq_iff p.secret_hash (core.sha256 secret),
        ),
      )

  revoked_row :
      (p : Peer)
      → (p.id ≡ id)
      → (p.state ≡ "active")
      → (at : ℕ) → (adjust (is_active id) (revoke_row at) p).state ≡ "revoked"
  unfolding is_active revoke_row is_peer
  revoked_row p own active at = ground (arith, eq_iff p.id id, eq_iff p.state "active")

  same_peer : (at : ℕ) (p : Peer) → is_peer id (revoke_row at p) ≡ is_peer id p
  unfolding is_peer revoke_row
  same_peer at p = refl

  revoked_peers :
      (at : ℕ) (leaving : Entry) (t2 : Tables)
      → revoke id at leaving t1 ≡ ok t2
      → find (is_peer id) t2.peers
        ≡ find (is_peer id) (update_where (is_active id) (revoke_row at) t1.peers)
  unfolding revoke audited
  revoked_peers at leaving t2 gone = ground arith

  revoked_refuses :
      (e : Envelope) (given : String) (at later : ℕ) (leaving : Entry) (t2 : Tables)
      → revoke id at leaving t1 ≡ ok t2
      → receive core id given e later t2 ≡ err peer_unavailable
  revoked_refuses e given at later leaving t2 gone =
      let (p, found, hash, active, inbox, own) = enrolled_peer in
      not_active core id given e later t2 (adjust (is_active id) (revoke_row at) p)
        (revoked_peers at leaving t2 gone
          ∙ find-update_where-adjust (is_peer id) (is_active id) (revoke_row at) (same_peer at)
              t1.peers
          ∙ ap (map_option (adjust (is_active id) (revoke_row at))) found)
        (revoked_row p own active at)

  -- What a peer signs with the secret of its enrolment is received: an envelope within the bounds
  -- of clock and size, with an event id that the peer has not used, where decoding undoes encoding.
  -- After a revocation of the peer every envelope is refused, under any secret.
  pub peer_life :
      (e other : Envelope) (given : String) (later at late : ℕ) (leaving : Entry) (t3 : Tables)
      → ((text : String) → core.decode (core.encode text) ≡ some text)
      → is_acceptable later e ≡ true
      → any (is_event id e.event_id) t.inbox ≡ false
      → revoke id at leaving t1 ≡ ok t3
      → ((t2 : Tables) × (receive core id secret (sign core secret e) later t1 ≡ ok t2))
        × (receive core id given other late t3 ≡ err peer_unavailable)
  peer_life e other given later at late leaving t3 back acceptable fresh gone = (
    signed_received e later back acceptable fresh,
    revoked_refuses other given at late leaving t3 gone,
  )
