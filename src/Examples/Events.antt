-- ===== src/Examples/Events.antt =====
-- An event of a peer, received and sent again.
use watchpost.Base.{ℕ, ◌*◌, arith, ◌≡◌, ◌≢◌, refl, none, some, [], ◌∷◌, ok}
use watchpost.Store.Tables.{empty_db}
use watchpost.Fleet.{Envelope, Peer, Tables, Primitives, day, receive, queue}
use watchpost.Fleet.Received.{done, then, queued, received_once}

abbrev core : Primitives
core = record {
  sha256 = λ t. t;
  hmac = λ s t. s;
  encode = λ t. t;
  decode = λ t. some t;
  json = λ e. e.payload;
}

abbrev peer : Peer
peer = record {
  id = "p";
  secret_hash = "secret";
  state = "active";
  created_at = 1;
  revoked_at = none;
}

abbrev before : Tables
before = record { peers = peer ∷ []; inbox = []; outbox = []; db = empty_db }

abbrev event : Envelope
event = record {
  event_id = "e";
  kind = "alert";
  created_at = 5;
  payload = "{}";
  signature = "secret";
}

abbrev first : Tables
first = record before {
  inbox = record { peer_id = "p"; event_id = "e"; received_at = 6; payload_hash = "{}" } ∷ [];
}

abbrev last : Tables
last = record first {
  outbox =
      record {
        peer_id = "p";
        event_id = "o";
        kind = "alert";
        payload = "{}";
        created_at = 7;
        delivered_at = none;
      }
      ∷ [];
}

receiving : receive core "p" "secret" event 6 before ≡ ok first
unfolding receive
receiving = refl

queueing : queue "p" "o" "alert" "{}" 7 first ≡ ok last
unfolding queue
queueing = refl

-- an event is kept for two days
abbrev window : ℕ
window = 2 * day

received_once_example : receive core "p" "secret" (record event { payload = "[]" }) 9 last ≢ ok last
received_once_example =
    received_once core window "p" "secret" "secret" event (record event { payload = "[]" }) 6 7 9
      before first last last (omega arith) receiving
      (then 7 done (omega arith) (queued "p" "o" "alert" "{}" queueing)) (omega arith) refl refl
