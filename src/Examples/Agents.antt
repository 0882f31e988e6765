-- ===== src/Examples/Agents.antt =====
-- An agent that pairs, delivers, replaces its credential and leaves.
use watchpost.Base.{
  text_before, String, ◌≡◌, refl, true, false, none, some, [], ◌∷◌, any, ◌==◌, arith, ok, err, inr,
}
use watchpost.Base.Int.{pos}
use watchpost.Store.Rows.{CollectorKey, AuditRow}
use watchpost.Store.Agents.{pending, approved, consumed, PairingRequest, AgentConnection}
use watchpost.Store.Tables.{Db, empty_db}
use watchpost.Store.Audit.{Entry}
use watchpost.Ingest.Types.{finite, Observation, authentication_failed}
use watchpost.Ingest.Budget.{Service}
use watchpost.Ingest.Key.{find_key, authorize}
use watchpost.Ingest.Accept.{accept_batch, deliver, write_batch, authenticate, accept}
use watchpost.Ingest.Batch.{insert_observation}
use watchpost.AgentPairing.{Hello, create, decide, already_claimed}
use watchpost.AgentPairing.Credentials.{rotate, unpair, is_current}
use watchpost.AgentPairing.Poll.{Progress, Enrollment, poll, find_request}
use watchpost.AgentPairing.Lifecycle.{Steps, done, then, asked, decided, polled}
use watchpost.AgentPairing.Orderly.{IsRegular, steps-IsRegular}
use watchpost.AgentPairing.Issued.{polled_authenticates}
use watchpost.AgentPairing.Claimed.{claimed_not_reissued}
use watchpost.AgentPairing.Replaced.{replacement_takes_over}
use watchpost.AgentPairing.Ended.{ended_refuses}
use watchpost.Examples.Data.{two_posts}

-- a text of 32 bytes stands for the hash of the replacement
abbrev hash : String → String
hash t = elim (t == "next") [ true ↦ "0123456789abcdef0123456789abcdef" | false ↦ t ]

abbrev asking : String
asking = "a secret of the agent, of 32 bytes and more"

abbrev hello : Hello
hello = record {
  installation_id = "c";
  secret = asking;
  hostname = "h";
  platform = "linux";
  version = "1";
}

abbrev entry : Entry
entry = record { actor_id = 0; action = "agent"; object_type = ""; object_id = ""; detail = "" }

abbrev asked_row : PairingRequest
asked_row = record {
  id = "r";
  request_secret_hash = asking;
  installation_id = "c";
  hostname = "h";
  platform = "linux";
  agent_version = "1";
  phrase = "amber-river-four";
  state = pending;
  post_id = none;
  expires_at = 600_000_000_001;
  created_at = 1;
  approved_at = none;
  terminal_at = none;
}

abbrev approved_row : PairingRequest
approved_row = record asked_row { state = approved; post_id = some "a"; approved_at = some 2 }

abbrev consumed_row : PairingRequest
consumed_row = record approved_row { state = consumed; terminal_at = some 3 }

abbrev decided_audit : AuditRow
decided_audit = record {
  actor_user_id = none;
  action = "agent";
  object_type = "agent_pairing_request";
  object_id = "r";
  detail = "";
}

abbrev asked_db : Db
asked_db = record two_posts {
  local = record empty_db.local { agent_pairing_requests = asked_row ∷ [] };
}

abbrev approved_db : Db
approved_db = record two_posts {
  local = record empty_db.local {
    agent_pairing_requests = approved_row ∷ [];
    audit = decided_audit ∷ [];
  };
}

abbrev connection : AgentConnection
connection = record {
  installation_id = "c";
  post_id = "a";
  hostname = "h";
  platform = "linux";
  agent_version = "1";
  created_at = 3;
  revoked_at = none;
}

abbrev fresh_key : CollectorKey
fresh_key = record {
  id = "c";
  post_id = "a";
  secret_hash = "first";
  revoked_at = none;
  last_sequence = 0;
  last_seen_at = none;
  last_observed_at = none;
  last_sent_at = none;
  last_error = "";
  last_rejected_at = none;
  rejected_count = 0;
  partial = false;
  pending_secret_hash = none;
  pending_expires_at = none;
  last_batch_id = none;
}

abbrev paired_db : Db
paired_db = record two_posts {
  local = record empty_db.local {
    agent_pairing_requests = consumed_row ∷ [];
    agent_connections = connection ∷ [];
    collector_keys = fresh_key ∷ [];
    audit = decided_audit ∷ [];
  };
}

abbrev enrollment : Enrollment
enrollment = record {
  state = Progress.approved;
  post_id = "a";
  collector_id = "c";
  credential = "first";
}

asking_ok :
    create hash "r" "amber-river-four" hello 1 1 two_posts two_posts ≡ ok (asked_db, asked_row)
unfolding create
asking_ok = refl

deciding_ok : decide "r" "a" true 2 entry asked_db ≡ ok approved_db
unfolding decide text_before watchpost.Store.Audit.knows_actor
deciding_ok = refl

polling_ok : poll hash "r" asking "first" 3 approved_db ≡ ok (paired_db, enrollment)
unfolding poll
polling_ok = refl

found : find_request "r" asking approved_db ≡ some approved_row
unfolding find_request
found = refl

abbrev three_steps : Steps hash 0 two_posts 3 paired_db
three_steps =
    then 3
      (then 2
        (then 1 done (omega arith)
          (asked "r" "amber-river-four" hello 1 two_posts asked_row asking_ok))
        (omega arith) (decided "r" "a" true entry deciding_ok))
      (omega arith) (polled "r" asking "first" enrollment polling_ok)

steps-IsRegular_example : IsRegular (consumed_row ∷ [])
steps-IsRegular_example =
    steps-IsRegular hash 0 two_posts 3 paired_db three_steps
      (record { orderly = tt; distinct = tt })

polled_authenticates_example :
    (authenticate hash "c" "first" 9 paired_db ≡ ok tt)
    × ((k : CollectorKey) × (find_key "c" paired_db ≡ some k)
        × (k.last_sequence ≡ 0)
        × (k.post_id ≡ "a"))
    × (any (λ o. o.collector_id == "c") paired_db.local.observations ≡ false)
polled_authenticates_example =
    polled_authenticates hash "r" asking "first" 3 approved_db approved_row 9 (λ e. cc) (λ e. cc)
      found refl polling_ok refl

abbrev sample : Observation
sample = record {
  version = 1;
  post_id = "a";
  collector_id = "c";
  observed_at = 100;
  sequence = 1;
  signal = "cpu";
  value = some (finite (pos 95));
  unit = "percent";
  quality = "good";
  labels = [];
}

abbrev service : Service
service = record { rate = []; limit = 3600 }

stored : (accept_batch hash "first" (sample ∷ []) 100 100 "b1" service paired_db).answer ≡ ok false
unfolding accept_batch authorize find_key deliver write_batch insert_observation
stored = refl

claimed_not_reissued_example :
    poll hash "r" asking "second" 200
      (accept_batch hash "first" (sample ∷ []) 100 100 "b1" service paired_db).db
    ≡ err already_claimed
claimed_not_reissued_example =
    claimed_not_reissued hash "r" asking "first" "second" 3 100 100 "b1" service sample []
      approved_db approved_row 200 refl found refl polling_ok refl stored (omega arith)

abbrev changed_audit : AuditRow
changed_audit = record decided_audit { object_type = "agent_connection"; object_id = "c" }

abbrev rotated_key : CollectorKey
rotated_key = record fresh_key {
  pending_secret_hash = some "0123456789abcdef0123456789abcdef";
  pending_expires_at = some 600_000_000_050;
}

abbrev rotated_db : Db
rotated_db = record paired_db {
  local = record paired_db.local {
    collector_keys = rotated_key ∷ [];
    audit = changed_audit ∷ decided_audit ∷ [];
  };
}

abbrev left_db : Db
left_db = record paired_db {
  local = record paired_db.local {
    agent_connections = record connection { revoked_at = some 60 } ∷ [];
    collector_keys = record fresh_key { revoked_at = some 60 } ∷ [];
    audit = changed_audit ∷ decided_audit ∷ [];
  };
}

known : find_key "c" paired_db ≡ some fresh_key
unfolding find_key
known = refl

live : is_current "c" "first" fresh_key ≡ true
unfolding is_current
live = refl

rotating_ok : rotate hash "c" "first" "next" 50 entry paired_db ≡ ok rotated_db
unfolding rotate watchpost.Store.Audit.knows_actor
rotating_ok = refl

stored_next :
    (accept_batch hash "next" (sample ∷ []) 100 100 "b1" service rotated_db).answer ≡ ok false
unfolding accept_batch authorize find_key deliver write_batch insert_observation
stored_next = refl

replacement_takes_over_example :
    let after = (accept_batch hash "next" (sample ∷ []) 100 100 "b1" service rotated_db).db in
    (authenticate hash "c" "next" 900 after ≡ ok tt)
    × (authenticate hash "c" "first" 900 after ≡ err authentication_failed)
replacement_takes_over_example =
    replacement_takes_over hash "c" "first" "next" 50 entry paired_db fresh_key sample [] 100 100
      900 "b1" service (λ e. cc) (λ e. cc) (λ e. cc) refl (λ e. cc) (omega arith) known live
      rotating_ok refl stored_next

leaving_ok : unpair hash "c" "first" 60 entry paired_db ≡ ok left_db
unfolding unpair watchpost.Store.Audit.knows_actor
leaving_ok = refl

ended_refuses_example :
    ((accept_batch hash "first" (sample ∷ []) 100 100 "b1" service left_db).db ≡ left_db)
    × ((accept hash "first" sample 100 service left_db).db ≡ left_db)
    × (authenticate hash "c" "first" 100 left_db ≡ err authentication_failed)
ended_refuses_example =
    ended_refuses hash "c" "first" 60 entry paired_db fresh_key known "first" sample [] 100 100 "b1"
      service (inr leaving_ok) refl
