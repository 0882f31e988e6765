-- ===== src/Examples/Deliveries.antt =====
-- A collector's first batch, its redelivery, and the budget of one minute.
use watchpost.Base.{
  ℕ, ◌+◌, ◌≤◌, String, ◌≡◌, refl, true, false, none, some, Option, List, [], ◌∷◌, any, suc, ◌==◌,
  arith, ok,
}
use watchpost.Base.Int.{pos}
use watchpost.Base.Assoc.{lookup}
use watchpost.Store.Rows.{CollectorKey}
use watchpost.Store.Tables.{Db, empty_db}
use watchpost.Ingest.Types.{finite, Observation}
use watchpost.Ingest.Budget.{allow, RateWindow, Service}
use watchpost.Ingest.Key.{is_accepted_by, key_info, find_key, authorize}
use watchpost.Ingest.Batch.{belongs, insert_observation}
use watchpost.Ingest.Accept.{accept_batch, deliver, write_batch}
use watchpost.Ingest.Delivery.Accepted.{IsDeliverable, IsAhead, batch_accepted}
use watchpost.Ingest.Rate.{Delivery, granted, granted-bound}
use watchpost.Ingest.Delivery.Stored.{rows_onto, IsContiguous}
use watchpost.Ingest.Delivery.Redelivered.{accepted_stored, redelivery_acknowledged}

abbrev hash : String → String
hash t = t

abbrev key : Option ℕ → CollectorKey
key revoked = record {
  id = "c";
  post_id = "a";
  secret_hash = "secret";
  revoked_at = revoked;
  last_sequence = 7;
  last_seen_at = none;
  last_observed_at = none;
  last_sent_at = none;
  last_error = "";
  last_rejected_at = none;
  rejected_count = 0;
  partial = false;
  pending_secret_hash = none;
  pending_expires_at = none;
  last_batch_id = none;
}

abbrev with_key : Option ℕ → Db
with_key revoked = record empty_db {
  local = record empty_db.local { collector_keys = key revoked ∷ [] };
}

abbrev sample : ℕ → Observation
sample n = record {
  version = 1;
  post_id = "a";
  collector_id = "c";
  observed_at = 100;
  sequence = n;
  signal = "cpu";
  value = some (finite (pos 95));
  unit = "percent";
  quality = "good";
  labels = [];
}

abbrev service : Service
service = record { rate = []; limit = 3600 }

abbrev after : Db
after =
    (accept_batch hash "secret" (sample 8 ∷ sample 9 ∷ []) 100 100 "batch" service
      (with_key none)).db

known : find_key "c" (with_key none) ≡ some (key none)
unfolding find_key
known = refl

taken :
    (accept_batch hash "secret"
      (sample 8 ∷ sample 9 ∷ [])
      100
      100
      "batch"
      service
      (with_key none)).answer
    ≡ ok false
unfolding accept_batch authorize find_key deliver write_batch insert_observation
taken = refl

accepted_stored_example :
    (after.local.observations ≡ rows_onto 100 (sample 8 ∷ sample 9 ∷ []) [])
    × IsContiguous 8 (sample 8 ∷ sample 9 ∷ [])
    × ((k : CollectorKey) × (find_key "c" after ≡ some k) × (k.last_sequence ≡ 9))
accepted_stored_example =
    accepted_stored hash "secret" (sample 8) (sample 9 ∷ []) 100 100 "batch" service (with_key none)
      (key none) known taken

redelivery_acknowledged_example :
    let again =
      accept_batch hash "secret" (sample 8 ∷ sample 9 ∷ []) 900 900 "batch" service after in
    (again.answer ≡ ok true) × (again.db ≡ after) × (again.service ≡ service)
redelivery_acknowledged_example =
    redelivery_acknowledged hash "secret" (sample 8) (sample 9 ∷ []) 100 100 "batch" service
      (with_key none) (key none) 900 900 service (λ e. cc) known taken

abbrev window : RateWindow
window = record { minute_start = 0; samples = 3500 }

abbrev busy : Service
busy = record { rate = ("c", window) ∷ []; limit = 3600 }

abbrev deliveries : List Delivery
deliveries =
    record { collector = "c"; now = 5; samples = 80 }
    ∷ record { collector = "d"; now = 6; samples = 128 }
    ∷ record { collector = "c"; now = 7; samples = 80 }
    ∷ []

open_window : lookup "c" busy.rate ≡ some window
unfolding lookup
open_window = refl

granted-bound_example : 3500 + granted "c" deliveries busy ≤ 3600
granted-bound_example =
    granted-bound "c" deliveries window busy (open_window, omega arith, omega arith)
      (omega arith, (omega arith, (omega arith, tt)))

accepts : is_accepted_by (key_info (key none) "secret" 100) "a" ≡ true
unfolding is_accepted_by key_info
accepts = refl

not_recorded : ((key_info (key none) "secret" 100).last_batch == "batch") ≡ false
unfolding key_info
not_recorded = refl

within_budget : (allow "c" 2 100 service).1 ≡ true
unfolding allow
within_budget = refl

deliverable :
    IsDeliverable
      (key_info (key none) "secret" 100)
      "c"
      100
      (suc (key_info (key none) "secret" 100).last)
      (sample 8 ∷ sample 9 ∷ [])
unfolding belongs key_info
deliverable = (refl, (refl, tt))

nothing_later :
    IsAhead "c" (suc (key_info (key none) "secret" 100).last) (with_key none).local.observations
unfolding any
nothing_later = refl

batch_accepted_example :
    (accept_batch hash "secret"
      (sample 8 ∷ sample 9 ∷ [])
      100
      100
      "batch"
      service
      (with_key none)).answer
    ≡ ok false
batch_accepted_example =
    batch_accepted hash "secret" (sample 8) (sample 9 ∷ []) 100 100 "batch" service (with_key none)
      (key none) known accepts not_recorded (omega arith) within_budget deliverable nothing_later
