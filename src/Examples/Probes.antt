-- ===== src/Examples/Probes.antt =====
-- The order of the texts of times, and a check that is saved and runs twice.
use watchpost.Base.{◌+◌, text_before, ◌*◌, length, ◌≡◌, refl, true, none, [], ◌∷◌, ok}
use watchpost.Store.Audit.{Entry, insert_audit}
use watchpost.Alerts.Decide.{second}
use watchpost.Checks.{Schedule, Probed, Tables, Network, insert_identity, save, due, run_due}
use watchpost.Checks.Timed.{IsSpaced}
use watchpost.Checks.Spaced.{done, saved, ran, steps-IsSpaced}
use watchpost.Examples.Data.{two_posts}

abbrev answer : Probed
answer = record {
  kind = "tcp";
  address = "10.0.0.1:80";
  succeeded = true;
  latency = 5;
  status = 0;
  expires_at = none;
  failure = "";
}

abbrev net : Network
net = record { policy = none; run = λ k a s. answer }

abbrev check : Schedule
check = record {
  id = "c";
  post_id = "a";
  kind = "tcp";
  address = "10.0.0.1:80";
  server_name = "";
  interval_seconds = 60;
  enabled = true;
  next_run_at = 0;
}

abbrev entry : Entry
entry = record {
  actor_id = 0;
  action = "check.create";
  object_type = "";
  object_id = "";
  detail = "";
}

abbrev empty : Tables
empty = record { schedules = []; results = []; db = two_posts }

empty-IsSpaced : IsSpaced empty
empty-IsSpaced = record { distinct = tt; timed = tt; known = tt }

abbrev paced : Tables
unfolding insert_identity insert_audit
paced = record {
  schedules = check ∷ [];
  results = [];
  db =
      insert_audit (record entry { object_type = "check_schedule"; object_id = "c" })
        (insert_identity (λ t. t) check two_posts);
}

saving : save (λ t. t) net check 0 entry empty ≡ ok paced
unfolding save watchpost.Store.Audit.knows_actor
saving = refl

-- the text of half a second past is before that of the whole second
half_early : text_before 30_500_000_000 30_000_000_000 ≡ true
unfolding text_before
half_early = refl

-- so a check may run half a second early
due_early :
    length (
      due (65 * second) (record paced {
        schedules = record check { next_run_at = 65 * second + 500_000_000 } ∷ [];
      }))
    ≡ 1
unfolding due paced text_before
due_early = refl

-- a check that ran is not due before its interval is over
not_due : due (30 * second) (run_due net (5 * second) paced).0 ≡ []
unfolding due run_due paced text_before
not_due = refl

due_again : length (run_due net (65 * second) (run_due net (5 * second) paced).0).0.results ≡ 2
unfolding run_due paced text_before
due_again = refl

steps-IsSpaced_example : IsSpaced (run_due net (65 * second) (run_due net (5 * second) paced).0).0
steps-IsSpaced_example =
    steps-IsSpaced (λ t. t) empty (run_due net (65 * second) (run_due net (5 * second) paced).0).0
      (ran net (65 * second) (ran net (5 * second) (saved net check 0 entry done saving)))
      empty-IsSpaced
