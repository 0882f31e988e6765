-- ===== src/Examples/Pairings.antt =====
-- The pairing of a collector whose revoked key has an unexpired replacement credential.
use watchpost.Base.{
  String, ◌≡◌, refl, false, none, some, [], ◌∷◌, arith, ok, err, any, ◌==◌, if◌then◌else◌,
}
use watchpost.Store.Rows.{CollectorKey, PairingToken}
use watchpost.Store.Tables.{Db, empty_db}
use watchpost.Ingest.Key.{find_key}
use watchpost.Ingest.Accept.{authenticate}
use watchpost.Pairing.{token_expired_or_used, Enrollment, consume}
use watchpost.Pairing.Enrolled.{token_used_once, paired_authenticates, pending_survives_pairing}
use watchpost.Examples.Data.{two_posts}

-- a text of 32 bytes stands for the hash of the old credential
abbrev old_hash : String
old_hash = "0123456789abcdef0123456789abcdef"

abbrev hash : String → String
hash t = if t == "old" then old_hash else t

abbrev key : CollectorKey
key = record {
  id = "c";
  post_id = "a";
  secret_hash = "lost";
  revoked_at = some 3;
  last_sequence = 7;
  last_seen_at = some 3;
  last_observed_at = some 3;
  last_sent_at = some 3;
  last_error = "";
  last_rejected_at = none;
  rejected_count = 0;
  partial = false;
  pending_secret_hash = some old_hash;
  pending_expires_at = some 600;
  last_batch_id = none;
}

abbrev token : PairingToken
token = record { token_hash = "token"; post_id = "a"; expires_at = 100; used_at = none }

abbrev before : Db
before = record two_posts {
  local = record empty_db.local {
    collector_pairing_tokens = token ∷ [];
    collector_keys = key ∷ [];
  };
}

abbrev key_after : CollectorKey
key_after = record key {
  secret_hash = "new";
  revoked_at = none;
  last_sequence = 0;
  last_seen_at = none;
  last_observed_at = none;
  last_sent_at = none;
}

abbrev after : Db
after = record before {
  local = record before.local {
    collector_pairing_tokens = record token { used_at = some 10 } ∷ [];
    collector_keys = key_after ∷ [];
  };
}

abbrev enrollment : Enrollment
enrollment = record { version = 1; post_id = "a"; collector_id = "c"; secret = "new" }

paired : consume hash "token" "c" "new" 10 before ≡ ok (after, enrollment)
unfolding consume
paired = refl

token_used_once_example : consume hash "token" "d" "other" 20 after ≡ err token_expired_or_used
token_used_once_example =
    token_used_once hash "token" "c" "d" "new" "other" 10 20 before (λ e. cc) paired

paired_authenticates_example :
    (authenticate hash "c" "new" 20 after ≡ ok tt)
    × ((k : CollectorKey) × (find_key "c" after ≡ some k) × (k.last_sequence ≡ 0))
    × (any (λ o. o.collector_id == "c") after.local.observations ≡ false)
paired_authenticates_example =
    paired_authenticates hash "token" "c" "new" 10 20 before (λ e. cc) paired

known : find_key "c" before ≡ some key
unfolding find_key
known = refl

pending_survives_pairing_example : authenticate hash "c" "old" 20 after ≡ ok tt
pending_survives_pairing_example =
    pending_survives_pairing hash "token" "c" "new" "old" 10 20 600 before key (λ e. cc) refl known
      refl refl (omega arith) paired
