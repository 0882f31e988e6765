-- ===== src/Pairing/Enrolled.antt =====
-- What a consumed token leaves: the token used up, and the key of the collector.
use Prim.Native.String.{len}
use watchpost.Base.{
  ℕ, String, ◌≡◌, ◌≢◌, ◌<◌, refl, false, Option, none, some, ◌==◌, eq_iff, eq_refl, arith, any, ok,
  err,
}
use watchpost.Store.Rows.{CollectorKey}
use watchpost.Store.Tables.{Db}
use watchpost.Ingest.Key.{new_key, find_key, key_info, pending_matches}
use watchpost.Ingest.Accept.{authenticate}
use watchpost.Pairing.{
  token_expired_or_used, is_usable, drop_observations, re_key, use_token, Enrollment, consume,
}
use watchpost.Pairing.Consumed.{upserted, consume-Consumed, written, rows_dropped, key_after}

-- A token pairs once: after it has been consumed, it is refused for every collector with a name,
-- at any time.
pub token_used_once :
    (sha256 : String → String) (token id id' secret secret' : String) (now now' : ℕ) (db : Db)
    {db' : Db} {enrollment : Enrollment}
    → id' ≢ ""
    → consume sha256 token id secret now db ≡ ok (db', enrollment)
    → consume sha256 token id' secret' now' db' ≡ err token_expired_or_used
unfolding consume is_usable use_token
token_used_once sha256 token id id' secret secret' now now' db named h = ground (
  arith,
  (written sha256 token id secret now db h).0,
  (consume-Consumed sha256 token id secret now db h).named,
  eq_iff token "",
  eq_iff id' "",
)

fresh_authenticates :
    (sha256 : String → String) (id post_id secret : String) (now : ℕ) (db db' : Db)
    (o : Option CollectorKey)
    → id ≢ ""
    → secret ≢ ""
    → find_key id db' ≡ some (upserted id post_id (sha256 secret) db o)
    → (authenticate sha256 id secret now db' ≡ ok tt)
      × ((upserted id post_id (sha256 secret) db o).last_sequence ≡ 0)
unfolding authenticate key_info new_key re_key
fresh_authenticates sha256 id post_id secret now db db' none named given known =
    ground (arith, eq_iff id "", eq_iff secret "", eq_refl (sha256 secret))
fresh_authenticates sha256 id post_id secret now db db' (some k) named given known =
    ground (arith, eq_iff id "", eq_iff secret "", eq_refl (sha256 secret))

-- After a pairing with a secret that is not empty, the secret authenticates the collector at any
-- time, whether its key was new, in use or revoked, its sequence starts at 0 again and no
-- observation of it is left.
pub paired_authenticates :
    (sha256 : String → String) (token id secret : String) (now now' : ℕ) (db : Db) {db' : Db}
    {enrollment : Enrollment}
    → secret ≢ ""
    → consume sha256 token id secret now db ≡ ok (db', enrollment)
    → (authenticate sha256 id secret now' db' ≡ ok tt)
      × ((k : CollectorKey) × (find_key id db' ≡ some k) × (k.last_sequence ≡ 0))
      × (any (λ o. o.collector_id == id) db'.local.observations ≡ false)
paired_authenticates sha256 token id secret now now' db {db'} given h =
    let c = consume-Consumed sha256 token id secret now db h in
    let key = key_after sha256 token id secret now db h (find_key id db) refl in
    let fresh =
      fresh_authenticates sha256 id c.used.post_id secret now' (drop_observations id db) db'
        (find_key id db) c.named.1 given key in
    (
      fresh.0,
      (
        upserted id c.used.post_id (sha256 secret) (drop_observations id db) (find_key id db),
        key,
        fresh.1,
      ),
      rows_dropped sha256 token id secret now db h,
    )

-- A pairing leaves the replacement credential of an older enrollment valid (a text that is not
-- empty, with a hash of 32 bytes): it authenticates the collector until it expires, also where the
-- key had been revoked before the pairing.
pub pending_survives_pairing :
    (sha256 : String → String) (token id secret old : String) (now now' t : ℕ) (db : Db)
    (k : CollectorKey) {db' : Db} {enrollment : Enrollment}
    → old ≢ ""
    → len (sha256 old) ≡ 32
    → find_key id db ≡ some k
    → k.pending_secret_hash ≡ some (sha256 old)
    → k.pending_expires_at ≡ some t
    → now' < t
    → consume sha256 token id secret now db ≡ ok (db', enrollment)
    → authenticate sha256 id old now' db' ≡ ok tt
unfolding authenticate key_info pending_matches re_key
pending_survives_pairing sha256 token id secret old now now' t db k given size known pending expires
      within h =
    ground (
      arith,
      key_after sha256 token id secret now db h (some k) known,
      (consume-Consumed sha256 token id secret now db h).named,
      eq_iff id "",
      eq_iff old "",
      eq_refl (sha256 old),
    )
