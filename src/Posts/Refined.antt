-- ===== src/Posts/Refined.antt =====
-- The local mutations against those of the replicated state machine.
use watchpost.Base.{
  true, any-count, sym, ap, ◌∙◌, ℕ, String, ◌≡◌, refl, Bool, false, ◌==◌, count, remove, ok, arith,
  inl, inr, Result-cases,
}
use watchpost.Store.Rows
use watchpost.Store.Rows.{Dependency}
use watchpost.Store.Tables.{Db, Local}
use watchpost.Store.Audit.{Entry, knows_actor}
use watchpost.Replicated.Op.{post, dependency, Operation, Disk, decode_post, decode_dependency}
use watchpost.Replicated.Cleanup.{
  delete_conversations, delete_action_requests, delete_device_profiles, delete_alerts,
  delete_observations, delete_pairing_tokens, delete_collector_keys, delete_logs_and_changes,
  cleanup_node_local,
}
use watchpost.Replicated.Apply.{
  Applied, has_post, insert_post, delete_rules, delete_posts, touches, revise_post, post_row,
  finish, or_invariant, apply_post_create, apply_post_update, apply_post_delete,
  apply_dependency_add, write_meta,
}
use watchpost.Replicated.Apply.Inversion.{post_update_ok}
use watchpost.Posts.{Post, Json, payload_of}
use watchpost.Posts.Local.{
  create_local, update_local, delete_local, depend_local, audited, new_row, or_failed,
}

revise-created :
    (json : Json) (p : Post) (created now : String)
    → revise_post (payload_of json p created now) ≡ revise_post (payload_of json p now now)
unfolding revise_post payload_of
revise-created json p created now = refl

-- the node-local rows before the keys are deleted
abbrev evidence : String → Local → Local
evidence id l =
    delete_pairing_tokens (λ p. p == id)
      (delete_observations (λ p. p == id)
        (delete_alerts (λ p. p == id)
          (delete_device_profiles (λ p. p == id)
            (delete_action_requests (λ p. p == id) (delete_conversations (λ p. p == id) l)))))

cleanup_ok :
    (id : String) (l : Local) {l' : Local}
    → cleanup_node_local id l ≡ ok l'
    → (keyless : Local) × (delete_collector_keys (λ p. p == id) (evidence id l) ≡ ok keyless)
      × (l' ≡ delete_logs_and_changes (λ p. p == id) keyless)
unfolding cleanup_node_local
cleanup_ok id l h = elim (Result-cases (delete_collector_keys (λ p. p == id) (evidence id l))) [
  | inl (keyless, done) ↦ (keyless, done, ground arith)
  | inr (e, failed) ↦ absurd (ground arith)
]

-- what the state machine did when it deleted a post
record Removed (id : String) (db db' : Db) : Type 0 where
  keyless : Local
  local : Local
  without_rules : Db
  rest : Db
  present : count (λ (p : Rows.Post). p.id == id) db.posts ≡ 1
  keys_deleted : delete_collector_keys (λ p. p == id) (evidence id db.local) ≡ ok keyless
  logs_deleted : local ≡ delete_logs_and_changes (λ p. p == id) keyless
  rules_deleted :
      delete_rules
        (λ r. r.post_id == id)
        (record db { local = local; post_dependencies = remove (touches id) db.post_dependencies })
      ≡ ok without_rules
  posts_deleted : delete_posts (λ p. p == id) without_rules ≡ ok rest
  written : record db' { meta = db.meta } ≡ record rest { meta = db.meta }

delete_rules-ok :
    (gone : Rows.Rule → Bool) (d : Db) {d' : Db}
    → delete_rules gone d ≡ ok d'
    → d' ≡ record d { rules = remove gone d.rules }
unfolding delete_rules
delete_rules-ok gone d h = ground arith

-- the statement looks at the rules and the alerts
delete_rules-again :
    (gone : Rows.Rule → Bool) (d e : Db) {d' : Db}
    → delete_rules gone d ≡ ok d'
    → e.rules ≡ d.rules
    → e.local.alerts ≡ d.local.alerts
    → delete_rules gone e ≡ ok (record e { rules = remove gone e.rules })
unfolding delete_rules
delete_rules-again gone d e h rules alerts = ground arith

-- the later statements keep the alerts
evidence-alerts :
    (id : String) (l : Local) {keyless : Local}
    → delete_collector_keys (λ p. p == id) (evidence id l) ≡ ok keyless
    → (delete_alerts
        (λ p. p == id)
        (delete_device_profiles
          (λ p. p == id)
          (delete_action_requests (λ p. p == id) (delete_conversations (λ p. p == id) l)))).alerts
      ≡ (delete_logs_and_changes (λ p. p == id) keyless).alerts
unfolding delete_collector_keys delete_logs_and_changes delete_pairing_tokens delete_observations
evidence-alerts id l h = ground arith

delete-Removed :
    (disk : Disk) (op : Operation) (index term graph_rev : ℕ) (db : Db) {a : Applied}
    → apply_post_delete disk op index term graph_rev db ≡ ok a
    → Removed op.object_id db a.db
unfolding apply_post_delete finish write_meta
delete-Removed disk op index term graph_rev db {a} h =
    let id = op.object_id in
    elim (Result-cases (cleanup_node_local id db.local)) [
      | inr (e, failed) ↦ absurd (ground arith)
      | inl (local, cleaned) ↦
          let (keyless, keys, logs) = cleanup_ok id db.local cleaned in
          let base = record db {
            local = local;
            post_dependencies = remove (touches id) db.post_dependencies;
          } in
          elim (Result-cases (delete_rules (λ r. r.post_id == id) base)) [
            | inr (e, failed) ↦ absurd (ground arith)
            | inl (without_rules, ruled) ↦
                elim (Result-cases (delete_posts (λ p. p == id) without_rules)) [
                  | inr (e, failed) ↦ absurd (ground arith)
                  | inl (rest, posted) ↦ record {
                    keyless = keyless;
                    local = local;
                    without_rules = without_rules;
                    rest = rest;
                    present = ground arith;
                    keys_deleted = keys;
                    logs_deleted = logs;
                    rules_deleted = ruled;
                    posts_deleted = posted;
                    written = ground arith;
                  }
                ]
          ]
    ]

module _ (disk : Disk) (op : Operation) (index term graph_rev : ℕ) (db : Db) (entry : Entry)
    (a : Applied) (allowed : knows_actor entry db ≡ true) where
  pub create_refines :
      (json : Json) (p : Post) (now : String)
      → p.archived ≡ false
      → op.object_id ≡ p.id
      → op.payload ≡ post (payload_of json p now now)
      → apply_post_create disk op index term graph_rev db ≡ ok a
      → create_local json p now entry db ≡ ok (audited entry p.id (record a.db { meta = db.meta }))
  unfolding apply_post_create create_local post_row new_row payload_of insert_post finish write_meta
      decode_post
  create_refines json p now plain same payload h = ground (arith, allowed)

  pub update_refines :
      (json : Json) (p : Post) (expected : ℕ) (created now : String)
      → op.object_id ≡ p.id
      → op.revision ≡ expected
      → op.payload ≡ post (payload_of json p created now)
      → apply_post_update disk op index term graph_rev db ≡ ok a
      → update_local json p expected now entry db
        ≡ ok (audited entry p.id (record a.db { meta = db.meta }))
  unfolding update_local write_meta decode_post
  update_refines json p expected created now same revision payload h =
      let (p', decoded, one, rows, rev) = post_update_ok disk op index term graph_rev db h in
      ground (arith, allowed, revise-created json p created now)

  pub dependency_refines :
      (depends : String)
      → op.payload ≡ dependency (record { depends_on = depends })
      → apply_dependency_add disk op index term graph_rev db ≡ ok a
      → depend_local op.object_id depends entry db
        ≡ ok (audited entry op.object_id (record a.db { meta = db.meta }))
  unfolding apply_dependency_add depend_local finish write_meta decode_dependency or_failed
      or_invariant
  dependency_refines depends payload h = ground (arith, allowed)

  pub delete_refines :
      apply_post_delete disk op index term graph_rev db ≡ ok a
      → delete_local op.object_id entry db
        ≡ ok (audited entry op.object_id (record a.db { meta = db.meta }))
  unfolding delete_local or_failed has_post
  delete_refines h =
      let id = op.object_id in
      let r = delete-Removed disk op index term graph_rev db h in
      let base = record db {
        local = r.local;
        post_dependencies = remove (touches id) db.post_dependencies;
      } in
      let first = record db {
        local =
            delete_alerts (λ p. p == id)
              (delete_device_profiles (λ p. p == id)
                (delete_action_requests (λ p. p == id)
                  (delete_conversations (λ p. p == id) db.local)));
      } in
      ground (
        arith,
        allowed,
        delete_rules-ok (λ r. r.post_id == id) base r.rules_deleted,
        delete_rules-again (λ r. r.post_id == id) base first r.rules_deleted refl
            (evidence-alerts id db.local r.keys_deleted
              ∙ sym (ap (λ (l : Local). l.alerts) r.logs_deleted)),
        any-count (λ (p : Rows.Post). p.id == id) db.posts r.present,
        r.keys_deleted,
        r.logs_deleted,
        r.posts_deleted,
        r.written,
      )
