-- ===== src/Posts/Local.antt =====
-- internal/posts/posts.go: the mutations.
use watchpost.Base.{
  ℕ, String, false, not, Option, none, some, ◌==◌, eqb, count, remove, update_where, Result, ok,
  err, ◌>>=◌, ◌>>◌, guard,
}
use watchpost.Store.Rows
use watchpost.Store.Rows.{Dependency}
use watchpost.Store.Tables.{Db}
use watchpost.Store.Audit.{Entry, knows_actor, insert_audit}
use watchpost.Replicated.Op.{Failure}
use watchpost.Replicated.Graph.{reaches}
use watchpost.Replicated.Cleanup.{
  delete_conversations, delete_action_requests, delete_device_profiles, delete_alerts,
  delete_observations, delete_pairing_tokens, delete_collector_keys, delete_logs_and_changes,
}
use watchpost.Replicated.Apply.{
  has_post, insert_post, insert_dependency, delete_rules, delete_posts, touches, revise_post,
  post_at,
}
use watchpost.Posts.{
  Post, PostError, invalid_post, invalid_labels, storage_failed, version_conflict, no_rows,
  self_dependency, dependency_cycle, refused, Json, are_labels, is_valid, payload_of, get,
}

-- what the mutation authority answers: committed, with the database that the commit leaves,
-- refused, or that the node is standalone
pub data Reply : Type 0 where
  committed : Db → Reply
  denied standalone : Reply

-- the answer of a call, and the database that it leaves
pub record Outcome (A : Type 0) : Type 0 where
  pub db : Db
  pub answer : Result PostError A

unfoldable pub or_failed {ℓ} : {A : Type ℓ} → Result Failure A → Result PostError A
or_failed (ok a) = ok a
or_failed (err e) = err storage_failed

unfoldable pub audited : Entry → String → Db → Db
unfolding insert_audit
audited entry id = insert_audit (record entry { object_type = "post"; object_id = id })

-- a new row: the column `archived` has its default
unfoldable pub new_row : Json → Post → String → Rows.Post
new_row json p now = record {
  id = p.id;
  name = p.name;
  kind = p.kind;
  address = p.address;
  owner = p.owner;
  labels = json.marshal p.labels;
  maintenance = p.maintenance;
  archived = false;
  version = 1;
  created_at = now;
  updated_at = now;
}

-- the local transaction of `Create`
unfoldable pub create_local : Json → Post → String → Entry → Db → Result PostError Db
unfolding new_row or_failed insert_post audited
create_local json p now entry db = do
  db' ← or_failed (insert_post (new_row json p now) db)
  guard (knows_actor entry db) storage_failed
  ok (audited entry p.id db')

-- the local transaction of `Update`
unfoldable pub update_local : Json → Post → ℕ → String → Entry → Db → Result PostError Db
unfolding payload_of revise_post post_at count update_where audited
update_local json p expected now entry db = do
  let hit = post_at p.id expected
  guard (eqb (count hit db.posts) 1) version_conflict
  guard (knows_actor entry db) storage_failed
  ok (
      audited entry p.id
        (record db { posts = update_where hit (revise_post (payload_of json p now now)) db.posts }))

-- the local transaction of `Delete`, statement by statement
unfoldable pub delete_local : String → Entry → Db → Result PostError Db
unfolding has_post or_failed delete_rules delete_posts touches remove audited
delete_local id entry db = do
  let sel = λ (p : String). p == id
  guard (has_post db.posts id) no_rows
  let l1 =
      delete_device_profiles sel (delete_action_requests sel (delete_conversations sel db.local))
  db1 ← or_failed (delete_rules (λ r. r.post_id == id) (record db { local = delete_alerts sel l1 }))
  let l2 = delete_pairing_tokens sel (delete_observations sel db1.local)
  l3 ← or_failed (delete_collector_keys sel l2)
  db2 ← or_failed (
      delete_posts sel (record db1 {
        local = delete_logs_and_changes sel l3;
        post_dependencies = remove (touches id) db1.post_dependencies;
      }))
  guard (knows_actor entry db) storage_failed
  ok (audited entry id db2)

-- the local transaction of `AddDependency`
unfoldable pub depend_local : String → String → Entry → Db → Result PostError Db
unfolding or_failed insert_dependency audited
depend_local id depends entry db = do
  guard (not (reaches db.post_dependencies depends id)) dependency_cycle
  let row : Dependency = record { post_id = id; depends_on_id = depends }
  db' ← or_failed (insert_dependency row db)
  guard (knows_actor entry db) storage_failed
  ok (audited entry id db')

-- the row is read again after the commit
unfoldable pub then_get : Json → String → Db → Result PostError Db → Outcome Post
unfolding get
then_get json id before (ok db) = record { db = db; answer = get json id db }
then_get json id before (err e) = record { db = before; answer = err e }

unfoldable pub then_done : Db → Result PostError Db → Outcome (Unit {0})
then_done before (ok db) = record { db = db; answer = ok tt }
then_done before (err e) = record { db = before; answer = err e }

-- a mutation goes through the authority unless there is none or it is standalone
unfoldable pub route : Option Reply → Db → Result PostError Db → Result PostError Db
route none db local = local
route (some (committed db')) db local = ok db'
route (some denied) db local = err refused
route (some standalone) db local = local

-- `Create`, with its second check of the labels
unfoldable pub create : Option Reply → Json → Post → String → Entry → Db → Outcome Post
unfolding is_valid are_labels create_local then_get route
create authority json p now entry db = then_get json p.id db (do
  guard (is_valid p) invalid_post
  guard (are_labels p.labels) invalid_labels
  route authority db (create_local json p now entry db))

-- `Update`
unfoldable pub update : Option Reply → Json → Post → ℕ → String → Entry → Db → Outcome Post
unfolding is_valid update_local then_get route
update authority json p expected now entry db = then_get json p.id db (do
  guard (is_valid p) invalid_post
  route authority db (update_local json p expected now entry db))

-- `Delete`
unfoldable pub delete : Option Reply → String → Entry → Db → Outcome (Unit {0})
unfolding delete_local then_done route
delete authority id entry db = then_done db (route authority db (delete_local id entry db))

-- `AddDependency`
unfoldable pub add_dependency : Option Reply → String → String → Entry → Db → Outcome (Unit {0})
unfolding depend_local then_done route
add_dependency authority id depends entry db = then_done db (do
  guard (not (id == depends)) self_dependency
  route authority db (depend_local id depends entry db))
