-- ===== src/Replicated/Apply.antt =====
-- internal/replicated/fsm.go: one function for each operation, in its transaction. A returned
-- error leaves the database as it was, since the transaction is rolled back.
pub mod Inversion
use watchpost.Base.{
  ℕ, ◌+◌, String, Bool, not, ◌&&◌, ◌||◌, some, List, ◌∷◌, ◌==◌, eqb, any, count, remove,
  update_where, incr64, Result, ok, err, ◌>>=◌, ◌>>◌, guard, require,
}
use watchpost.Store.Rows.{Post, Dependency, Rule}
use watchpost.Store.Tables.{Db, number}
use watchpost.Replicated.Op.{
  PostPayload, RulePayload, Operation, ApplyResult, Failure, storage, bad_payload, invariant, Disk,
  duplicate_post, stale_post, stale_graph, missing_post, empty_source, self_dependency,
  missing_endpoints, duplicate_dependency, dependency_cycle, insert_failed, invalid_rule,
  stale_rule, decode_post, decode_dependency, decode_rule,
}
use watchpost.Replicated.Graph.{has_edge, reaches}
use watchpost.Replicated.Cleanup.{cleanup_node_local, blocks_post, cascade}

-- what an applied operation leaves: the database, the graph revision and the result
pub record Applied : Type 0 where
  pub db : Db
  pub graph_rev : ℕ
  pub result : ApplyResult

unfoldable pub has_post : List Post → String → Bool
unfolding any
has_post posts id = any (λ p. p.id == id) posts

unfoldable pub has_rule : List Rule → String → Bool
unfolding any
has_rule rules id = any (λ r. r.id == id) rules

-- `INSERT INTO posts`: the id is the primary key
unfoldable pub insert_post : Post → Db → Result Failure Db
insert_post row db = do
  guard (not (has_post db.posts row.id)) storage
  ok (record db { posts = row ∷ db.posts })

-- `CHECK(operator IN ('gt','gte','lt','lte'))`
unfoldable pub is_operator : String → Bool
is_operator o = o == "gt" || o == "gte" || o == "lt" || o == "lte"

-- `INSERT INTO rules`: primary key, foreign key and check
unfoldable pub insert_rule : Rule → Db → Result Failure Db
insert_rule row db = do
  guard (not (has_rule db.rules row.id)) storage
  guard (has_post db.posts row.post_id) storage
  guard (is_operator row.operator) storage
  ok (record db { rules = row ∷ db.rules })

-- `INSERT INTO post_dependencies`: primary key, foreign keys and check
unfoldable pub insert_dependency : Dependency → Db → Result Failure Db
insert_dependency row db = do
  guard (not (has_edge db.post_dependencies row.post_id row.depends_on_id)) storage
  guard (has_post db.posts row.post_id && has_post db.posts row.depends_on_id) storage
  guard (not (row.post_id == row.depends_on_id)) storage
  ok (record db { post_dependencies = row ∷ db.post_dependencies })

-- `DELETE FROM rules WHERE …`: alerts.rule_id refers to rules(id)
unfoldable pub delete_rules : (Rule → Bool) → Db → Result Failure Db
delete_rules gone db = do
  guard (not (any (λ a. any (λ r. r.id == a.rule_id && gone r) db.rules) db.local.alerts)) storage
  ok (record db { rules = remove gone db.rules })

-- `DELETE FROM posts WHERE …`: what refers to a post without a cascade blocks it
unfoldable pub delete_posts : (String → Bool) → Db → Result Failure Db
delete_posts sel db = do
  guard (not (any (λ d. sel d.post_id || sel d.depends_on_id) db.post_dependencies)) storage
  guard (not (any (λ r. sel r.post_id) db.rules)) storage
  guard (not (blocks_post sel db.local)) storage
  ok (record db { posts = remove (λ (p : Post). sel p.id) db.posts; local = cascade sel db.local })

unfoldable pub touches : String → Dependency → Bool
touches id d = d.post_id == id || d.depends_on_id == id

unfoldable pub write_meta : ℕ → ℕ → ℕ → Db → Db
write_meta index term graph_rev db = record db {
  meta = record {
    applied_index = some (number index);
    applied_term = some (number term);
    graph_revision = some (number graph_rev);
  };
}

unfoldable pub result_of : Operation → ℕ → ℕ → ℕ → ApplyResult
result_of op index term revision = record {
  index = index;
  term = term;
  op_id = op.id;
  object_id = op.object_id;
  kind = op.kind;
  version = op.version;
  revision = revision;
}

-- the end of each transaction: the metadata, then the commit
unfoldable pub finish : Disk → Operation → ℕ → ℕ → ℕ → ℕ → Db → Result Failure Applied
unfolding result_of
finish disk op index term graph_rev revision db = do
  guard disk.meta_ok storage
  guard disk.commit_ok storage
  ok (record {
    db = write_meta index term graph_rev db;
    graph_rev = graph_rev;
    result = result_of op index term revision;
  })

-- an insert's failure is an invariant violation
unfoldable pub or_invariant {ℓ} : {A : Type ℓ} → Result Failure A → Failure → Result Failure A
or_invariant (ok a) f = ok a
or_invariant (err e) f = err f

unfoldable pub post_row : Operation → PostPayload → Post
post_row op p = record {
  id = op.object_id;
  name = p.name;
  kind = p.kind;
  address = p.address;
  owner = p.owner;
  labels = p.labels_json;
  maintenance = p.maintenance;
  archived = p.archived;
  version = 1;
  created_at = p.created_at;
  updated_at = p.updated_at;
}

unfoldable pub rule_row : Operation → RulePayload → Rule
rule_row op p = record {
  id = op.object_id;
  post_id = p.post_id;
  signal = p.signal;
  operator = p.operator;
  threshold = p.threshold;
  duration_seconds = p.duration_seconds;
  recovery_threshold = p.recovery_threshold;
  missing_policy = p.missing_policy;
  severity = p.severity;
  enabled = p.enabled;
  version = 1;
}

-- `SET … version=version+1`: kind and created_at stay
unfoldable pub revise_post : PostPayload → Post → Post
revise_post p row = record row {
  name = p.name;
  address = p.address;
  owner = p.owner;
  labels = p.labels_json;
  maintenance = p.maintenance;
  archived = p.archived;
  version = row.version + 1;
  updated_at = p.updated_at;
}

unfoldable pub revise_rule : Bool → Rule → Rule
revise_rule enabled row = record row { enabled = enabled; version = row.version + 1 }

unfoldable pub post_at : String → ℕ → Post → Bool
post_at id version row = row.id == id && eqb row.version version

unfoldable pub rule_at : String → ℕ → Rule → Bool
rule_at id version row = row.id == id && eqb row.version version

module _ (disk : Disk) (op : Operation) (index term : ℕ) (graph_rev : ℕ) (db : Db) where
  unfoldable pub apply_post_create : Result Failure Applied
  unfolding insert_post or_invariant finish
  apply_post_create = do
    p ← require (decode_post op.payload) bad_payload
    guard disk.begin_ok storage
    db' ← or_invariant (insert_post (post_row op p) db) (invariant duplicate_post)
    finish disk op index term graph_rev 1 db'

  unfoldable pub apply_post_update : Result Failure Applied
  unfolding finish
  apply_post_update = do
    p ← require (decode_post op.payload) bad_payload
    guard disk.begin_ok storage
    let hit = post_at op.object_id op.revision
    let db' = record db { posts = update_where hit (revise_post p) db.posts }
    guard (eqb (count hit db.posts) 1) (invariant stale_post)
    finish disk op index term graph_rev (incr64 op.revision) db'

  unfoldable pub apply_post_delete : Result Failure Applied
  unfolding delete_rules delete_posts finish
  apply_post_delete = do
    guard (eqb op.domain_revision graph_rev) (invariant stale_graph)
    guard disk.begin_ok storage
    local ← cleanup_node_local op.object_id db.local
    let db1 = record db {
      local = local;
      post_dependencies = remove (touches op.object_id) db.post_dependencies;
    }
    db2 ← delete_rules (λ r. r.post_id == op.object_id) db1
    db3 ← delete_posts (λ p. p == op.object_id) db2
    guard (eqb (count (λ (p : Post). p.id == op.object_id) db.posts) 1) (invariant missing_post)
    finish disk op index term (incr64 graph_rev) 0 db3

  unfoldable pub apply_dependency_add : Result Failure Applied
  unfolding insert_dependency or_invariant finish
  apply_dependency_add = do
    guard (eqb op.domain_revision graph_rev) (invariant stale_graph)
    guard (not (op.object_id == "")) (invariant empty_source)
    p ← require (decode_dependency op.payload) bad_payload
    guard (not (op.object_id == p.depends_on)) (invariant self_dependency)
    guard disk.begin_ok storage
    let ends = count (λ (q : Post). q.id == op.object_id || q.id == p.depends_on) db.posts
    guard (eqb ends 2) (invariant missing_endpoints)
    guard (not (has_edge db.post_dependencies op.object_id p.depends_on))
        (invariant duplicate_dependency)
    guard (not (reaches db.post_dependencies p.depends_on op.object_id))
        (invariant dependency_cycle)
    let row : Dependency = record { post_id = op.object_id; depends_on_id = p.depends_on }
    db' ← or_invariant (insert_dependency row db) (invariant insert_failed)
    finish disk op index term (incr64 graph_rev) 0 db'

  unfoldable pub apply_rule_create : Result Failure Applied
  unfolding insert_rule or_invariant finish
  apply_rule_create = do
    p ← require (decode_rule op.payload) bad_payload
    guard disk.begin_ok storage
    db' ← or_invariant (insert_rule (rule_row op p) db) (invariant invalid_rule)
    finish disk op index term graph_rev 1 db'

  unfoldable pub apply_rule_set_enabled : Result Failure Applied
  unfolding finish
  apply_rule_set_enabled = do
    p ← require (decode_rule op.payload) bad_payload
    guard disk.begin_ok storage
    let hit = rule_at op.object_id op.revision
    let db' = record db { rules = update_where hit (revise_rule p.enabled) db.rules }
    guard (eqb (count hit db.rules) 1) (invariant stale_rule)
    finish disk op index term graph_rev (incr64 op.revision) db'
