-- ===== src/Replicated/Snapshot.antt =====
-- internal/replicated/fsm.go: snapshots of the replicated definitions and their restoration. The
-- checksum, SHA-256 over the JSON text of an envelope, is the parameter `checksum`.
pub mod Ordered
pub mod Inserted
pub mod Caught
pub mod Restore
use Prim.Native.String.{compare}
use text.Mathlib.Text.{is_lt, is_le}
use watchpost.Base.{
  ℕ, String, Bool, true, not, ◌&&◌, ◌||◌, none, some, Option, List, [], ◌∷◌, ◌==◌, eqb, ltb, leb,
  if◌then◌else◌, remove, Result, ok, err, ◌>>=◌, ◌>>◌, guard,
}
use watchpost.Base.Assoc.{Assoc, seed}
use watchpost.Store.Rows.{Post, Dependency, Rule}
use watchpost.Store.Tables.{Db}
use watchpost.Replicated.Op.{Failure, storage, Core, Disk}
use watchpost.Replicated.Cleanup.{clear_node_local}
use watchpost.Replicated.Apply.{
  has_post, insert_post, insert_dependency, insert_rule, delete_rules, delete_posts, write_meta,
}
use watchpost.Replicated.Fsm.{AppliedOp, Fsm}

pub record Envelope : Type 0 where
  pub format_version : ℕ
  pub replication_version : ℕ
  pub product : String
  pub graph_revision : ℕ
  pub applied_index : ℕ
  pub applied_term : ℕ
  pub posts : List Post
  pub dependencies : List Dependency
  pub rules : List Rule
  pub applied_ops : Assoc AppliedOp
  pub integrity : String

pub data RestoreError : Type 0 where
  unreadable unsupported_format unsupported_replication integrity_mismatch : RestoreError
  failed : Failure → RestoreError

abbrev pub snapshot_format_version : ℕ
snapshot_format_version = 1

-- `ORDER BY`
module _ {ℓ} {A : Type ℓ} (before : A → A → Bool) where
  unfoldable pub insert_ordered : A → List A → List A
  insert_ordered x [] = x ∷ []
  insert_ordered x (y ∷ ys) = if before x y then x ∷ y ∷ ys else y ∷ insert_ordered x ys

  unfoldable pub order_by : List A → List A
  unfolding insert_ordered
  order_by [] = []
  order_by (x ∷ xs) = insert_ordered x (order_by xs)

abbrev pub text_le : String → String → Bool
text_le a b = is_le (compare a b)

abbrev pub edge_le : Dependency → Dependency → Bool
edge_le d e =
    is_lt (compare d.post_id e.post_id)
    || (d.post_id == e.post_id && text_le d.depends_on_id e.depends_on_id)

-- `Snapshot`; `readable` says whether the queries succeed
unfoldable pub snapshot : Bool → Fsm → Result Failure Envelope
unfolding order_by
snapshot readable f = do
  guard readable storage
  ok (record {
    format_version = snapshot_format_version;
    replication_version = f.supported;
    product = f.product;
    graph_revision = f.graph_rev;
    applied_index = f.applied_index;
    applied_term = f.applied_term;
    posts = order_by (λ p q. text_le p.id q.id) f.db.posts;
    dependencies = order_by edge_le f.db.post_dependencies;
    rules = order_by (λ r s. text_le r.id s.id) f.db.rules;
    applied_ops = f.applied;
    integrity = "";
  })

-- the loops over the rows of the snapshot, each an `INSERT`
unfoldable pub insert_posts : List Post → Db → Result Failure Db
insert_posts [] db = ok db
insert_posts (p ∷ ps) db = do db' ← insert_post p db; insert_posts ps db'

unfoldable pub insert_dependencies : List Dependency → Db → Result Failure Db
insert_dependencies [] db = ok db
insert_dependencies (d ∷ ds) db = do db' ← insert_dependency d db; insert_dependencies ds db'

unfoldable pub insert_rules : List Rule → Db → Result Failure Db
insert_rules [] db = ok db
insert_rules (r ∷ rs) db = do db' ← insert_rule r db; insert_rules rs db'

-- `clearReplicated`
unfoldable pub clear_replicated : Db → Result Failure Db
unfolding has_post remove
clear_replicated db = do
  let here = has_post db.posts
  local ← clear_node_local here db.local
  let edges =
      remove (λ (d : Dependency). here d.post_id || here d.depends_on_id) db.post_dependencies
  db1 ← delete_rules (λ r. true) (record db { local = local; post_dependencies = edges })
  delete_posts (λ p. true) db1

-- the transaction that replaces the replicated definitions
unfoldable pub replace : Disk → Envelope → Db → Result Failure Db
replace disk env db = do
  guard disk.begin_ok storage
  db1 ← clear_replicated db
  db2 ← insert_posts env.posts db1
  db3 ← insert_dependencies env.dependencies db2
  db4 ← insert_rules env.rules db3
  guard disk.meta_ok storage
  guard disk.commit_ok storage
  ok (write_meta env.applied_index env.applied_term env.graph_revision db4)

unfoldable pub install : Envelope → Db → Fsm → Fsm
install env db f = record f {
  db = db;
  product = env.product;
  graph_rev = env.graph_revision;
  applied_index = env.applied_index;
  persisted_index = env.applied_index;
  applied_term = env.applied_term;
  applied = env.applied_ops;
}

-- a snapshot behind the database only adds ids that are not known
unfoldable pub seed_ops : Envelope → Fsm → Fsm
unfolding seed
seed_ops env f = record f { applied = seed env.applied_ops f.applied }

unfoldable pub catch_up : Disk → Envelope → Fsm → Fsm × Result RestoreError (Unit {0})
unfolding install
catch_up disk env f = elim (replace disk env f.db) [
  | err e ↦ (f, err (failed e))
  | ok db ↦ (install env db f, ok tt)
]

module _ (core : Core) (checksum : Envelope → String) where
  -- `Persist`
  unfoldable pub persist : Envelope → Envelope
  persist env = record env { integrity = checksum (record env { integrity = "" }) }

  unfoldable pub verify : Envelope → Result RestoreError (Unit {0})
  verify env = do
    guard (eqb env.format_version snapshot_format_version) unsupported_format
    guard (not (ltb core.version env.replication_version)) unsupported_replication
    guard (env.integrity == checksum (record env { integrity = "" })) integrity_mismatch

  -- the snapshot's position against that of the database
  unfoldable pub reconcile : Disk → Envelope → Fsm → Fsm × Result RestoreError (Unit {0})
  unfolding seed_ops
  reconcile disk env f =
      if leb env.applied_index f.persisted_index
      then (seed_ops env f, ok tt)
      else catch_up disk env f

  -- `Restore`; nothing is there to verify if the stream or its JSON cannot be read
  unfoldable pub restore : Disk → Option Envelope → Fsm → Fsm × Result RestoreError (Unit {0})
  unfolding verify reconcile
  restore disk none f = (f, err unreadable)
  restore disk (some env) f = elim (verify env) [ err e ↦ (f, err e) | ok u ↦ reconcile disk env f ]
