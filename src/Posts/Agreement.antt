-- ===== src/Posts/Agreement.antt =====
-- The refinement: one statement for the four mutations.
use mathlib.Core.Path.{subst}
use watchpost.Base.{true, arith, ℕ, String, ◌≡◌, false, ok, Result}
use watchpost.Store.Tables.{Db}
use watchpost.Store.Audit.{Entry, knows_actor}
use watchpost.Replicated.Op.{
  post_create, post_update, post_delete, dependency_add, post, dependency, Operation, Disk,
}
use watchpost.Replicated.Apply.{Applied}
use watchpost.Replicated.Fsm.{Fsm, dispatch}
use watchpost.Posts.{Post, Json, payload_of, PostError}
use watchpost.Posts.Local.{create_local, update_local, delete_local, depend_local, audited}
use watchpost.Posts.Refined.{create_refines, update_refines, dependency_refines, delete_refines}

-- A mutation, with the times that the caller reads.
pub data Mutation : Type 0 where
  creation : Post → String → Mutation
  revision : Post → ℕ → String → String → Mutation
  removal : String → Mutation
  joining : String → String → Mutation

abbrev pub object : Mutation → String
object (creation p now) = p.id
object (revision p expected created now) = p.id
object (removal id) = id
object (joining id depends) = id

-- the local transaction
unfoldable pub perform : Json → Mutation → Entry → Db → Result PostError Db
unfolding create_local update_local delete_local depend_local
perform json (creation p now) entry db = create_local json p now entry db
perform json (revision p expected created now) entry db = update_local json p expected now entry db
perform json (removal id) entry db = delete_local id entry db
perform json (joining id depends) entry db = depend_local id depends entry db

-- the operation that the authority proposes for a mutation
abbrev pub Carries : Json → Mutation → Operation → Type 0
Carries json (creation p now) op =
    (op.kind ≡ post_create)
    × (op.object_id ≡ p.id)
    × (op.payload ≡ post (payload_of json p now now))
Carries json (revision p expected created now) op =
    (op.kind ≡ post_update)
    × (op.object_id ≡ p.id)
    × (op.revision ≡ expected)
    × (op.payload ≡ post (payload_of json p created now))
Carries json (removal id) op = (op.kind ≡ post_delete) × (op.object_id ≡ id)
Carries json (joining id depends) op =
    (op.kind ≡ dependency_add)
    × (op.object_id ≡ id)
    × (op.payload ≡ dependency (record { depends_on = depends }))

-- a creation of a post that is not archived, or another mutation
abbrev pub IsPlain : Mutation → Type 0
IsPlain (creation p now) = p.archived ≡ false
IsPlain (revision p expected created now) = Unit
IsPlain (removal id) = Unit
IsPlain (joining id depends) = Unit

-- The local transactions refine the replicated state machine: where the state machine applies the
-- operation of a mutation, with any disk that lets it and at any place of the log, the local
-- transaction of the mutation succeeds on the same database and leaves the same one, up to the
-- audit row that it adds and the metadata of the log. A post that is created is not archived, and
-- the actor of the audit row is nobody or a user.
pub local_refines_replicated :
    (json : Json) (m : Mutation) (entry : Entry) (disk : Disk) (op : Operation) (index term : ℕ)
    (f : Fsm) {a : Applied}
    → IsPlain m
    → knows_actor entry f.db ≡ true
    → Carries json m op
    → dispatch op.kind disk op index term f ≡ ok a
    → perform json m entry f.db ≡ ok (audited entry (object m) (record a.db { meta = f.db.meta }))
unfolding perform dispatch
local_refines_replicated json (creation p now) entry disk op index term f {a} plain allowed
      (kind, id, payload) h =
    create_refines disk op index term f.graph_rev f.db entry a allowed json p now plain id payload
      (ground arith)
local_refines_replicated json (revision p expected created now) entry disk op index term f {a} plain
      allowed (kind, id, revised, payload) h =
    update_refines disk op index term f.graph_rev f.db entry a allowed json p expected created now
      id revised payload (ground arith)
local_refines_replicated json (removal id) entry disk op index term f {a} plain allowed (kind, same)
      h =
    subst (λ i. delete_local i entry f.db ≡ ok (audited entry i (record a.db { meta = f.db.meta })))
      same (delete_refines disk op index term f.graph_rev f.db entry a allowed (ground arith))
local_refines_replicated json (joining id depends) entry disk op index term f {a} plain allowed
      (kind, same, payload) h =
    subst
      (λ i.
        depend_local i depends entry f.db ≡ ok (audited entry i (record a.db { meta = f.db.meta })))
      same
      (dependency_refines disk op index term f.graph_rev f.db entry a allowed depends payload
        (ground arith))
