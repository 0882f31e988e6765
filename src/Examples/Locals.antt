-- ===== src/Examples/Locals.antt =====
-- A post that is deleted by the state machine and by a local transaction.
use watchpost.Base.{true, String, ◌≡◌, refl, some, none, [], ◌∷◌, ok}
use watchpost.Store.Tables.{Db, number}
use watchpost.Store.Audit.{Entry, knows_actor}
use watchpost.Replicated.Op.{post_delete, null, Operation}
use watchpost.Replicated.Apply.{Applied}
use watchpost.Replicated.Fsm.{dispatch}
use watchpost.Posts.{Json}
use watchpost.Posts.Local.{audited}
use watchpost.Posts.Agreement.{removal, perform, local_refines_replicated}
use watchpost.Examples.Data.{operation, disk, machine, two_posts, row, edge}

abbrev json : Json
json = record { marshal = λ labels. "{}"; unmarshal = λ text. some [] }

abbrev entry : Entry
entry = record { actor_id = 0; action = "delete"; object_type = ""; object_id = ""; detail = "" }

abbrev remove_a : Operation
remove_a = operation "op-d" post_delete "a" null

abbrev joined : Db
joined = record two_posts { post_dependencies = edge "a" "b" ∷ [] }

abbrev left : Db
left = record two_posts {
  posts = row "b" ∷ [];
  meta = record {
    applied_index = some (number 7);
    applied_term = some (number 1);
    graph_revision = some (number 1);
  };
}

abbrev applied : Applied
applied = record {
  db = left;
  graph_rev = 1;
  result = record {
    index = 7;
    term = 1;
    op_id = "op-d";
    object_id = "a";
    kind = post_delete;
    version = 1;
    revision = 0;
  };
}

removed : dispatch post_delete disk remove_a 7 1 (machine joined) ≡ ok applied
unfolding dispatch watchpost.Replicated.Apply.apply_post_delete
    watchpost.Replicated.Cleanup.cleanup_node_local watchpost.Replicated.Apply.touches
    watchpost.Replicated.Cleanup.blocks_post watchpost.Base.count
    watchpost.Replicated.Apply.write_meta watchpost.Base.incr64 watchpost.Replicated.Cleanup.cascade
removed = refl

allowed : knows_actor entry joined ≡ true
unfolding knows_actor
allowed = refl

local_refines_replicated_example :
    perform json (removal "a") entry joined
    ≡ ok (audited entry "a" (record left { meta = two_posts.meta }))
local_refines_replicated_example =
    local_refines_replicated json (removal "a") entry disk remove_a 7 1 (machine joined) tt allowed
      (refl, refl) removed
