-- ===== src/Examples/Data.antt =====
-- Operations on three posts, a codec for them, and state machines.
use watchpost.Base.{ℕ, String, ◌==◌, true, false, Option, none, some, List, [], ◌∷◌, if◌then◌else◌}
use watchpost.Store.Rows.{Post, Dependency}
use watchpost.Store.Tables.{Db, empty_db}
use watchpost.Replicated.Op.{
  Kind, post_create, dependency_add, PostPayload, Payload, post, dependency, Operation, Core, Disk,
}
use watchpost.Replicated.Fsm.{Fsm, LogEntry}

abbrev pub details : String → PostPayload
details name = record {
  name = name;
  kind = "host";
  address = "10.0.0.1";
  owner = "ops";
  labels_json = "{}";
  maintenance = false;
  archived = false;
  created_at = "2026-01-01T00:00:00Z";
  updated_at = "2026-01-01T00:00:00Z";
}

abbrev pub operation : String → Kind → String → Payload → Operation
operation id kind object payload = record {
  id = id;
  product = "watchpost";
  version = 1;
  kind = kind;
  object_kind = "post";
  object_id = object;
  revision = 0;
  domain_revision = 0;
  payload = payload;
  origin_node = "watchpost";
}

abbrev pub create_a : Operation
create_a = operation "op-a" post_create "a" (post (details "A"))

abbrev pub create_b : Operation
create_b = operation "op-b" post_create "b" (post (details "B"))

abbrev pub join : Operation
join = operation "op-ab" dependency_add "a" (dependency (record { depends_on = "b" }))

abbrev pub loop : Operation
loop = operation "op-aa" dependency_add "a" (dependency (record { depends_on = "a" }))

abbrev pub decode : String → Option Operation
decode t =
    if t == "create a"
    then some create_a
    else if t == "create b"
    then some create_b
    else if t == "join"
    then some join
    else if t == "loop"
    then some loop
    else none

abbrev pub core : Core
core = record { version = 1; decode_operation = decode; digest = λ op. some op.id }

abbrev pub disk : Disk
disk = record { begin_ok = true; meta_ok = true; commit_ok = true }

abbrev pub entry : ℕ → String → LogEntry
entry index bytes = record { index = index; term = 1; bytes = bytes }

abbrev pub machine : Db → Fsm
machine db = record {
  db = db;
  supported = 1;
  product = "watchpost";
  graph_rev = 0;
  applied = [];
  applied_index = 0;
  applied_term = 0;
  persisted_index = 0;
  apply_failure = none;
  inject_fail = none;
}

abbrev pub log : List (Disk × LogEntry)
log =
    (disk, entry 1 "create a")
    ∷ (disk, entry 2 "create b")
    ∷ (disk, entry 3 "join")
    ∷ (disk, entry 4 "loop")
    ∷ []

abbrev pub row : String → Post
row id = record {
  id = id;
  name = id;
  kind = "host";
  address = "10.0.0.1";
  owner = "ops";
  labels = "{}";
  maintenance = false;
  archived = false;
  version = 1;
  created_at = "2026-01-01T00:00:00Z";
  updated_at = "2026-01-01T00:00:00Z";
}

abbrev pub two_posts : Db
two_posts = record empty_db { posts = row "a" ∷ row "b" ∷ [] }

abbrev pub edge : String → String → Dependency
edge a b = record { post_id = a; depends_on_id = b }
