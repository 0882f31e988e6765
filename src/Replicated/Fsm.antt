-- ===== src/Replicated/Fsm.antt =====
-- internal/replicated/fsm.go: the state machine. Each method holds the mutex from its start to its
-- end, so a run of the program is a sequence of these calls. `gantry-core` is the parameter `core`.
pub mod Fence
pub mod Retry
pub mod Rule
pub mod Restart
pub mod Revision
use watchpost.Base.{
  ℕ, String, Bool, true, false, not, ◌&&◌, ◌||◌, Option, none, some, List, [], ◌∷◌, ◌==◌, length,
  ltb, leb, if◌then◌else◌, Result, ok, err, ◌>>=◌, ◌>>◌, guard,
}
use watchpost.Base.Assoc.{Assoc, lookup, insert}
use watchpost.Store.Tables.{Db, MetaValue, number, malformed}
use watchpost.Replicated.Op.{
  Kind, post_create, post_update, post_delete, dependency_add, rule_create, rule_set_enable, other,
  Payload, Operation, ApplyResult, Failure, corrupt_entry, unsupported_version, unsupported_kind,
  no_digest, conflicting_retry, storage, injected, Core, Disk, validate_kind,
}
use watchpost.Replicated.Apply.{
  Applied, result_of, apply_post_create, apply_post_update, apply_post_delete, apply_dependency_add,
  apply_rule_create, apply_rule_set_enabled,
}

pub record AppliedOp : Type 0 where
  pub digest : String
  pub result : ApplyResult
  pub payload : Payload
  pub revision : ℕ

-- the test seam: no id matches any operation
pub record InjectApplyFailure : Type 0 where
  pub match_op_id : String
  pub cause : String

pub record Fsm : Type 0 where
  pub db : Db
  pub supported : ℕ
  pub product : String
  pub graph_rev : ℕ
  pub applied : Assoc AppliedOp
  pub applied_index : ℕ
  pub applied_term : ℕ
  pub persisted_index : ℕ
  pub apply_failure : Option Failure
  pub inject_fail : Option InjectApplyFailure

abbrev pub Reply : Type 0
Reply = Result Failure ApplyResult

-- `raft.Log`
pub record LogEntry : Type 0 where
  pub index : ℕ
  pub term : ℕ
  pub bytes : String

-- why `NewFSM` fails
pub data StartError : Type 0 where
  corrupt_metadata recovery_required : StartError

unfoldable pub meta_get : Option MetaValue → Result StartError (Option ℕ)
meta_get none = ok none
meta_get (some (number v)) = ok (some v)
meta_get (some malformed) = err corrupt_metadata

abbrev or_zero : Option ℕ → ℕ
or_zero none = 0
or_zero (some v) = v

abbrev is_none {ℓ} : {A : Type ℓ} → Option A → Bool
is_none none = true
is_none (some a) = false

-- `materializationCount(db) > 0`
unfoldable pub materialized : Db → Bool
materialized db = ltb 0 (length db.posts)

-- the first failure stays
unfoldable pub poison : Failure → Fsm → Fsm
poison e f = elim f.apply_failure [ none ↦ record f { apply_failure = some e } | some old ↦ f ]

unfoldable pub op_known : Fsm → String → Option String
unfolding lookup
op_known f id = elim (lookup id f.applied) [ none ↦ none | some p ↦ some p.digest ]

unfoldable pub clear_apply_failure : Fsm → Fsm
clear_apply_failure f = record f { apply_failure = none }

unfoldable pub inject_apply_failure : String → String → Fsm → Fsm
inject_apply_failure op_id cause f = record f {
  inject_fail = some (record { match_op_id = op_id; cause = cause });
}

unfoldable pub fires : Operation → InjectApplyFailure → Bool
fires op inj = inj.match_op_id == "" || inj.match_op_id == op.id

-- the switch over the kinds
unfoldable pub dispatch : Kind → Disk → Operation → ℕ → ℕ → Fsm → Result Failure Applied
dispatch post_create disk op index term f = apply_post_create disk op index term f.graph_rev f.db
dispatch post_update disk op index term f = apply_post_update disk op index term f.graph_rev f.db
dispatch post_delete disk op index term f = apply_post_delete disk op index term f.graph_rev f.db
dispatch dependency_add disk op index term f =
    apply_dependency_add disk op index term f.graph_rev f.db
dispatch rule_create disk op index term f = apply_rule_create disk op index term f.graph_rev f.db
dispatch rule_set_enable disk op index term f =
    apply_rule_set_enabled disk op index term f.graph_rev f.db
dispatch (other k) disk op index term f = err unsupported_kind

-- `f.applied[op.ID] = …` and the position
unfoldable pub remember : Operation → String → ApplyResult → ℕ → ℕ → Fsm → Fsm
remember op digest res index term f = record f {
  applied =
      insert op.id
        (record { digest = digest; result = res; payload = op.payload; revision = op.revision })
        f.applied;
  applied_index = index;
  applied_term = term;
}

-- what the outcome of the switch does to the state machine
unfoldable pub settle : Operation → String → ℕ → ℕ → Fsm → Result Failure Applied → Fsm × Reply
unfolding poison remember
settle op digest index term f (err e) = (poison e f, err e)
settle op digest index term f (ok a) = (
  remember op digest a.result index term (record f {
    db = a.db;
    graph_rev = a.graph_rev;
    product = if f.product == "" then op.product else f.product;
  }),
  ok a.result,
)

-- the entry is new and not materialized: realize it
unfoldable pub realize : Disk → Operation → String → ℕ → ℕ → Fsm → Fsm × Reply
realize disk op digest index term f =
    settle op digest index term f (dispatch op.kind disk op index term f)

-- the injected failure comes before the realization, and is used up
unfoldable pub realize_or_inject : Disk → Operation → String → ℕ → ℕ → Fsm → Fsm × Reply
unfolding realize fires poison
realize_or_inject disk op digest index term f = elim f.inject_fail [
  | none ↦ realize disk op digest index term f
  | some inj ↦
      if fires op inj
      then (poison (injected inj.cause) (record f { inject_fail = none }), err (injected inj.cause))
      else realize disk op digest index term f
]

-- an entry at or below the persisted index is only remembered
unfoldable pub apply_new : Disk → Operation → String → ℕ → ℕ → Fsm → Fsm × Reply
unfolding realize_or_inject remember result_of
apply_new disk op digest index term f =
    let res = result_of op index term op.revision in
    if leb index f.persisted_index
    then (remember op digest res index term f, ok res)
    else realize_or_inject disk op digest index term f

-- a known id: the same digest has the recorded result, another one is refused
unfoldable pub retry : String → AppliedOp → Fsm → Fsm × Reply
retry digest prior f =
    if prior.digest == digest then (f, ok prior.result) else (f, err conflicting_retry)

unfoldable pub apply_known : Disk → Operation → String → ℕ → ℕ → Fsm → Fsm × Reply
unfolding apply_new retry lookup
apply_known disk op digest index term f = elim (lookup op.id f.applied) [
  | some prior ↦ retry digest prior f
  | none ↦ apply_new disk op digest index term f
]

module _ (core : Core) where
  -- the checks of an entry that has been decoded
  unfoldable pub admit : Fsm → Operation → Result Failure String
  unfolding validate_kind
  admit f op = do
    guard (not (ltb f.supported op.version)) unsupported_version
    validate_kind op.kind
    elim (core.digest op) [ none ↦ err no_digest | some d ↦ ok d ]

  unfoldable pub apply_locked : Disk → Fsm → Operation → ℕ → ℕ → Fsm × Reply
  unfolding poison
  apply_locked disk f op index term = elim f.apply_failure [
    | some e ↦ (f, err e)
    | none ↦ elim (admit f op) [
      | err e ↦ (poison e f, err e)
      | ok digest ↦ apply_known disk op digest index term f
    ]
  ]

  -- `Apply`
  unfoldable pub apply : Disk → Fsm → LogEntry → Fsm × Reply
  unfolding apply_locked poison
  apply disk f entry = elim (core.decode_operation entry.bytes) [
    | none ↦ (poison corrupt_entry f, err corrupt_entry)
    | some op ↦ apply_locked disk f op entry.index entry.term
  ]

  -- the committed log, in order, each entry with the answers of its transaction
  unfoldable pub run : Fsm → List (Disk × LogEntry) → Fsm
  run f [] = f
  run f ((disk, entry) ∷ log) = run (apply disk f entry).0 log

  -- `NewFSM`
  unfoldable pub new_fsm : Db → Result StartError Fsm
  unfolding meta_get materialized
  new_fsm db = do
    index ← meta_get db.meta.applied_index
    guard (not (is_none index && materialized db)) recovery_required
    term ← meta_get db.meta.applied_term
    graph_rev ← meta_get db.meta.graph_revision
    ok (record {
      db = db;
      supported = core.version;
      product = "";
      graph_rev = or_zero graph_rev;
      applied = [];
      applied_index = or_zero index;
      applied_term = or_zero term;
      persisted_index = or_zero index;
      apply_failure = none;
      inject_fail = none;
    })
