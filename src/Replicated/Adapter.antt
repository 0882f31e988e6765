-- ===== src/Replicated/Adapter.antt =====
-- internal/replicated/adapter.go and ops.go: the checks of a mutation before it is proposed. What
-- consensus does with a proposed operation is gantry-core's; an admission ends where
-- `node.Propose` is called. The graph lock is held from the capture of the revision to the
-- proposal, so the revision cannot change in between and its second read finds the first value.
pub mod Admitted
use watchpost.Base.{
  ℕ, String, Bool, true, false, not, ◌&&◌, ◌||◌, Option, none, some, List, ◌==◌, eqb, count,
  if◌then◌else◌, Result, ok, err, ◌>>=◌, ◌>>◌, guard,
}
use watchpost.Base.Int.{ℤ, eqb_ℤ}
use watchpost.Base.Assoc.{lookup}
use watchpost.Store.Rows.{Post}
use watchpost.Store.Tables.{Db}
use watchpost.Replicated.Op.{
  Kind, post_create, post_update, post_delete, dependency_add, rule_create, rule_set_enable, other,
  PostPayload, DepPayload, RulePayload, Payload, post, dependency, rule, null, empty, Operation,
  ApplyResult, Failure, Core, decode_post, decode_dependency, decode_rule, zero_rule,
}
use watchpost.Replicated.Graph.{has_edge, reaches}
use watchpost.Replicated.Fsm.{AppliedOp, Fsm}

-- why `validateDependencyAdd` refuses an edge
pub data EdgeError : Type 0 where
  empty_endpoint self_edge unknown_endpoint known_edge cycle : EdgeError

pub data Refusal : Type 0 where
  unhealthy : Failure → Refusal
  other_payload : Refusal
  invalid_edge : EdgeError → Refusal

-- the committed result of an earlier apply, or an operation for consensus
pub data Admission : Type 0 where
  answered : ApplyResult → Admission
  proposed : Operation → Admission

unfoldable pub build_operation :
    Core → String → String → Kind → String → ℕ → ℕ → Payload → Operation
build_operation core id product kind object_id revision domain_rev payload = record {
  id = id;
  product = product;
  version = core.version;
  kind = kind;
  object_kind = "post";
  object_id = object_id;
  revision = revision;
  domain_revision = domain_rev;
  payload = payload;
  origin_node = product;
}

unfoldable pub validate_dependency_add : Db → String → String → Result EdgeError (Unit {0})
validate_dependency_add db source depends = do
  guard (not (source == "" || depends == "")) empty_endpoint
  guard (not (source == depends)) self_edge
  guard (eqb (count (λ (p : Post). p.id == source || p.id == depends) db.posts) 2) unknown_endpoint
  guard (not (has_edge db.post_dependencies source depends)) known_edge
  guard (not (reaches db.post_dependencies depends source)) cycle

unfoldable pub equal_float_ptr : Option ℤ → Option ℤ → Bool
equal_float_ptr none none = true
equal_float_ptr none (some b) = false
equal_float_ptr (some a) none = false
equal_float_ptr (some a) (some b) = eqb_ℤ a b

abbrev both {ℓ} : {A : Type ℓ} → (A → A → Bool) → Option A → Option A → Bool
both same (some p) (some q) = same p q
both same _ _ = false

abbrev pub bool_eq : Bool → Bool → Bool
bool_eq true b = b
bool_eq false b = not b

-- the fields that a client sees, without the timestamps
unfoldable pub same_post_intent : PostPayload → PostPayload → Bool
same_post_intent p q =
    p.name == q.name
    && p.kind == q.kind
    && p.address == q.address
    && p.owner == q.owner
    && p.labels_json == q.labels_json
    && bool_eq p.maintenance q.maintenance
    && bool_eq p.archived q.archived

unfoldable pub same_rule_intent : RulePayload → RulePayload → Bool
unfolding equal_float_ptr
same_rule_intent p q =
    p.post_id == q.post_id
    && p.signal == q.signal
    && p.operator == q.operator
    && eqb_ℤ p.threshold q.threshold
    && eqb p.duration_seconds q.duration_seconds
    && equal_float_ptr p.recovery_threshold q.recovery_threshold
    && p.missing_policy == q.missing_policy
    && p.severity == q.severity
    && bool_eq p.enabled q.enabled

unfoldable pub same_payload : Kind → Payload → Payload → Bool
unfolding decode_post decode_dependency decode_rule same_post_intent same_rule_intent
same_payload post_create p q = both same_post_intent (decode_post p) (decode_post q)
same_payload post_update p q = both same_post_intent (decode_post p) (decode_post q)
same_payload rule_create p q = both same_rule_intent (decode_rule p) (decode_rule q)
same_payload rule_set_enable p q =
    both (λ r s. bool_eq r.enabled s.enabled) (decode_rule p) (decode_rule q)
same_payload dependency_add p q =
    both (λ d e. d.depends_on == e.depends_on) (decode_dependency p) (decode_dependency q)
same_payload post_delete p q = true
same_payload (other k) p q = false

unfoldable pub semantically_equivalent : Kind → AppliedOp → String → ℕ → Payload → Bool
unfolding same_payload
semantically_equivalent kind prior object_id revision payload =
    prior.result.object_id == object_id
    && eqb prior.revision revision
    && same_payload kind prior.payload payload

-- `len(prior.Payload) > 0`
unfoldable pub has_payload : AppliedOp → Bool
has_payload prior = elim prior.payload [ empty ↦ false | _ ↦ true ]

-- the request identity of an operation that is already applied
unfoldable pub prior_answer : Kind → AppliedOp → String → ℕ → Payload → Result Refusal Admission
prior_answer kind prior object_id revision payload =
    if semantically_equivalent kind prior object_id revision payload
    then ok (answered prior.result)
    else err other_payload

-- what comes before both kinds of proposal: `fresh` is the rest of the method
unfoldable pub admit_with :
    Fsm → Kind → String → String → ℕ → Payload → Result Refusal Admission → Result Refusal Admission
unfolding has_payload prior_answer lookup
admit_with f kind op_id object_id revision payload fresh = elim f.apply_failure [
  | some e ↦ err (unhealthy e)
  | none ↦ elim (lookup op_id f.applied) [
    | none ↦ fresh
    | some prior ↦
        if has_payload prior then prior_answer kind prior object_id revision payload else fresh
  ]
]

abbrev as_refusal {ℓ} : {A : Type ℓ} → Result EdgeError A → Result Refusal A
as_refusal (ok a) = ok a
as_refusal (err e) = err (invalid_edge e)

module _ (core : Core) (product : String) (f : Fsm) where
  unfoldable pub propose_op : Kind → String → String → ℕ → ℕ → Payload → Result Refusal Admission
  unfolding admit_with build_operation
  propose_op kind op_id id revision domain_rev payload =
      admit_with f kind op_id id revision payload
        (ok (proposed (build_operation core op_id product kind id revision domain_rev payload)))

  unfoldable pub graph_propose :
      Kind → String → String → ℕ → Payload → Result EdgeError (Unit {0}) → Result Refusal Admission
  unfolding admit_with build_operation
  graph_propose kind op_id id revision payload validated =
      admit_with f kind op_id id revision payload (do
        as_refusal validated
        ok (proposed (build_operation core op_id product kind id revision f.graph_rev payload)))

  unfoldable pub create_post : String → String → PostPayload → Result Refusal Admission
  unfolding propose_op
  create_post op_id id p = propose_op post_create op_id id 0 0 (post p)

  unfoldable pub update_post : String → String → ℕ → PostPayload → Result Refusal Admission
  unfolding propose_op
  update_post op_id id expected_version p =
      propose_op post_update op_id id expected_version 0 (post p)

  unfoldable pub delete_post : String → String → Result Refusal Admission
  unfolding graph_propose
  delete_post op_id id = graph_propose post_delete op_id id 0 null (ok tt)

  unfoldable pub add_dependency : String → String → String → Result Refusal Admission
  unfolding graph_propose
  add_dependency op_id source depends =
      graph_propose dependency_add op_id source 0 (dependency (record { depends_on = depends }))
        (validate_dependency_add f.db source depends)

  unfoldable pub create_rule : String → String → RulePayload → Result Refusal Admission
  unfolding propose_op
  create_rule op_id id r = propose_op rule_create op_id id 0 0 (rule r)

  unfoldable pub set_rule_enabled : String → String → ℕ → Bool → Result Refusal Admission
  unfolding propose_op
  set_rule_enabled op_id id expected_version enabled =
      propose_op rule_set_enable op_id id expected_version 0
        (rule (record zero_rule { enabled = enabled }))
