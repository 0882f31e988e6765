-- ===== src/Replicated/Fsm/Restart.antt =====
-- A restart over the database that a run left, and the replay of the log that was applied to it.
use watchpost.Base.{
  ℕ, String, ◌≡◌, ◌≢◌, ◌≤◌, refl, inl, inr, ◌∙◌, Option, none, some, List, [], ◌∷◌, arith, ok, All,
}
use watchpost.Base.Assoc.{lookup}
use watchpost.Store.Tables.{Db, MetaValue, number, malformed}
use watchpost.Replicated.Op.{Operation, ApplyResult, post_create, Core, Disk}
use watchpost.Replicated.Apply.{apply_post_create}
use watchpost.Replicated.Fsm.{Fsm, LogEntry, dispatch, settle, apply_known, apply, run, new_fsm}
use watchpost.Replicated.Fsm.Rule.{apply_effect}
use watchpost.Replicated.Fsm.Revision.{dispatch-Revised}

-- the number that a restart reads from a metadata value
abbrev stored : Option MetaValue → Option ℕ
stored none = some 0
stored (some (number v)) = some v
stored (some malformed) = none

-- the database records the revision that the state machine has in memory
abbrev pub IsRecorded : Fsm → Type 0
IsRecorded f = stored f.db.meta.graph_revision ≡ some f.graph_rev

apply-IsRecorded :
    (core : Core) (disk : Disk) (f : Fsm) (entry : LogEntry)
    → IsRecorded f
    → IsRecorded (apply core disk f entry).0
apply-IsRecorded core disk f entry h = elim (apply_effect core disk f entry) [
  | inl same ↦ rw same.0 (rw same.1 h)
  | inr (op, a, decoded, done, took) ↦ rw took.0 (
      rw took.1
        (rw (dispatch-Revised disk op entry.index entry.term f op.kind done).revision_recorded))
]

run-IsRecorded :
    (core : Core) (f : Fsm) (log : List (Disk × LogEntry))
    → IsRecorded f
    → IsRecorded (run core f log)
unfolding run
run-IsRecorded core f [] h = h
run-IsRecorded core f ((disk, entry) ∷ log) h =
    run-IsRecorded core (apply core disk f entry).0 log (apply-IsRecorded core disk f entry h)

new_fsm_reads :
    (core : Core) (db : Db) {g : Fsm}
    → new_fsm core db ≡ ok g
    → (g.db ≡ db)
      × (stored db.meta.graph_revision ≡ some g.graph_rev)
      × (stored db.meta.applied_index ≡ some g.persisted_index)
      × (g.apply_failure ≡ none)
unfolding new_fsm
new_fsm_reads core db h = ground arith

-- When a state machine whose database records its graph revision has run a log, a restart over the
-- database that is left, if it starts, has that database and the graph revision that the run had
-- reached.
pub restart_revision :
    (core : Core) (f : Fsm) (log : List (Disk × LogEntry)) {g : Fsm}
    → IsRecorded f
    → new_fsm core (run core f log).db ≡ ok g
    → (g.db ≡ (run core f log).db) × (g.graph_rev ≡ (run core f log).graph_rev)
restart_revision core f log h started =
    let read = new_fsm_reads core (run core f log).db started in
    (read.0, ground (arith, run-IsRecorded core f log h))

module _ (core : Core) (disk : Disk) (f : Fsm) (entry : LogEntry) where
  skip_known :
      (op : Operation) (digest : String)
      → entry.index ≤ f.persisted_index
      → ((apply_known disk op digest entry.index entry.term f).0.db ≡ f.db)
        × ((apply_known disk op digest entry.index entry.term f).0.graph_rev ≡ f.graph_rev)
        × ((apply_known disk op digest entry.index entry.term f).0.persisted_index
            ≡ f.persisted_index)
  unfolding apply_known
  skip_known op digest h = ground arith

  skip :
      entry.index ≤ f.persisted_index
      → ((apply core disk f entry).0.db ≡ f.db)
        × ((apply core disk f entry).0.graph_rev ≡ f.graph_rev)
        × ((apply core disk f entry).0.persisted_index ≡ f.persisted_index)
  unfolding apply
  skip h = grind (arith, skip_known)

-- The replay of entries that the database already represents changes neither the database, the
-- node-local rows included, nor the graph revision.
pub replay_skips :
    (core : Core) (f : Fsm) (log : List (Disk × LogEntry))
    → All (λ d. d.1.index ≤ f.persisted_index) log
    → ((run core f log).db ≡ f.db) × ((run core f log).graph_rev ≡ f.graph_rev)
unfolding run
replay_skips core f [] h = (refl, refl)
replay_skips core f ((disk, entry) ∷ log) h =
    let now = skip core disk f entry h.0 in
    let later = replay_skips core (apply core disk f entry).0 log (rw now.2 h.1) in
    (later.0 ∙ now.0, later.1 ∙ now.1)

-- The answer to a committed operation is not the same after a restart: a post.create of revision 0
-- that was realized answered with revision 1, and the entry that is only remembered in the replay
-- answers with revision 0, so a retry of the request gets another result than the first time.
pub result_changes_on_restart :
    (core : Core) (disk disk' : Disk) (f g : Fsm) (op : Operation) (digest : String)
    (index term : ℕ) (r r' : ApplyResult)
    → op.kind ≡ post_create
    → op.revision ≡ 0
    → f.persisted_index ≤ index
    → f.persisted_index ≢ index
    → index ≤ g.persisted_index
    → lookup op.id f.applied ≡ none
    → lookup op.id g.applied ≡ none
    → (apply_known disk op digest index term f).1 ≡ ok r
    → (apply_known disk' op digest index term g).1 ≡ ok r'
    → (r.revision ≡ 1) × (r'.revision ≡ 0)
unfolding apply_known settle dispatch apply_post_create
result_changes_on_restart core disk disk' f g op digest index term r r' kind zero_rev above ne below
      fresh fresh' h h' =
    (ground arith, ground arith)
