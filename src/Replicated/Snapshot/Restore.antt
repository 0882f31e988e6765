-- ===== src/Replicated/Snapshot/Restore.antt =====
-- What a restore does with a snapshot: behind the database, ahead of it, or not genuine.
use watchpost.Base.{String, ◌≡◌, ◌≤◌, some, arith, err}
use watchpost.Replicated.Op.{Core, Disk}
use watchpost.Replicated.Fsm.{Fsm}
use watchpost.Replicated.Snapshot.{Envelope, RestoreError, restore, catch_up}

module _ (core : Core) (checksum : Envelope → String) (disk : Disk) (env : Envelope) (f : Fsm) where
  -- A restore that fails, for whatever reason, leaves the state machine and its database as they
  -- were.
  pub restore_error_keeps :
      {e : RestoreError}
      → (restore core checksum disk (some env) f).1 ≡ err e
      → (restore core checksum disk (some env) f).0 ≡ f
  unfolding restore catch_up
  restore_error_keeps h = ground arith

  -- A snapshot at or behind the position that the database had at the start moves nothing back:
  -- the database, the graph revision and the positions stay.
  pub restore_behind_keeps :
      env.applied_index ≤ f.persisted_index
      → let g = (restore core checksum disk (some env) f).0 in
        (g.db ≡ f.db)
        × (g.graph_rev ≡ f.graph_rev)
        × (g.applied_index ≡ f.applied_index)
        × (g.persisted_index ≡ f.persisted_index)
  unfolding restore
  restore_behind_keeps h = ground arith
