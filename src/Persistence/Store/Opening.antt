-- ===== src/Persistence/Store/Opening.antt =====
-- The start of a store (pkg/persistence/store.go): the index is loaded or rebuilt, the log is replayed, and
-- the files are checked.
use qubicdb.Prelude.{
  ℕ, zero, suc, ◌-◌, true, Option, none, some, [], Text, text_eq, length, ltb, ◌==◌, if◌then◌else◌,
}
use qubicdb.Persistence.Codec.{decode}
use qubicdb.Persistence.Wal.{WalRecord, wal_op_put, wal_op_delete, next_payload}
use qubicdb.Persistence.Io.{
  Io, pure, raise, gets, ◌>>=◌, ◌>>◌, modify, call, when, on_error, StoreError,
}
use qubicdb.Persistence.Store.{Setup, FileStore, DurabilityConfig, normalized}
use qubicdb.Persistence.Store.Files.{put_file, write_atomically, truncate_wal}
use qubicdb.Persistence.Store.Index.{
  answer_of, set_index, drop_index, rebuild_index, load_index, save_index, validate_data_files,
}
use qubicdb.Persistence.Store.Calls.{remove_file}

module _ {X S : Type 0} (setup : Setup X S) where
  abbrev St : Type 0
  St = FileStore X S

  unfoldable pub apply_wal_record : WalRecord → Io St Unit
  unfolding write_atomically put_file answer_of set_index remove_file drop_index
  apply_wal_record r =
      if text_eq r.op wal_op_put
      then (if length r.content == 0 then pure tt else (do
        write_atomically setup (put_file r.index_id r.content)
        m ← answer_of (decode setup.codec r.content)
        modify (set_index r.index_id (setup.create_snapshot m))))
      else if text_eq r.op wal_op_delete
      then (do remove_file r.index_id; modify (drop_index r.index_id))
      else pure tt

  -- the next record of the log, and what follows it; `none` where the loop breaks
  unfoldable pub next_record : Text → Option (WalRecord × Text)
  unfolding next_payload
  next_record rest = elim (next_payload rest) [
    | none ↦ none
    | some (payload, rest') ↦ elim (setup.wal.unmarshal_record payload) [
      | none ↦ none
      | some r ↦ some (r, rest')
    ]
  ]

  -- The loop of `replayWAL`: how many records were applied, and what is left of the log. Each round
  -- takes fuel.
  unfoldable pub replay_from : ℕ → ℕ → Text → Io St (ℕ × Text)
  unfolding next_record apply_wal_record
  replay_from zero applied rest = pure (applied, rest)
  replay_from (suc fuel) applied rest = elim (next_record rest) [
    | none ↦ pure (applied, rest)
    | some (r, rest') ↦ do apply_wal_record r; replay_from fuel (suc applied) rest'
  ]

  unfoldable pub replay_log : Option Text → Io St ℕ
  unfolding replay_from truncate_wal
  replay_log none = pure 0
  replay_log (some log) = do
    r ← replay_from (length log) 0 log
    when (ltb 0 (length r.1)) (truncate_wal setup (length log - length r.1))
    pure r.0

  unfoldable pub replay_wal : Io St ℕ
  unfolding replay_log
  replay_wal = do
    enabled ← gets (λ s. s.durability.wal_enabled)
    if enabled then (do call; log ← gets (λ s. s.wal_file); replay_log log) else pure 0

  -- the new store: only the files are there
  unfoldable pub fresh : DurabilityConfig → St → St
  fresh c s = record s {
    durability = c;
    index = [];
    pending_writes = [];
    total_writes = 0;
    total_reads = 0;
    last_sync = none;
    manifest_version = 0;
  }

  unfoldable pub repair_index : StoreError → Io St Unit
  unfolding rebuild_index save_index
  repair_index e = do
    repair ← gets (λ s. s.durability.startup_repair)
    if repair then (rebuild_index setup >> save_index setup) else raise e

  -- `NewStoreWithDurability`; the four directories are made first
  unfoldable pub new_store_with_durability : DurabilityConfig → Io St Unit
  unfolding normalized fresh load_index repair_index replay_wal save_index validate_data_files
  new_store_with_durability c = do
    call
    call
    call
    call
    modify (fresh (normalized setup c))
    on_error (load_index setup) repair_index
    applied ← replay_wal
    when (ltb 0 applied) (save_index setup)
    repair ← gets (λ s. s.durability.startup_repair)
    when repair (validate_data_files setup true >> pure tt)
