-- ===== src/Persistence/Store/Files.antt =====
-- Writing of files (pkg/persistence/store.go): atomic replacement, the write-ahead log, and when they
-- are flushed to the disk.
use qubicdb.Prelude.{
  ℕ, suc, Bool, true, false, Option, none, some, [], ◌++◌, Text, text_eq, text_discrete, take,
  if◌then◌else◌,
}
use qubicdb.Prelude.Assoc.{insert}
use qubicdb.Persistence.Io.{
  encode_failed, Io, pure, gets, or_raise, ◌>>=◌, ◌>>◌, modify, call, write_call, when,
}
use qubicdb.Persistence.Wal.{WalRecord, frame_payload}
use qubicdb.Persistence.Store.{
  Setup, FileStore, DurabilityConfig, fsync_policy_always, fsync_policy_off, at_least,
}

-- the contents of a file that may be missing
abbrev pub contents : Option Text → Text
contents none = []
contents (some t) = t

module _ {X S : Type 0} where
  unfoldable pub append_bytes : Text → FileStore X S → FileStore X S
  append_bytes buf s = record s { wal_file = some (contents s.wal_file ++ buf) }

  -- the file of a matrix
  unfoldable pub put_file : Text → Text → FileStore X S → FileStore X S
  put_file id raw s = record s { data_files = insert text_discrete id raw s.data_files }

module _ {X S : Type 0} (setup : Setup X S) where
  abbrev St : Type 0
  St = FileStore X S

  -- `time.Now()`
  unfoldable pub read_clock : Io St ℕ
  read_clock = do
    now ← gets (λ s. setup.clock s.readings)
    modify (λ s. record s { readings = suc s.readings })
    pure now

  -- the state of the interval policy at a reading of the clock
  abbrev pub is_due : DurabilityConfig → Option ℕ → ℕ → Bool
  is_due c none now = true
  is_due c (some last) now = at_least c.fsync_interval last now

  unfoldable pub should_sync : Io St Bool
  unfolding read_clock
  should_sync = do
    c ← gets (λ s. s.durability)
    if text_eq c.fsync_policy fsync_policy_off
        then pure false
        else if text_eq c.fsync_policy fsync_policy_always
        then pure true
        else do
          now ← read_clock
          due ← gets (λ s. is_due c s.last_sync now)
          when due (modify (λ s. record s { last_sync = some now }))
          pure due

  -- Open, Sync
  unfoldable pub sync_dir : Io St Unit
  sync_dir = do call; call

  -- The file is complete under its temporary name before it takes its own; `place` is the effect of
  -- the renaming.
  unfoldable pub write_atomically : (St → St) → Io St Unit
  unfolding should_sync sync_dir
  write_atomically place = do
    call
    call
    sync_now ← should_sync
    when sync_now call
    call
    write_call place (λ n s. s)
    when sync_now sync_dir

  -- the part of `appendWAL` and of `truncateWALLocked` behind the write
  unfoldable pub sync_wal : Io St Unit
  unfolding should_sync sync_dir
  sync_wal = do sync_now ← should_sync; when sync_now do call; sync_dir

  unfoldable pub append_wal : WalRecord → Io St Unit
  unfolding append_bytes sync_wal
  append_wal r = do
    enabled ← gets (λ s. s.durability.wal_enabled)
    when enabled do
      payload ← or_raise (setup.wal.marshal_record r) encode_failed
      call
      modify (append_bytes [])
      let buf = frame_payload payload
      write_call (append_bytes buf) (λ n. append_bytes (take n buf))
      sync_wal

  unfoldable pub truncate_wal : ℕ → Io St Unit
  unfolding sync_wal
  truncate_wal size = do
    call
    modify (append_bytes [])
    write_call (λ s. record s { wal_file = some (take size (contents s.wal_file)) }) (λ n s. s)
    sync_wal
