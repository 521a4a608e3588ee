-- ===== src/Persistence/Store/Calls.antt =====
-- The operations of the store (pkg/persistence/store.go).
use qubicdb.Prelude.{
  ◌+◌, ◌%◌, ◌^◌, Bool, true, false, Option, none, some, List, [], ◌∷◌, Text, text_discrete,
  if◌then◌else◌,
}
use qubicdb.Prelude.Assoc.{lookup, insert, delete, keys}
use qubicdb.Persistence.Codec.{encode, decode}
use qubicdb.Persistence.Wal.{WalRecord, wal_op_put, wal_op_delete}
use qubicdb.Persistence.Io.{
  StoreError, encode_failed, matrix_not_found, Io, pure, raise, gets, or_raise, ◌>>=◌, ◌>>◌, modify,
  call, write_call, attempt, on_error,
}
use qubicdb.Persistence.Store.{Setup, FileStore}
use qubicdb.Persistence.Store.Files.{put_file, write_atomically, append_wal}
use qubicdb.Persistence.Store.Index.{
  answer_of, set_index, drop_index, read_whole, is_not_exist, save_index,
}

abbrev pub put_record : Text → Text → WalRecord
put_record id raw = record { op = wal_op_put; index_id = id; content = raw }

abbrev pub delete_record : Text → WalRecord
delete_record id = record { op = wal_op_delete; index_id = id; content = [] }

module _ {X S : Type 0} where
  unfoldable pub set_pending : Text → X → FileStore X S → FileStore X S
  set_pending id m s = record s { pending_writes = insert text_discrete id m s.pending_writes }

  unfoldable pub drop_pending : Text → FileStore X S → FileStore X S
  drop_pending id s = record s { pending_writes = delete text_discrete id s.pending_writes }

  -- `os.Remove`; a file that is missing is no error
  unfoldable pub remove_file : Text → Io (FileStore X S) Unit
  remove_file id =
      write_call (λ s. record s { data_files = delete text_discrete id s.data_files }) (λ n s. s)

  unfoldable pub get_snapshot : Text → FileStore X S → Option S
  get_snapshot id s = lookup text_discrete id s.index

  unfoldable pub list_indexes : FileStore X S → List Text
  list_indexes s = keys s.index

module _ {X S : Type 0} (setup : Setup X S) where
  abbrev St : Type 0
  St = FileStore X S

  unfoldable pub flush_found : Text → Option X → Io St Unit
  unfolding drop_pending write_atomically put_file set_index save_index
  flush_found id none = pure tt
  flush_found id (some m) = do
    modify (drop_pending id)
    raw ← or_raise (encode setup.codec setup.compress m) encode_failed
    write_atomically setup (put_file id raw)
    modify (set_index id (setup.create_snapshot m))
    modify (λ s. record s { total_writes = (s.total_writes + 1) % 2 ^ 64 })
    save_index setup

  unfoldable pub flush_user : Text → Io St Unit
  unfolding flush_found
  flush_user id = gets (λ s. lookup text_discrete id s.pending_writes) >>= flush_found id

  -- the loop of `FlushAll`, which goes on after an error and answers the last one
  unfoldable pub flush_each : List Text → Option StoreError → Io St Unit
  unfolding flush_user
  flush_each [] none = pure tt
  flush_each [] (some e) = raise e
  flush_each (id ∷ ids) last = do
    last' ← on_error (flush_user id >> pure last) (λ e. pure (some e))
    flush_each ids last'

  unfoldable pub flush_all : Io St Unit
  unfolding flush_each
  flush_all = gets (λ s. keys s.pending_writes) >>= λ ids. flush_each ids none

  unfoldable pub save_async : X → Io St Unit
  unfolding append_wal set_pending
  save_async m = do
    raw ← or_raise (encode setup.codec setup.compress m) encode_failed
    append_wal setup (put_record (setup.codec.index_id m) raw)
    modify (set_pending (setup.codec.index_id m) m)

  unfoldable pub save_matrix : X → Io St Unit
  unfolding append_wal set_pending flush_user
  save_matrix m = do
    raw ← or_raise (encode setup.codec setup.compress m) encode_failed
    append_wal setup (put_record (setup.codec.index_id m) raw)
    modify (set_pending (setup.codec.index_id m) m)
    flush_user (setup.codec.index_id m)

  unfoldable pub delete_matrix : Text → Io St Unit
  unfolding append_wal drop_pending drop_index remove_file save_index
  delete_matrix id = do
    append_wal setup (delete_record id)
    modify (drop_pending id)
    modify (drop_index id)
    remove_file id
    save_index setup

  unfoldable pub load_matrix : Text → Io St X
  unfolding read_whole is_not_exist answer_of
  load_matrix id = do
    raw ←
        on_error (read_whole (λ s. lookup text_discrete id s.data_files))
          (λ e. raise (if is_not_exist e then matrix_not_found else e))
    m ← answer_of (decode setup.codec raw)
    modify (λ s. record s { total_reads = (s.total_reads + 1) % 2 ^ 64 })
    pure m

  unfoldable pub matrix_exists : Text → Io St Bool
  matrix_exists id = do
    indexed ← gets (λ s. lookup text_discrete id s.index)
    elim indexed [
      | some _ ↦ pure true
      | none ↦ do
        found ← attempt do call; gets (λ s. lookup text_discrete id s.data_files)
        pure (elim found [ some (some _) ↦ true | _ ↦ false ])
    ]
