-- ===== src/Persistence/Store/Index.antt =====
-- The index of the store and its checkpoints (pkg/persistence/store.go).
use qubicdb.Prelude.{
  ℕ, suc, ◌+◌, ◌-◌, ◌/◌, ◌%◌, ◌^◌, Bool, true, false, Option, none, some, List, [], ◌∷◌, ◌++◌, map,
  Text, bytes, text_eq, text_discrete, length, select, ltb, if◌then◌else◌,
}
use qubicdb.Prelude.Assoc.{lookup, insert, delete}
use qubicdb.Persistence.Codec.{Outcome, ok, err, panic, decode}
use qubicdb.Persistence.Io.{
  StoreError, encode_failed, decode_failed, not_exist, Io, pure, raise, crash, gets, or_raise,
  ◌>>=◌, ◌>>◌, modify, call, write_call, when, attempt, on_error,
}
use qubicdb.Persistence.Store.{Setup, FileStore, decimal}
use qubicdb.Persistence.Store.Files.{read_clock, write_atomically}

unfoldable pub checkpoint_name : ℕ → Text
unfolding decimal
checkpoint_name v = bytes "checkpoints/checkpoint-" ++ (decimal 20 v ++ bytes ".nrdb")

unfoldable pub manifest_name : ℕ → Text
unfolding decimal
manifest_name v = bytes "MANIFEST-" ++ (decimal 20 v ++ bytes ".json")

pub record IntegrityReport : Type 0 where
  pub checked_files : ℕ
  pub corrupt_files : ℕ
  pub repaired_entries : ℕ

unfoldable pub is_not_exist : StoreError → Bool
is_not_exist not_exist = true
is_not_exist _ = false

-- the ids of the files that were found
abbrev pub Present : Type 0
Present = List (Text × Unit {0})

abbrev is_present : {S : Type 0} → Present → Text × S → Bool
is_present present e = elim (lookup text_discrete e.0 present) [ none ↦ false | some _ ↦ true ]

module _ {X S : Type 0} where
  -- a panic of `Decode` ends the process
  unfoldable pub answer_of : Outcome X → Io (FileStore X S) X
  answer_of (ok m) = pure m
  answer_of (err _) = raise decode_failed
  answer_of panic = crash

  unfoldable pub set_index : Text → S → FileStore X S → FileStore X S
  set_index id snap s = record s { index = insert text_discrete id snap s.index }

  unfoldable pub drop_index : Text → FileStore X S → FileStore X S
  drop_index id s = record s { index = delete text_discrete id s.index }

  unfoldable pub clear_index : FileStore X S → FileStore X S
  clear_index s = record s { index = [] }

  -- `os.ReadFile` of a file that may be missing
  unfoldable pub read_whole : (FileStore X S → Option Text) → Io (FileStore X S) Text
  read_whole path = do call; found ← gets path; or_raise found not_exist

  unfoldable pub drop_missing : Present → FileStore X S → FileStore X S
  drop_missing present s = record s { index = select (is_present present) s.index }

module _ {X S : Type 0} (setup : Setup X S) where
  abbrev St : Type 0
  St = FileStore X S

  unfoldable pub fill_index : List S → St → St
  unfolding set_index
  fill_index [] s = s
  fill_index (snap ∷ snaps) s = fill_index snaps (set_index (setup.snapshot_id snap) snap s)

  unfoldable pub load_index_from_manifest : Io St Unit
  unfolding read_whole clear_index fill_index
  load_index_from_manifest = do
    raw_name ← read_whole (λ s. s.current_file)
    let name = setup.trim_space raw_name
    if text_eq name [] then raise not_exist else do
      manifest_data ← read_whole (λ s. lookup text_discrete name s.manifest_files)
      manifest ← or_raise (setup.unmarshal_manifest manifest_data) decode_failed
      checkpoint_data ←
          read_whole (λ s. lookup text_discrete manifest.checkpoint s.checkpoint_files)
      snapshots ← or_raise (setup.unmarshal_snapshots checkpoint_data) decode_failed
      modify clear_index
      modify (fill_index snapshots)
      modify (λ s. record s { manifest_version = manifest.version })

  -- the loop over the files, which skips what it cannot read
  unfoldable pub rebuild_each : List (Text × Text) → Io St Unit
  unfolding answer_of set_index
  rebuild_each [] = pure tt
  rebuild_each ((id, raw) ∷ files) = do
    matrix ← attempt do call; answer_of (decode setup.codec raw)
    elim matrix [ none ↦ pure tt | some m ↦ modify (set_index id (setup.create_snapshot m)) ]
    rebuild_each files

  unfoldable pub rebuild_index : Io St Unit
  unfolding rebuild_each clear_index
  rebuild_index = do
    call
    entries ← gets (λ s. s.data_files)
    modify clear_index
    rebuild_each entries

  unfoldable pub load_index : Io St Unit
  unfolding load_index_from_manifest is_not_exist rebuild_index
  load_index =
      on_error load_index_from_manifest λ e. if is_not_exist e then rebuild_index else raise e

  unfoldable pub save_index : Io St Unit
  unfolding read_clock write_atomically checkpoint_name manifest_name
  save_index = do
    snapshots ← gets (λ s. map (λ e. e.1) s.index)
    raw ← or_raise (setup.marshal_snapshots snapshots) encode_failed
    version ← gets (λ s. (s.manifest_version + 1) % 2 ^ 64)
    let checkpoint = checkpoint_name version
    write_atomically setup (λ s. record s {
      checkpoint_files = insert text_discrete checkpoint raw s.checkpoint_files;
    })
    now ← read_clock setup
    manifest ←
        or_raise
          (setup.marshal_manifest
            (record { version = version; checkpoint = checkpoint; created_at = now / 1000000000 }))
          encode_failed
    let name = manifest_name version
    write_atomically setup
        (λ s. record s { manifest_files = insert text_discrete name manifest s.manifest_files })
    write_atomically setup (λ s. record s { current_file = some name })
    write_atomically setup (λ s. record s { index_file = some raw })
    modify (λ s. record s { manifest_version = version })

  -- one file of the loop of `ValidateDataFiles`; `present` are the ids that it leaves
  unfoldable pub check_file :
      Bool → Text → Text → IntegrityReport → Present → Io St (IntegrityReport × Present)
  unfolding answer_of drop_index
  check_file repair id raw report present = do
    let seen = record report { checked_files = suc report.checked_files }
    matrix ← attempt do call; answer_of (decode setup.codec raw)
    elim matrix [
      | some _ ↦ pure (seen, insert text_discrete id tt present)
      | none ↦
          let corrupt = record seen { corrupt_files = suc seen.corrupt_files } in
          if repair
          then (do
            write_call (λ s. record s { data_files = delete text_discrete id s.data_files })
                (λ n s. s)
            modify (drop_index id)
            pure (
              record corrupt { repaired_entries = suc corrupt.repaired_entries },
              delete text_discrete id present,
            ))
          else pure (corrupt, insert text_discrete id tt present)
    ]

  unfoldable pub check_files :
      Bool → List (Text × Text) → IntegrityReport → Present → Io St (IntegrityReport × Present)
  unfolding check_file
  check_files repair [] report present = pure (report, present)
  check_files repair ((id, raw) ∷ files) report present =
      check_file repair id raw report present >>= λ r. check_files repair files r.0 r.1

  unfoldable pub validate_data_files : Bool → Io St IntegrityReport
  unfolding check_files drop_missing save_index
  validate_data_files repair = do
    call
    entries ← gets (λ s. s.data_files)
    r ←
        check_files repair entries
          (record { checked_files = 0; corrupt_files = 0; repaired_entries = 0 }) []
    if repair
        then (do
          before ← gets (λ s. length s.index)
          modify (drop_missing r.1)
          after ← gets (λ s. length s.index)
          let repaired = r.0.repaired_entries + (before - after)
          when (ltb 0 repaired) save_index
          pure (record r.0 { repaired_entries = repaired }))
        else pure r.0
