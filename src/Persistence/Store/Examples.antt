-- ===== src/Persistence/Store/Examples.antt =====
-- A store of byte strings that meets the assumptions, and its theorems at lives with crashes (pkg/persistence/store.go).
use qubicdb.Prelude.{
  ℕ, zero, suc, ◌+◌, ◌<◌, ◌≤◌, ◌≡◌, ◌≢◌, refl, sym, ap, ◌∙◌, subst, inl, inr, Bool, true, false,
  Option, none, some, List, [], ◌∷◌, ◌++◌, Text, bytes, length, take, drop, take-append,
  drop-append, length-append, All, arith, text_eq, text_discrete,
}
use qubicdb.Persistence.Codec.{Library, encode}
use qubicdb.Persistence.Wal.{WalRecord, WalLibrary}
use qubicdb.Persistence.Io.{
  Fault, fine, fails, crashes, Answer, done, failed, crashed, io_failed, StoreError,
}
use qubicdb.Persistence.Store.{
  Setup, FileStore, DurabilityConfig, default_durability_config, no_files,
}
use qubicdb.Persistence.Store.Log.{SetupLaws, IsStorable}
use qubicdb.Persistence.Store.Log.{Change}
use qubicdb.Persistence.Store.Recovery.{IsOrderly}
use qubicdb.Persistence.Store.Reopening.{load_after, run_sessions-load_after, run_sessions_saved}
use qubicdb.Prelude.Assoc.{lookup}
use qubicdb.Persistence.Io.{matrix_not_found}
use qubicdb.Persistence.Store.Index.{IntegrityReport, read_whole}
use qubicdb.Persistence.Store.Calls.{load_matrix}
use qubicdb.Persistence.Store.Ending.{replay_from_ends}
use qubicdb.Persistence.Store.Sessions.{
  Accounts, answer_after, saving, saving_async, flushing, deleting, Session, run_sessions,
}
use qubicdb.Persistence.Store.Opening.{replay_from}

-- a text behind its length
abbrev counted : Text → Text → Text
counted t rest = length t ∷ (t ++ rest)

abbrev cut_record : Text → Option WalRecord
cut_record [] = none
cut_record (n ∷ t) = elim (drop n t) [
  | [] ↦ none
  | k ∷ u ↦ some (record { op = take n t; index_id = take k u; content = drop k u })
]

abbrev toy_wal : WalLibrary
toy_wal = record {
  marshal_record = λ r. some (counted r.op (counted r.index_id r.content));
  unmarshal_record = cut_record;
}

-- A matrix is its index id of one byte and more.
abbrev toy : Setup Text Text
toy = record {
  codec = record {
    index_id = take 1;
    marshal = some;
    unmarshal = some;
    compress_data = some;
    decompress_data = some;
    max_alloc = 281474976710656;
  };
  compress = false;
  wal = toy_wal;
  create_snapshot = take 1;
  snapshot_id = λ s. s;
  marshal_snapshots = λ snaps. some [];
  unmarshal_snapshots = λ t. some [];
  marshal_manifest = λ e. some e.checkpoint;
  unmarshal_manifest = λ t. some (record { version = 0; checkpoint = t; created_at = 0 });
  trim_space = λ t. t;
  to_lower = λ t. t;
  clock = λ n. n;
}

cut_record-counted :
    (r : WalRecord) → cut_record (counted r.op (counted r.index_id r.content)) ≡ some r
cut_record-counted r =
    rw (drop-append r.op (counted r.index_id r.content), cut_record)
      (rw
        (
          take-append r.op (counted r.index_id r.content),
          take-append r.index_id r.content,
          drop-append r.index_id r.content,
        )
        refl)

toy_laws : SetupLaws toy
toy_laws = record {
  codec_laws = record { unmarshal_marshal = λ m d h. sym h; decompress_compress = λ d c h. sym h };
  alloc_bound = omega arith;
  unmarshal_marshal_record = λ r p h. ground (arith, cut_record-counted r);
  marshal_record_bytes = λ r p h. ground arith;
  marshals_snapshots = λ snaps h. ground arith;
  marshals_manifest = λ e h. ground arith;
}

abbrev first : Text
first = 7 ∷ 1 ∷ []

abbrev second : Text
second = 8 ∷ 2 ∷ []

abbrev file : Text → Text
file body = bytes "NRDB" ++ (1 ∷ 0 ∷ 0 ∷ 0 ∷ 1 ∷ 0 ∷ 0 ∷ 0 ∷ 2 ∷ 0 ∷ 0 ∷ 0 ∷ 0 ∷ 0 ∷ 0 ∷ 0 ∷ body)

abbrev first_file : Text
first_file = file (218 ∷ 0 ∷ 0 ∷ 0 ∷ 7 ∷ 7 ∷ 1 ∷ [])

abbrev second_file : Text
second_file = file (250 ∷ 0 ∷ 0 ∷ 0 ∷ 8 ∷ 8 ∷ 2 ∷ [])

abbrev no_report : IntegrityReport
no_report = record { checked_files = 0; corrupt_files = 0; repaired_entries = 0 }

abbrev one_file : FileStore Text Text
one_file = record no_files { data_files = (7 ∷ [], first_file) ∷ []; index = (7 ∷ [], 7 ∷ []) ∷ [] }

abbrev repeat : ℕ → Fault → List Fault → List Fault
repeat zero f fs = fs
repeat (suc n) f fs = f ∷ repeat n f fs

abbrev sessions : List (Session Text)
sessions =
    record {
      faults = repeat 33 fine (crashes 5 ∷ []);
      requests = saving first ∷ saving second ∷ deleting (7 ∷ []) ∷ [];
    }
    ∷ record { faults = []; requests = saving_async second ∷ flushing ∷ [] }
    ∷ []

store_code : Unit {0}
unfolding run_sessions qubicdb.Persistence.Io.◌>>=◌ qubicdb.Persistence.Io.call
    qubicdb.Persistence.Io.modify qubicdb.Persistence.Io.on_error qubicdb.Persistence.Io.gets
    qubicdb.Persistence.Io.or_raise qubicdb.Persistence.Io.when qubicdb.Persistence.Io.pure
    qubicdb.Persistence.Io.raise qubicdb.Persistence.Io.crash qubicdb.Persistence.Io.attempt
    qubicdb.Persistence.Io.write_call qubicdb.Prelude.select qubicdb.Prelude.Assoc.keys
    qubicdb.Prelude.Assoc.lookup qubicdb.Prelude.Assoc.insert qubicdb.Prelude.Assoc.delete text_eq
    qubicdb.Persistence.Store.at_least qubicdb.Persistence.Wal.frame_payload
    qubicdb.Persistence.Wal.crc32 qubicdb.Persistence.Words.put_le qubicdb.Persistence.Words.get_le
    qubicdb.Persistence.Codec.checksum encode qubicdb.Persistence.Codec.decode
    qubicdb.Persistence.Codec.get_header qubicdb.Persistence.Codec.read_full
store_code = tt

file_code : Unit {0}
unfolding encode qubicdb.Persistence.Words.put_le qubicdb.Persistence.Codec.checksum
file_code = tt

encode-first : encode toy.codec false first ≡ some first_file
unfolding file_code
encode-first = refl

encode-second : encode toy.codec false second ≡ some second_file
unfolding file_code
encode-second = refl

small_IsStorable :
    (m raw : Text)
    → encode toy.codec false m ≡ some raw
    → length raw < 1000
    → length (take 1 m) < 1000
    → IsStorable toy m
small_IsStorable m raw e small id_small = record {
  id_fits = omega arith;
  file_fits = λ raw' e'. ground arith;
  record_fits = λ raw' p e' h.
      let same : raw' ≡ raw = ground arith in
      let whole : p ≡ counted (bytes "put") (counted (take 1 m) raw') = ground arith in
      rw whole (omega (arith, length-append (take 1 m) raw', ap length same));
}

first-IsStorable : IsStorable toy first
first-IsStorable = small_IsStorable first first_file encode-first (omega arith) (omega arith)

second-IsStorable : IsStorable toy second
second-IsStorable = small_IsStorable second second_file encode-second (omega arith) (omega arith)

sessions-IsOrderly : All (IsOrderly toy toy_laws) sessions
sessions-IsOrderly = (
  (tt, (first-IsStorable, (second-IsStorable, ((λ p h. ground arith), tt)))),
  ((tt, (second-IsStorable, (tt, tt))), tt),
)

-- The first process is killed while it writes the second matrix.
sessions_served :
    (run_sessions toy default_durability_config sessions no_files).0
    ≡ (saving first, done tt)
      ∷ (saving second, crashed)
      ∷ (saving_async second, done tt)
      ∷ (flushing, done tt)
      ∷ []
unfolding run_sessions store_code
sessions_served = refl

run_sessions-load_after_example :
    (cs : List Change) × Accounts toy
      (run_sessions toy default_durability_config sessions no_files).0
      cs
    × ((id : Text)
        → load_after toy default_durability_config
            (run_sessions toy default_durability_config sessions no_files).1
            id
          ≡ answer_after toy cs id)
run_sessions-load_after_example =
    run_sessions-load_after toy toy_laws default_durability_config refl refl sessions
      sessions-IsOrderly

run_sessions_saved_example :
    load_after toy default_durability_config
      (run_sessions toy default_durability_config sessions no_files).1
      (7 ∷ [])
    ≡ done first
run_sessions_saved_example =
    run_sessions_saved toy toy_laws default_durability_config refl refl sessions []
      ((saving second, crashed) ∷ (saving_async second, done tt) ∷ (flushing, done tt) ∷ [])
      (saving first) first first_file sessions-IsOrderly sessions_served (inl refl)
      ((λ e. ground arith), ((λ e. ground arith), (tt, tt))) first-IsStorable encode-first

replay_from_ends_example : replay_from toy 12 0 (1 ∷ 2 ∷ []) ≡ replay_from toy 2 0 (1 ∷ 2 ∷ [])
replay_from_ends_example = replay_from_ends toy (1 ∷ 2 ∷ []) 2 10 0 (omega arith)

-- A record that was written in part, and one behind it whose save was done: the next start reads neither.
abbrev torn_session : List (Session Text)
torn_session =
    record {
      faults = repeat 9 fine (fails 5 ∷ []);
      requests = saving_async first ∷ saving_async second ∷ [];
    }
    ∷ []

torn_record_hides :
    ((run_sessions toy default_durability_config torn_session no_files).0
      ≡ (saving_async first, failed io_failed) ∷ (saving_async second, done tt) ∷ [])
    × (load_after toy default_durability_config
          (run_sessions toy default_durability_config torn_session no_files).1
          (8 ∷ [])
        ≡ failed matrix_not_found)
unfolding run_sessions store_code load_matrix read_whole
torn_record_hides = (refl, refl)
