-- ===== src/Persistence/Store/Log.antt =====
-- What the log of a store says about its files (pkg/persistence/store.go): an abstract log is a list of changes,
-- and a file has the contents of the last change of its index.
use mathlib.Core.List.{append_assoc}
use qubicdb.Prelude.{
  ◌^◌, ◌<◌, ◌≤◌, ◌≡◌, ◌≢◌, refl, sym, ap, ◌∙◌, true, Option, none, some, List, [], ◌∷◌, ◌++◌, Text,
  text_discrete, length, All, arith, ite,
}
use qubicdb.Prelude.Assoc.{AllEntries}
use qubicdb.Persistence.Codec.{ok, decode, encode}
use qubicdb.Persistence.Codec.RoundTrip.{LibraryLaws, decode-encode}
use qubicdb.Persistence.Wal.{WalRecord, frame_payload, next_payload}
use qubicdb.Persistence.Wal.Scan.{next_payload-frame_payload, length-frame_payload}
use qubicdb.Persistence.Store.{Setup, FileStore, DurabilityConfig, ManifestEntry}
use qubicdb.Persistence.Store.Files.{contents}
use qubicdb.Persistence.Store.Calls.{put_record, delete_record}
use qubicdb.Persistence.Store.Opening.{next_record}

-- a change of one file: its new contents, or its removal
pub data Change : Type 0 where
  stored : Text → Text → Change
  removed : Text → Change

abbrev pub record_of : Change → WalRecord
record_of (stored id raw) = put_record id raw
record_of (removed id) = delete_record id

-- the contents of the file of `id` after a change, and after several, from the contents before
abbrev pub effect : Change → Text → Option Text → Option Text
effect (stored j raw) id before = ite (text_discrete j id) (some raw) before
effect (removed j) id before = ite (text_discrete j id) none before

abbrev pub final : List Change → Text → Option Text → Option Text
final [] id before = before
final (c ∷ cs) id before = final cs id (effect c id before)

pub final-append :
    (cs ds : List Change) (id : Text) (before : Option Text)
    → final (cs ++ ds) id before ≡ final ds id (final cs id before)
final-append [] ds id before = refl
final-append (c ∷ cs) ds id before = final-append cs ds id (effect c id before)

-- The log says what the file is, whatever it was before.
abbrev pub Covered : List Change → Text → Type 0
Covered cs id = (before : Option Text) → final cs id before ≡ final cs id none

pub Covered-append : (cs ds : List Change) (id : Text) → Covered cs id → Covered (cs ++ ds) id
Covered-append cs ds id h before =
    final-append cs ds id before ∙ ap (final ds id) (h before) ∙ sym (final-append cs ds id none)

pub stored-Covered : (cs : List Change) (id raw : Text) → Covered (cs ++ stored id raw ∷ []) id
stored-Covered cs id raw before =
    final-append cs (stored id raw ∷ []) id before
    ∙ ground arith
    ∙ sym (final-append cs (stored id raw ∷ []) id none)

module _ {X S : Type 0} (setup : Setup X S) where
  abbrev pub IsDecoded : Text → Type 0
  IsDecoded raw = (m : X) × (decode setup.codec raw ≡ ok m)

  -- the bytes of a change in the log
  abbrev pub bytes_of : Change → Text
  bytes_of c = elim (setup.wal.marshal_record (record_of c)) [
    | none ↦ []
    | some p ↦ frame_payload p
  ]

  abbrev pub log_of : List Change → Text
  log_of [] = []
  log_of (c ∷ cs) = bytes_of c ++ log_of cs

  pub log_of-append : (cs ds : List Change) → log_of (cs ++ ds) ≡ log_of cs ++ log_of ds
  log_of-append [] ds = refl
  log_of-append (c ∷ cs) ds =
      ap (bytes_of c ++◌) (log_of-append cs ds)
      ∙ sym (append_assoc (bytes_of c) (log_of cs) (log_of ds))

  -- documented behaviour of what the store calls
  pub record SetupLaws : Type 0 where
    pub codec_laws : LibraryLaws setup.codec
    pub alloc_bound : setup.codec.max_alloc < 2 ^ 64
    pub unmarshal_marshal_record :
        (r : WalRecord) (p : Text)
        → setup.wal.marshal_record r ≡ some p
        → setup.wal.unmarshal_record p ≡ some r
    pub marshal_record_bytes :
        (r : WalRecord) (p : Text) → setup.wal.marshal_record r ≡ some p → 0 < length p
    pub marshals_snapshots : (snaps : List S) → setup.marshal_snapshots snaps ≢ none
    pub marshals_manifest : (e : ManifestEntry) → setup.marshal_manifest e ≢ none

  -- a change that the log can hold: its record has a length below 2^32, and its contents decode
  pub record IsSound (c : Change) : Type 0 where
    pub payload : Text
    pub payload_is : setup.wal.marshal_record (record_of c) ≡ some payload
    pub payload_bytes : 0 < length payload
    pub payload_fits : length payload < 2 ^ 32
    pub decoded : (id raw : Text) → c ≡ stored id raw → IsDecoded raw

  -- Sizes of a matrix that the formats can hold.
  pub record IsStorable (m : X) : Type 0 where
    pub id_fits : length (setup.codec.index_id m) < 2 ^ 32
    pub file_fits :
        (raw : Text)
        → encode setup.codec setup.compress m ≡ some raw
        → length raw ≤ setup.codec.max_alloc
    pub record_fits :
        (raw p : Text)
        → encode setup.codec setup.compress m ≡ some raw
        → setup.wal.marshal_record (put_record (setup.codec.index_id m) raw) ≡ some p
        → length p < 2 ^ 32

  pub decode_stored :
      SetupLaws
      → (m : X) (raw : Text) → IsStorable m
      → encode setup.codec setup.compress m ≡ some raw
      → decode setup.codec raw ≡ ok m
  decode_stored laws m raw st e =
      decode-encode setup.codec laws.codec_laws setup.compress m raw e st.id_fits
        (st.file_fits raw e) laws.alloc_bound

  pub IsStorable-IsDecoded :
      SetupLaws
      → (m : X) (raw : Text) → IsStorable m
      → encode setup.codec setup.compress m ≡ some raw
      → IsDecoded raw
  IsStorable-IsDecoded laws m raw st e = (m, decode_stored laws m raw st e)

  -- the next record of a log that holds more
  pub next_record-bytes_of :
      SetupLaws
      → (c : Change) (rest : Text) → IsSound c
      → next_record setup (bytes_of c ++ rest) ≡ some (record_of c, rest)
  unfolding next_record
  next_record-bytes_of laws c rest sound =
      let front : bytes_of c ≡ frame_payload sound.payload = rw (sound.payload_is, bytes_of) refl in
      rw front (
        rw
          (
            next_payload-frame_payload sound.payload rest sound.payload_fits sound.payload_bytes,
            next_record,
          )
          (rw (laws.unmarshal_marshal_record (record_of c) sound.payload sound.payload_is)))

  pub length-bytes_of : (c : Change) → IsSound c → 0 < length (bytes_of c)
  length-bytes_of c sound =
      let front : bytes_of c ≡ frame_payload sound.payload = rw (sound.payload_is, bytes_of) refl in
      rw front (omega (arith, length-frame_payload sound.payload))

  -- The log holds the changes and a tail that is not read; every file decodes and is what the log says
  -- it is once it is replayed; every pending matrix is in the log.
  pub record IsLogged (cs : List Change) (tail : Text) (c : DurabilityConfig) (log : Option Text)
      (files : List (Text × Text)) (pending : List (Text × X)) : Type 0 where
    pub wal_on : c.wal_enabled ≡ true
    pub repair_on : c.startup_repair ≡ true
    pub log_is : contents log ≡ log_of cs ++ tail
    pub tail_unread : next_payload tail ≡ none
    pub sound : All IsSound cs
    pub files_ok : AllEntries (λ id raw. IsDecoded raw × Covered cs id) files
    pub pending_ok : AllEntries (λ id m. IsStorable m × Covered cs id) pending

  abbrev pub Logged : List Change → Text → FileStore X S → Type 0
  Logged cs tail s = IsLogged cs tail s.durability s.wal_file s.data_files s.pending_writes

  -- a log with a tail that a crash cut off
  abbrev pub Torn : List Change → FileStore X S → Type 0
  Torn cs s = (tail : Text) × Logged cs tail s
