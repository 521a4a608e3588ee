-- ===== src/Persistence/Store/Sessions.antt =====
-- Lives of a store (pkg/persistence/store.go): processes one after another over the same files, each of which starts the store,
-- serves requests, and may be killed at any call of the file system.
use qubicdb.Prelude.{
  ◌≡◌, ◌≢◌, ◌⊎◌, Option, none, some, List, [], ◌∷◌, ◌++◌, Text, text_discrete, ◌<◌, ◌^◌, length,
}
use qubicdb.Prelude.Assoc.{lookup}
use qubicdb.Persistence.Codec.{Outcome, ok, err, panic, decode}
use qubicdb.Persistence.Io.{
  Fault, matrix_not_found, decode_failed, Answer, done, failed, crashed, World, Io, modify,
}
use qubicdb.Persistence.Store.{Setup, FileStore, DurabilityConfig}
use qubicdb.Persistence.Store.Calls.{
  delete_record, set_pending, flush_all, save_async, save_matrix, delete_matrix,
}
use qubicdb.Persistence.Store.Opening.{new_store_with_durability}
use qubicdb.Persistence.Store.Log.{Change, removed, final, IsStorable}
use qubicdb.Persistence.Store.Recording.{changes_of}

-- What the process asks of its store, and `changing`: a worker changes its matrix, which the store shares while the matrix is pending.
pub data Request (X : Type 0) : Type 0 where
  saving saving_async changing : X → Request X
  flushing : Request X
  deleting : Text → Request X

pub record Session (X : Type 0) : Type 0 where
  pub faults : List Fault
  pub requests : List (Request X)

module _ {X S : Type 0} (setup : Setup X S) where
  abbrev change_found : Option X → X → FileStore X S → FileStore X S
  change_found none m s = s
  change_found (some _) m s = set_pending (setup.codec.index_id m) m s

  unfoldable pub change_pending : X → FileStore X S → FileStore X S
  unfolding set_pending
  change_pending m s =
      change_found (lookup text_discrete (setup.codec.index_id m) s.pending_writes) m s

  unfoldable pub serve : Request X → Io (FileStore X S) Unit
  unfolding change_pending save_matrix save_async flush_all delete_matrix
  serve (saving m) = save_matrix setup m
  serve (saving_async m) = save_async setup m
  serve (changing m) = modify (change_pending m)
  serve flushing = flush_all setup
  serve (deleting id) = delete_matrix setup id

  abbrev pub Served : Type 0
  Served = List (Request X × Answer (Unit {0}))

  -- A crash is the end, whatever was to come; an error is not.
  abbrev pub go_on :
      Request X
      → Answer (Unit {0})
      → World (FileStore X S)
      → Served × World (FileStore X S)
      → Served × World (FileStore X S)
  go_on q (done a) w rest = ((q, done a) ∷ rest.0, rest.1)
  go_on q (failed e) w rest = ((q, failed e) ∷ rest.0, rest.1)
  go_on q crashed w rest = ((q, crashed) ∷ [], w)

  -- the requests of a process, until it is killed
  unfoldable pub run_requests :
      List (Request X) → World (FileStore X S) → Served × World (FileStore X S)
  unfolding serve
  run_requests [] w = ([], w)
  run_requests (q ∷ qs) w = let (r, w') = serve q w in go_on q r w' (run_requests qs w')

  -- Without a store nothing is served.
  abbrev pub if_started :
      Answer (Unit {0})
      → World (FileStore X S)
      → Served × World (FileStore X S)
      → Served × FileStore X S
  if_started (done _) w rest = (rest.0, rest.1.state)
  if_started (failed _) w rest = ([], w.state)
  if_started crashed w rest = ([], w.state)

  unfoldable pub run_session : DurabilityConfig → Session X → FileStore X S → Served × FileStore X S
  unfolding new_store_with_durability run_requests
  run_session c x s =
      let (r, w) = new_store_with_durability setup c (record { faults = x.faults; state = s }) in
      if_started r w (run_requests x.requests w)

  unfoldable pub run_sessions :
      DurabilityConfig → List (Session X) → FileStore X S → Served × FileStore X S
  unfolding run_session
  run_sessions c [] s = ([], s)
  run_sessions c (x ∷ xs) s =
      let (out, s') = run_session c x s in
      let (out', s'') = run_sessions c xs s' in (out ++ out', s'')

  -- the changes that a request stands for
  abbrev pub changes : Request X → List Change
  changes (saving m) = changes_of setup m
  changes (saving_async m) = changes_of setup m
  changes (changing m) = []
  changes flushing = []
  changes (deleting id) = removed id ∷ []

  -- A request that is done has logged its changes; one that is not has logged them or none.
  abbrev pub Logs : Request X → Answer (Unit {0}) → List Change → Type 0
  Logs q (done a) cs = cs ≡ changes q
  Logs q (failed e) cs = (cs ≡ changes q) ⊎ (cs ≡ [])
  Logs q crashed cs = (cs ≡ changes q) ⊎ (cs ≡ [])

  -- The changes are those of the requests, in their order.
  abbrev pub Accounts : Served → List Change → Type 0
  Accounts [] cs = cs ≡ []
  Accounts ((q, r) ∷ out) cs =
      (cs' rest : List Change) × (cs ≡ cs' ++ rest) × Logs q r cs' × Accounts out rest

  -- sizes within the formats
  abbrev pub IsServable : Request X → Type 0
  IsServable (saving m) = IsStorable setup m
  IsServable (saving_async m) = IsStorable setup m
  IsServable (changing m) = IsStorable setup m
  IsServable flushing = Unit
  IsServable (deleting id) =
      (p : Text) → setup.wal.marshal_record (delete_record id) ≡ some p → length p < 2 ^ 32

  -- what is read of a file
  abbrev pub read_back : Outcome X → Answer X
  read_back (ok m) = done m
  read_back (err _) = failed decode_failed
  read_back panic = crashed

  -- what Load answers of a file, and what it is to answer after the changes
  abbrev pub answer_of_file : Option Text → Answer X
  answer_of_file none = failed matrix_not_found
  answer_of_file (some raw) = read_back (decode setup.codec raw)

  abbrev pub answer_after : List Change → Text → Answer X
  answer_after cs id = answer_of_file (final cs id none)

  -- not about the matrix of `id`
  abbrev pub Avoids : Text → Request X → Type 0
  Avoids id (saving m) = setup.codec.index_id m ≢ id
  Avoids id (saving_async m) = setup.codec.index_id m ≢ id
  Avoids id (changing m) = Unit
  Avoids id flushing = Unit
  Avoids id (deleting j) = j ≢ id
