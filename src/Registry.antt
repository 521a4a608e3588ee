-- ===== src/Registry.antt =====
-- The UUID registry (pkg/registry/registry.go): the map of entries, its file, and the operations
-- with their rollbacks. A returned entry is a value; the pointer that Go returns aliases the stored
-- entry, which no operation but `Update` changes. JSON is a parameter, and so is the outcome of each
-- access to the file system.
mod Saving
mod Invariant
mod Rollback
mod Update
mod Durability
mod Examples
use qubicdb.Prelude.{
  ℕ, ◌≡◌, Bool, true, false, Option, none, some, List, [], ◌∷◌, map, Text, text_discrete, ite,
  is_some, length, if◌then◌else◌,
}
use qubicdb.Prelude.Assoc.{lookup, insert, delete}

-- `M` stands for the metadata, `map[string]any`.
pub record Entry (M : Type 0) : Type 0 where
  pub uuid : Text
  pub metadata : M
  pub created_at : ℕ
  pub updated_at : ℕ

-- encoding/json on a list of entries; `none` is an error.
pub record Json (M : Type 0) : Type 0 where
  pub marshal : List (Entry M) → Option Text
  pub unmarshal : Text → Option (List (Entry M))

-- The map, and the contents of registry.json and of registry.json.tmp where they exist.
pub record Store (M : Type 0) : Type 0 where
  pub entries : List (Text × Entry M)
  pub file : Option Text
  pub tmp_file : Option Text

pub data Error : Type 0 where
  already_exists not_found new_exists persist_failed : Error

pub data Result {ℓ} (A : Type ℓ) : Type ℓ where
  ok : A → Result A
  err : Error → Result A

-- What the file system answers in one `save`; a write that fails may leave anything behind.
pub record Disk : Type 0 where
  pub write_ok : Bool
  pub rename_ok : Bool
  pub left_behind : Option Text

-- `os.ReadFile`
pub data FileRead : Type 0 where
  missing unreadable : FileRead
  contents : Text → FileRead

module _ {M : Type 0} where
  unfoldable pub values : List (Text × Entry M) → List (Entry M)
  values [] = []
  values ((_, e) ∷ l) = e ∷ values l

  unfoldable pub get : Text → Store M → Option (Entry M)
  get uuid s = lookup text_discrete uuid s.entries

  unfoldable pub exists : Text → Store M → Bool
  exists uuid s = is_some (lookup text_discrete uuid s.entries)

  unfoldable pub list : Store M → List (Entry M)
  unfolding values
  list s = values s.entries

  unfoldable pub count : Store M → ℕ
  count s = length s.entries

  unfoldable pub new_entry : Text → M → ℕ → Entry M
  new_entry uuid metadata now = record {
    uuid = uuid;
    metadata = metadata;
    created_at = now;
    updated_at = now;
  }

module _ {M : Type 0} (json : Json M) where
  -- the store, and whether nothing failed
  unfoldable pub save : Disk → Store M → Store M × Bool
  save disk s = elim (json.marshal (values s.entries)) [
    | none ↦ (s, false)
    | some data' ↦
        if disk.write_ok
        then (if disk.rename_ok
            then (record s { file = some data'; tmp_file = none }, true)
            else (record s { tmp_file = some data' }, false))
        else (record s { tmp_file = disk.left_behind }, false)
  ]

  -- The part that `Create` and `FindOrCreate` share: add, save, take back on failure.
  unfoldable pub add_entry : Text → M → ℕ → Disk → Store M → Store M × Result (Entry M)
  unfolding new_entry
  add_entry uuid metadata now disk s =
      let entry = new_entry uuid metadata now in
      let (s', saved) =
        save disk (record s { entries = insert text_discrete uuid entry s.entries }) in
      if saved
      then (s', ok entry)
      else (record s' { entries = delete text_discrete uuid s'.entries }, err persist_failed)

  unfoldable pub create : Text → M → ℕ → Disk → Store M → Store M × Result (Entry M)
  unfolding add_entry
  create uuid metadata now disk s = elim (lookup text_discrete uuid s.entries) [
    | some _ ↦ (s, err already_exists)
    | none ↦ add_entry uuid metadata now disk s
  ]

  abbrev with_created : Store M × Result (Entry M) → Store M × Result (Entry M × Bool)
  with_created (s, ok e) = (s, ok (e, true))
  with_created (s, err x) = (s, err x)

  -- the entry, and whether it was created
  unfoldable pub find_or_create : Text → M → ℕ → Disk → Store M → Store M × Result (Entry M × Bool)
  unfolding add_entry
  find_or_create uuid metadata now disk s = elim (lookup text_discrete uuid s.entries) [
    | some e ↦ (s, ok (e, false))
    | none ↦ with_created (add_entry uuid metadata now disk s)
  ]

  -- the re-keying of the map, `if newUUID != oldUUID { delete }` and the write
  unfoldable pub rekey : Text → Text → Entry M → List (Text × Entry M) → List (Text × Entry M)
  rekey old new e l =
      insert text_discrete new e (ite (text_discrete new old) l (delete text_discrete old l))

  -- the rollback of `Update`: the key and the UUID, and nothing else, are put back
  unfoldable pub rollback : Text → Text → Entry M → List (Text × Entry M) → List (Text × Entry M)
  rollback old new e l =
      ite (text_discrete new old) l
        (insert text_discrete old (record e { uuid = old }) (delete text_discrete new l))

  unfoldable pub change_entry :
      Text → Text → M → ℕ → Disk → Entry M → Store M → Store M × Result (Entry M)
  unfolding rekey rollback
  change_entry old new metadata now disk entry s =
      let entry' = record entry { uuid = new; metadata = metadata; updated_at = now } in
      let (s', saved) = save disk (record s { entries = rekey old new entry' s.entries }) in
      if saved
      then (s', ok entry')
      else (record s' { entries = rollback old new entry' s'.entries }, err persist_failed)

  -- `newUUID != oldUUID` and the new UUID is taken
  unfoldable pub is_taken : Text → Text → Store M → Bool
  is_taken old new s =
      ite (text_discrete new old) false (is_some (lookup text_discrete new s.entries))

  unfoldable pub update : Text → Text → M → ℕ → Disk → Store M → Store M × Result (Entry M)
  unfolding change_entry is_taken
  update old new metadata now disk s = elim (lookup text_discrete old s.entries) [
    | none ↦ (s, err not_found)
    | some entry ↦
        if is_taken old new s
        then (s, err new_exists)
        else change_entry old new metadata now disk entry s
  ]

  unfoldable pub remove : Text → Disk → Store M → Store M × Result (Unit {0})
  remove uuid disk s = elim (lookup text_discrete uuid s.entries) [
    | none ↦ (s, err not_found)
    | some deleted ↦
        let (s', saved) = save disk (record s { entries = delete text_discrete uuid s.entries }) in
        if saved then (s', ok tt) else (
          record s' { entries = insert text_discrete uuid deleted s'.entries },
          err persist_failed,
        )
  ]

  -- the loop of `load`
  unfoldable pub load_entries : List (Entry M) → List (Text × Entry M) → List (Text × Entry M)
  load_entries [] l = l
  load_entries (e ∷ es) l = load_entries es (insert text_discrete e.uuid e l)

  -- `NewStore`: the directory is made, and `load` reads the file; `none` is an error.
  unfoldable pub new_store : Bool → FileRead → Option Text → Option (Store M)
  unfolding load_entries
  new_store false file tmp = none
  new_store true missing tmp = some (record { entries = []; file = none; tmp_file = tmp })
  new_store true unreadable tmp = none
  new_store true (contents data') tmp = elim (json.unmarshal data') [
    | none ↦ none
    | some es ↦ some (record { entries = load_entries es []; file = some data'; tmp_file = tmp })
  ]
