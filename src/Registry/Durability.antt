-- ===== src/Registry/Durability.antt =====
-- The registry's file and its map: reopening the registry finds what the map held
-- (pkg/registry/registry.go).
use qubicdb.Prelude.{
  ℕ, ◌≡◌, ◌≢◌, refl, sym, ◌∙◌, ap, inl, inr, true, false, Option, none, some, List, [], ◌∷◌, Text,
  text_discrete, arith, Option-cases, Bool-cases, if◌then◌else◌,
}
use qubicdb.Prelude.Assoc.{lookup, insert, delete, lookup-insert, delete-insert}
use qubicdb.Registry.{
  Entry, Json, Store, Disk, Result, ok, err, save, values, add_entry, create, find_or_create, rekey,
  change_entry, is_taken, update, remove, new_entry, get, with_created, load_entries, new_store,
  FileRead, missing, contents,
}
use qubicdb.Registry.Error.{persist_failed}
use qubicdb.Registry.Invariant.{
  Good, save-entries, insert-Good, delete-Good, rekey-Good, Call, creates, finds, updates, removes,
  step, run, step-Good, new_store-Good,
}
use qubicdb.Registry.Rollback.{restored}

-- encoding/json reads back what it wrote
pub record JsonLaws {M : Type 0} (json : Json M) : Type 0 where
  pub unmarshal_marshal :
      (es : List (Entry M)) (data' : Text)
      → json.marshal es ≡ some data'
      → json.unmarshal data' ≡ some es

-- `os.ReadFile` of a file that is there or not
abbrev pub read_file : Option Text → FileRead
read_file none = missing
read_file (some data') = contents data'

module _ {M : Type 0} (json : Json M) where
  -- Opening the registry over the file of `s` gives a map that reads as that of `s`.
  abbrev pub Synced : Store M → Type 0
  Synced s =
      (tmp : Option Text)
      → (t : Store M) × (new_store json true (read_file s.file) tmp ≡ some t)
        × ((k : Text) → get k t ≡ get k s)

  lookup-load_entries :
      (l acc : List (Text × Entry M)) (k : Text)
      → Good l
      → lookup text_discrete k (load_entries json (values l) acc)
        ≡ elim (lookup text_discrete k l) [ none ↦ lookup text_discrete k acc | some e ↦ some e ]
  unfolding lookup load_entries values
  lookup-load_entries [] acc k v = refl
  lookup-load_entries ((j, e) ∷ l) acc k ((absent, u), (own, a)) = ground (
    arith,
    lookup-load_entries l (insert text_discrete e.uuid e acc) k (u, a),
    lookup-insert text_discrete e.uuid k e acc,
  )

  save-true :
      (disk : Disk) (s : Store M)
      → (save json disk s).1 ≡ true
      → (data' : Text) × (json.marshal (values s.entries) ≡ some data')
        × ((save json disk s).0.file ≡ some data')
  unfolding save
  save-true disk s h = ground arith

  save-false :
      (disk : Disk) (s : Store M)
      → (save json disk s).1 ≡ false
      → (save json disk s).0.file ≡ s.file
  unfolding save
  save-false disk s h = ground arith

  Synced-same :
      (s t : Store M) → t.file ≡ s.file → ((k : Text) → get k t ≡ get k s) → Synced s → Synced t
  Synced-same s t file same v tmp =
      let (r, opened, reads) = v tmp in (r, rw file opened, λ k. reads k ∙ sym (same k))

  -- No `Update` among the calls fails to write the file.
  abbrev pub Fine : Call M → Store M → Type 0
  Fine (updates old new metadata now disk) s =
      (update json old new metadata now disk s).1 ≢ err persist_failed
  Fine (creates _ _ _ _) s = Unit
  Fine (finds _ _ _ _) s = Unit
  Fine (removes _ _) s = Unit

  abbrev pub AllFine : List (Call M) → Store M → Type 0
  AllFine [] s = Unit
  AllFine (c ∷ cs) s = Fine c s × AllFine cs (step json c s)

module _ {M : Type 0} (json : Json M) (laws : JsonLaws json) where
  save-Synced :
      (disk : Disk) (s : Store M)
      → Good s.entries
      → (save json disk s).1 ≡ true
      → Synced json (save json disk s).0
  unfolding new_store get lookup
  save-Synced disk s v h tmp =
      let (data', written, file) = save-true json disk s h in
      let back = laws.unmarshal_marshal (values s.entries) data' written in
      (
        record {
          entries = load_entries json (values s.entries) [];
          file = some data';
          tmp_file = tmp;
        },
        rw (file, back, new_store),
        λ k.
            rw (save-entries json disk s)
              (ground (arith, lookup-load_entries json s.entries [] k v)),
      )

  -- The outcome of an operation that saves a changed map: the new map, or the old one as far as reads
  -- can tell.
  saved-Synced :
      {A : Type 0} (disk : Disk) (s s1 : Store M) (undo : Store M → Store M)
      (done failed : Result A)
      → Synced json s
      → s1.file ≡ s.file
      → Good s1.entries
      → ((save json disk s1).1 ≡ false
          → ((undo (save json disk s1).0).file ≡ (save json disk s1).0.file)
            × ((k : Text) → get k (undo (save json disk s1).0) ≡ get k s))
      → Synced json
          (if◌then◌else◌ {A = Store M × Result A}
            (save json disk s1).1
            ((save json disk s1).0, done)
            (undo (save json disk s1).0, failed)).0
  saved-Synced disk s s1 undo done failed v same good back =
      elim (Bool-cases (save json disk s1).1) [
        | inl e ↦ rw e (save-Synced disk s1 good e)
        | inr e ↦
            let (file, reads) = back e in
            rw e (
              Synced-same json s (undo (save json disk s1).0)
                (file ∙ save-false json disk s1 e ∙ same) reads v)
      ]

  add_entry-Synced :
      (uuid : Text) (metadata : M) (now : ℕ) (disk : Disk) (s : Store M)
      → Good s.entries
      → Synced json s
      → lookup text_discrete uuid s.entries ≡ none
      → Synced json (add_entry json uuid metadata now disk s).0
  unfolding add_entry get
  add_entry-Synced uuid metadata now disk s good v free =
      let e = new_entry uuid metadata now in
      let s1 : Store M = record s { entries = insert text_discrete uuid e s.entries } in
      saved-Synced disk s s1 (λ t. record t { entries = delete text_discrete uuid t.entries })
        (ok e) (err persist_failed) v refl (insert-Good uuid e s.entries refl good)
        (λ _. (
          refl,
          λ k.
              rw (save-entries json disk s1)
                (ap (lookup text_discrete k) (delete-insert text_discrete uuid e s.entries free)),
        ))

  create-Synced :
      (uuid : Text) (metadata : M) (now : ℕ) (disk : Disk) (s : Store M)
      → Good s.entries
      → Synced json s
      → Synced json (create json uuid metadata now disk s).0
  unfolding create
  create-Synced uuid metadata now disk s good v =
      elim (Option-cases (lookup text_discrete uuid s.entries)) [
        | inl e ↦ rw (e, create) (add_entry-Synced uuid metadata now disk s good v e)
        | inr (x, e) ↦ rw (e, create) v
      ]

  with_created-Synced :
      (r : Store M × Result (Entry M)) → Synced json r.0 → Synced json (with_created json r).0
  with_created-Synced (s, ok e) v = v
  with_created-Synced (s, err x) v = v

  find_or_create-Synced :
      (uuid : Text) (metadata : M) (now : ℕ) (disk : Disk) (s : Store M)
      → Good s.entries
      → Synced json s
      → Synced json (find_or_create json uuid metadata now disk s).0
  unfolding find_or_create
  find_or_create-Synced uuid metadata now disk s good v =
      elim (Option-cases (lookup text_discrete uuid s.entries)) [
        | inl e ↦
            rw (e, find_or_create)
              (with_created-Synced _ (add_entry-Synced uuid metadata now disk s good v e))
        | inr (x, e) ↦ rw (e, find_or_create) v
      ]

  remove-Synced :
      (uuid : Text) (disk : Disk) (s : Store M)
      → Good s.entries
      → Synced json s
      → Synced json (remove json uuid disk s).0
  unfolding remove get
  remove-Synced uuid disk s good v = elim (Option-cases (lookup text_discrete uuid s.entries)) [
    | inl e ↦ rw (e, remove) v
    | inr (x, e) ↦
        let s1 : Store M = record s { entries = delete text_discrete uuid s.entries } in
        rw (e, remove)
          (saved-Synced disk s s1
            (λ t. record t { entries = insert text_discrete uuid x t.entries }) (ok tt)
            (err persist_failed) v refl (delete-Good uuid s.entries good)
            (λ _. (refl, λ k. rw (save-entries json disk s1) (restored json uuid x s.entries k e))))
  ]

  change_entry-Synced :
      (old new : Text) (metadata : M) (now : ℕ) (disk : Disk) (x : Entry M) (s : Store M)
      → Good s.entries
      → (change_entry json old new metadata now disk x s).1 ≢ err persist_failed
      → Synced json (change_entry json old new metadata now disk x s).0
  unfolding change_entry
  change_entry-Synced old new metadata now disk x s good fine =
      let e : Entry M = record x { uuid = new; metadata = metadata; updated_at = now } in
      let s1 : Store M = record s { entries = rekey json old new e s.entries } in
      elim (Bool-cases (save json disk s1).1) [
        | inl saved ↦
            rw saved (save-Synced disk s1 (rekey-Good json old new e s.entries refl good) saved)
        | inr failed ↦ absurd (fine (rw failed))
      ]

  update_known :
      (old new : Text) (metadata : M) (now : ℕ) (disk : Disk) (x : Entry M) (s : Store M)
      → lookup text_discrete old s.entries ≡ some x
      → is_taken json old new s ≡ false
      → update json old new metadata now disk s ≡ change_entry json old new metadata now disk x s
  unfolding update
  update_known old new metadata now disk x s e t = rw (e, update) (rw t)

  update-Synced :
      (old new : Text) (metadata : M) (now : ℕ) (disk : Disk) (s : Store M)
      → Good s.entries
      → Synced json s
      → (update json old new metadata now disk s).1 ≢ err persist_failed
      → Synced json (update json old new metadata now disk s).0
  unfolding update
  update-Synced old new metadata now disk s good v fine =
      elim (Option-cases (lookup text_discrete old s.entries)) [
        | inl e ↦ rw (e, update) v
        | inr (x, e) ↦ elim (Bool-cases (is_taken json old new s)) [
          | inl t ↦ rw (e, update) (rw t v)
          | inr t ↦
              let known = update_known old new metadata now disk x s e t in
              rw known (
                change_entry-Synced old new metadata now disk x s good
                  (λ h. fine (ap (λ r. r.1) known ∙ h)))
        ]
      ]

  step-Synced :
      (c : Call M) (s : Store M)
      → Good s.entries
      → Synced json s
      → Fine json c s
      → Synced json (step json c s)
  unfolding step
  step-Synced (creates uuid metadata now disk) s good v fine =
      create-Synced uuid metadata now disk s good v
  step-Synced (finds uuid metadata now disk) s good v fine =
      find_or_create-Synced uuid metadata now disk s good v
  step-Synced (updates old new metadata now disk) s good v fine =
      update-Synced old new metadata now disk s good v fine
  step-Synced (removes uuid disk) s good v fine = remove-Synced uuid disk s good v

  run-Synced :
      (cs : List (Call M)) (s : Store M)
      → Good s.entries
      → Synced json s
      → AllFine json cs s
      → Synced json (run json cs s)
  unfolding run
  run-Synced [] s good v fine = v
  run-Synced (c ∷ cs) s good v (f, fs) =
      run-Synced cs (step json c s) (step-Good json c s good) (step-Synced c s good v f) fs

  new_store-Synced :
      (file tmp : Option Text) (s : Store M)
      → new_store json true (read_file file) tmp ≡ some s
      → Synced json s
  unfolding new_store get
  new_store-Synced none tmp s h tmp' =
      (record { entries = []; file = none; tmp_file = tmp' }, ground arith, λ k. ground arith)
  new_store-Synced (some data') tmp s h tmp' = elim (Option-cases (json.unmarshal data')) [
    | inl e ↦ absurd (ground arith)
    | inr (es, e) ↦ (
      record { entries = load_entries json es []; file = some data'; tmp_file = tmp' },
      ground arith,
      λ k. ground arith,
    )
  ]

  -- A registry that is opened over a file or none, after any calls in which no Update failed to
  -- write the file (all other failures are allowed), can be opened again over the file of that
  -- moment, and then reads the same for every UUID, if JSON reads back what it wrote.
  pub new_store-run-Synced :
      (file tmp : Option Text) (s : Store M) (cs : List (Call M))
      → new_store json true (read_file file) tmp ≡ some s
      → AllFine json cs s
      → Synced json (run json cs s)
  new_store-run-Synced file tmp s cs h fine =
      run-Synced cs s (new_store-Good json true (read_file file) tmp s h)
        (new_store-Synced file tmp s h) fine
