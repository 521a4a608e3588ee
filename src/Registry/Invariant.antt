-- ===== src/Registry/Invariant.antt =====
-- The keys of the registry's map and the UUIDs of its entries (pkg/registry/registry.go).
use qubicdb.Prelude.{
  ℕ, ◌≡◌, refl, inl, inr, Bool, true, false, Option, some, List, [], ◌∷◌, Text, text_discrete,
  arith, Option-cases, Bool-cases, if◌then◌else◌, if_pos, if_neg,
}
use qubicdb.Prelude.Assoc.{lookup, insert, delete, Unique, insert-Unique, delete-Unique}
use qubicdb.Registry.{
  Entry, Json, Error, Store, Disk, Result, ok, err, save, add_entry, create, find_or_create, rekey,
  rollback, change_entry, is_taken, update, remove, load_entries, new_store, new_entry, FileRead,
  with_created, missing, unreadable, contents,
}

-- No key twice, and every entry stands under its own UUID.
abbrev pub Keyed : {M : Type 0} → List (Text × Entry M) → Type 0
Keyed [] = Unit
Keyed ((k, e) ∷ l) = (e.uuid ≡ k) × Keyed l

pub record IsValid {M : Type 0} (s : Store M) : Type 0 where
  pub unique : Unique text_discrete s.entries
  pub keyed : Keyed s.entries

module _ {M : Type 0} where
  pub insert-Keyed :
      (k : Text) (e : Entry M) (l : List (Text × Entry M))
      → e.uuid ≡ k
      → Keyed l
      → Keyed (insert text_discrete k e l)
  unfolding insert
  insert-Keyed k e [] h a = (h, tt)
  insert-Keyed k e ((j, f) ∷ l) h a = ground (arith, insert-Keyed k e l h)

  pub delete-Keyed :
      (k : Text) (l : List (Text × Entry M)) → Keyed l → Keyed (delete text_discrete k l)
  unfolding delete
  delete-Keyed k [] a = tt
  delete-Keyed k ((j, f) ∷ l) a = ground (arith, delete-Keyed k l)

  pub lookup-Keyed :
      (k : Text) (l : List (Text × Entry M)) (e : Entry M)
      → Keyed l
      → lookup text_discrete k l ≡ some e
      → e.uuid ≡ k
  unfolding lookup
  lookup-Keyed k [] e a h = cc
  lookup-Keyed k ((j, f) ∷ l) e a h = ground (arith, lookup-Keyed k l e)

  -- both at once
  abbrev pub Good : List (Text × Entry M) → Type 0
  Good l = Unique text_discrete l × Keyed l

  pub insert-Good :
      (k : Text) (e : Entry M) (l : List (Text × Entry M))
      → e.uuid ≡ k
      → Good l
      → Good (insert text_discrete k e l)
  insert-Good k e l h (u, a) = (insert-Unique text_discrete k e l u, insert-Keyed k e l h a)

  pub delete-Good :
      (k : Text) (l : List (Text × Entry M)) → Good l → Good (delete text_discrete k l)
  delete-Good k l (u, a) = (delete-Unique text_discrete k l u, delete-Keyed k l a)

module _ {M : Type 0} (json : Json M) where
  -- `save` does not touch the map.
  pub save-entries : (disk : Disk) (s : Store M) → (save json disk s).0.entries ≡ s.entries
  unfolding save
  save-entries disk s = ground arith

  -- An operation saves a changed map, and keeps it or puts the old map back in its own way.
  saved_or_undone :
      {A : Type 0} (disk : Disk) (s : Store M) (undo : Store M → Store M) (done failed : Result A)
      → Good s.entries
      → ((t : Store M) → t.entries ≡ s.entries → Good (undo t).entries)
      → Good
          (if◌then◌else◌ {A = Store M × Result A}
            (save json disk s).1
            ((save json disk s).0, done)
            (undo (save json disk s).0, failed)).0.entries
  saved_or_undone disk s undo done failed v back = elim (Bool-cases (save json disk s).1) [
    | inl e ↦ rw e (rw (save-entries disk s) v)
    | inr e ↦ rw e (back (save json disk s).0 (save-entries disk s))
  ]

  add_entry-Good :
      (uuid : Text) (metadata : M) (now : ℕ) (disk : Disk) (s : Store M)
      → Good s.entries
      → Good (add_entry json uuid metadata now disk s).0.entries
  unfolding add_entry
  add_entry-Good uuid metadata now disk s v =
      let v' = insert-Good uuid (new_entry uuid metadata now) s.entries refl v in
      saved_or_undone disk
        (record s { entries = insert text_discrete uuid (new_entry uuid metadata now) s.entries })
        (λ t. record t { entries = delete text_discrete uuid t.entries })
        (ok (new_entry uuid metadata now)) (err Error.persist_failed) v'
        (λ t e. rw e (delete-Good uuid _ v'))

  create-Good :
      (uuid : Text) (metadata : M) (now : ℕ) (disk : Disk) (s : Store M)
      → Good s.entries
      → Good (create json uuid metadata now disk s).0.entries
  unfolding create
  create-Good uuid metadata now disk s v =
      elim (Option-cases (lookup text_discrete uuid s.entries)) [
        | inl e ↦ rw (e, create) (add_entry-Good uuid metadata now disk s v)
        | inr (x, e) ↦ rw (e, create) v
      ]

  with_created-Good :
      (r : Store M × Result (Entry M)) → Good r.0.entries → Good (with_created json r).0.entries
  with_created-Good (s, ok e) v = v
  with_created-Good (s, err x) v = v

  find_or_create-Good :
      (uuid : Text) (metadata : M) (now : ℕ) (disk : Disk) (s : Store M)
      → Good s.entries
      → Good (find_or_create json uuid metadata now disk s).0.entries
  unfolding find_or_create
  find_or_create-Good uuid metadata now disk s v =
      elim (Option-cases (lookup text_discrete uuid s.entries)) [
        | inl e ↦
            rw (e, find_or_create) (with_created-Good _ (add_entry-Good uuid metadata now disk s v))
        | inr (x, e) ↦ rw (e, find_or_create) v
      ]

  pub rekey-Good :
      (old new : Text) (e : Entry M) (l : List (Text × Entry M))
      → e.uuid ≡ new
      → Good l
      → Good (rekey json old new e l)
  unfolding rekey
  rekey-Good old new e l h v = elim (text_discrete new old) [
    | yes p ↦ rw (if_pos _ p) (insert-Good new e l h v)
    | no p ↦ rw (if_neg _ p) (insert-Good new e _ h (delete-Good old l v))
  ]

  rollback-Good :
      (old new : Text) (e : Entry M) (l : List (Text × Entry M))
      → Good l
      → Good (rollback json old new e l)
  unfolding rollback
  rollback-Good old new e l v = elim (text_discrete new old) [
    | yes p ↦ rw (if_pos _ p) v
    | no p ↦
        rw (if_neg _ p) (insert-Good old (record e { uuid = old }) _ refl (delete-Good new l v))
  ]

  change_entry-Good :
      (old new : Text) (metadata : M) (now : ℕ) (disk : Disk) (e : Entry M) (s : Store M)
      → Good s.entries
      → Good (change_entry json old new metadata now disk e s).0.entries
  unfolding change_entry
  change_entry-Good old new metadata now disk e s v =
      let e' : Entry M = record e { uuid = new; metadata = metadata; updated_at = now } in
      let v' = rekey-Good old new e' s.entries refl v in
      saved_or_undone disk (record s { entries = rekey json old new e' s.entries })
        (λ t. record t { entries = rollback json old new e' t.entries }) (ok e')
        (err Error.persist_failed) v' (λ t h. rw h (rollback-Good old new e' _ v'))

  update-Good :
      (old new : Text) (metadata : M) (now : ℕ) (disk : Disk) (s : Store M)
      → Good s.entries
      → Good (update json old new metadata now disk s).0.entries
  unfolding update
  update-Good old new metadata now disk s v =
      elim (Option-cases (lookup text_discrete old s.entries)) [
        | inl e ↦ rw (e, update) v
        | inr (x, e) ↦
            rw (e, update)
              (elim (Bool-cases (is_taken json old new s)) [
                | inl t ↦ rw t v
                | inr t ↦ rw t (change_entry-Good old new metadata now disk x s v)
              ])
      ]

  remove-Good :
      (uuid : Text) (disk : Disk) (s : Store M)
      → Good s.entries
      → Good (remove json uuid disk s).0.entries
  unfolding remove
  remove-Good uuid disk s v = elim (Option-cases (lookup text_discrete uuid s.entries)) [
    | inl e ↦ rw (e, remove) v
    | inr (x, e) ↦
        let v' = delete-Good uuid s.entries v in
        rw (e, remove)
          (saved_or_undone disk (record s { entries = delete text_discrete uuid s.entries })
            (λ t. record t { entries = insert text_discrete uuid x t.entries }) (ok tt)
            (err Error.persist_failed) v'
            (λ t h. rw h (insert-Good uuid x _ (lookup-Keyed uuid s.entries x v.1 e) v')))
  ]

  load_entries-Good :
      (es : List (Entry M)) (l : List (Text × Entry M)) → Good l → Good (load_entries json es l)
  unfolding load_entries
  load_entries-Good [] l v = v
  load_entries-Good (e ∷ es) l v = load_entries-Good es _ (insert-Good e.uuid e l refl v)

-- The calls that change the registry, each with what the file system answers.
pub data Call (M : Type 0) : Type 0 where
  creates finds : Text → M → ℕ → Disk → Call M
  updates : Text → Text → M → ℕ → Disk → Call M
  removes : Text → Disk → Call M

module _ {M : Type 0} (json : Json M) where
  unfoldable pub step : Call M → Store M → Store M
  step (creates uuid metadata now disk) s = (create json uuid metadata now disk s).0
  step (finds uuid metadata now disk) s = (find_or_create json uuid metadata now disk s).0
  step (updates old new metadata now disk) s = (update json old new metadata now disk s).0
  step (removes uuid disk) s = (remove json uuid disk s).0

  unfoldable pub run : List (Call M) → Store M → Store M
  unfolding step
  run [] s = s
  run (c ∷ cs) s = run cs (step c s)

  pub step-Good : (c : Call M) (s : Store M) → Good s.entries → Good (step c s).entries
  unfolding step
  step-Good (creates uuid metadata now disk) s v = create-Good json uuid metadata now disk s v
  step-Good (finds uuid metadata now disk) s v = find_or_create-Good json uuid metadata now disk s v
  step-Good (updates old new metadata now disk) s v = update-Good json old new metadata now disk s v
  step-Good (removes uuid disk) s v = remove-Good json uuid disk s v

  run-Good : (cs : List (Call M)) (s : Store M) → Good s.entries → Good (run cs s).entries
  unfolding run
  run-Good [] s v = v
  run-Good (c ∷ cs) s v = run-Good cs (step c s) (step-Good c s v)

  pub new_store-Good :
      (made : Bool) (file : FileRead) (tmp : Option Text) (s : Store M)
      → new_store json made file tmp ≡ some s
      → Good s.entries
  unfolding new_store
  new_store-Good false file tmp s h = cc
  new_store-Good true missing tmp s h = let e : s.entries ≡ [] = ground arith in rw e (tt, tt)
  new_store-Good true unreadable tmp s h = cc
  new_store-Good true (contents data') tmp s h = elim (Option-cases (json.unmarshal data')) [
    | inl e ↦ absurd (ground arith)
    | inr (es, e) ↦
        let same : s.entries ≡ load_entries json es [] = ground arith in
        rw same (load_entries-Good json es [] (tt, tt))
  ]

  -- A registry opened over any file, after any calls with any failures of the file system, has no
  -- key twice and every entry under its own UUID.
  pub new_store-run-IsValid :
      (made : Bool) (file : FileRead) (tmp : Option Text) (cs : List (Call M)) (s : Store M)
      → new_store json made file tmp ≡ some s
      → IsValid (run cs s)
  new_store-run-IsValid made file tmp cs s h =
      let v = run-Good cs s (new_store-Good made file tmp s h) in
      record { unique = v.0; keyed = v.1 }
