-- ===== src/Registry/Update.antt =====
-- What `Update` answers and leaves behind, failures included (pkg/registry/registry.go).
use qubicdb.Prelude.{
  ℕ, ◌≡◌, ◌≢◌, refl, inl, inr, true, false, none, some, List, Text, text_discrete, arith,
  Option-cases, Bool-cases, ite,
}
use qubicdb.Prelude.Assoc.{lookup, delete, lookup-insert, lookup-delete}
use qubicdb.Registry.{
  Entry, Json, Store, Disk, Result, ok, err, save, rekey, rollback, change_entry, is_taken, update,
  get,
}
use qubicdb.Registry.Error.{already_exists, not_found, new_exists, persist_failed}
use qubicdb.Registry.Invariant.{save-entries}
use qubicdb.Registry.Saving.{Written, Unwritten, save-Written, save-Unwritten}

module _ {M : Type 0} (json : Json M) where
  -- What `Update` may answer, from the store `s` where `x` is the entry that it changes.
  abbrev pub Changed : Disk → Text → Text → M → ℕ → Store M → Store M → Result (Entry M) → Type 0
  Changed disk old new metadata now s s' (ok e) =
      (x : Entry M) × (get old s ≡ some x)
      × (e ≡ record x { uuid = new; metadata = metadata; updated_at = now })
      × (get new s' ≡ some e)
      × (old ≢ new → get old s' ≡ none)
      × ((k : Text) → old ≢ k → new ≢ k → get k s' ≡ get k s)
      × Written json disk s'
  Changed disk old new metadata now s s' (err not_found) = (s' ≡ s) × (get old s ≡ none)
  Changed disk old new metadata now s s' (err new_exists) =
      (s' ≡ s) × (old ≢ new) × (get new s ≢ none)
  Changed disk old new metadata now s s' (err persist_failed) =
      (x : Entry M) × (get old s ≡ some x)
      × (get old s' ≡ some (record x { uuid = old; metadata = metadata; updated_at = now }))
      × ((k : Text) → old ≢ k → get k s' ≡ get k s)
      × Unwritten json disk
          (rekey json old new (record x { uuid = new; metadata = metadata; updated_at = now })
            s.entries)
          s s'
  Changed disk old new metadata now s s' (err already_exists) = ⊥

  lookup-rekey :
      (old new k : Text) (e : Entry M) (l : List (Text × Entry M))
      → lookup text_discrete k (rekey json old new e l)
        ≡ ite
            (text_discrete new k)
            (some e)
            (ite (text_discrete old k) none (lookup text_discrete k l))
  unfolding rekey
  lookup-rekey old new k e l = ground (
    arith,
    lookup-insert text_discrete new k e l,
    lookup-insert text_discrete new k e (delete text_discrete old l),
    lookup-delete text_discrete old k l,
  )

  lookup-rollback :
      (old new k : Text) (e : Entry M) (l : List (Text × Entry M))
      → lookup text_discrete k (rollback json old new e l)
        ≡ ite (text_discrete new old) (lookup text_discrete k l) (
            ite
              (text_discrete old k)
              (some (record e { uuid = old }))
              (ite (text_discrete new k) none (lookup text_discrete k l)))
  unfolding rollback
  lookup-rollback old new k e l = ground (
    arith,
    lookup-insert text_discrete old k (record e { uuid = old }) (delete text_discrete new l),
    lookup-delete text_discrete new k l,
  )

  is_taken-true :
      (old new : Text) (s : Store M)
      → is_taken json old new s ≡ true
      → (old ≢ new) × (get new s ≢ none)
  unfolding is_taken get
  is_taken-true old new s h = ground arith

  is_taken-false :
      (old new : Text) (s : Store M)
      → is_taken json old new s ≡ false
      → old ≢ new
      → get new s ≡ none
  unfolding is_taken get
  is_taken-false old new s h ne = ground arith

  -- after the rollback: the entry under its old key, with the new metadata, and the rest as before
  lookup-rollback-rekey :
      (old new k : Text) (x : Entry M) (metadata : M) (now : ℕ) (l : List (Text × Entry M))
      → (old ≢ new → lookup text_discrete new l ≡ none)
      → let e : Entry M = record x { uuid = new; metadata = metadata; updated_at = now } in
        lookup text_discrete k (rollback json old new e (rekey json old new e l))
        ≡ ite
            (text_discrete old k)
            (some (record x { uuid = old; metadata = metadata; updated_at = now }))
            (lookup text_discrete k l)
  lookup-rollback-rekey old new k x metadata now l free =
      let e : Entry M = record x { uuid = new; metadata = metadata; updated_at = now } in
      ground
        (arith, lookup-rollback old new k e (rekey json old new e l), lookup-rekey old new k e l)

  change_entry-Changed :
      (old new : Text) (metadata : M) (now : ℕ) (disk : Disk) (x : Entry M) (s : Store M)
      → get old s ≡ some x
      → is_taken json old new s ≡ false
      → let (s', r) = change_entry json old new metadata now disk x s in
        Changed disk old new metadata now s s' r
  unfolding change_entry get
  change_entry-Changed old new metadata now disk x s h free =
      let e : Entry M = record x { uuid = new; metadata = metadata; updated_at = now } in
      let s1 : Store M = record s { entries = rekey json old new e s.entries } in
      let kept = save-entries json disk s1 in
      elim (Bool-cases (save json disk s1).1) [
        | inl saved ↦ rw saved (
          x,
          h,
          refl,
          rw kept (ground (arith, lookup-rekey old new new e s.entries)),
          (λ ne. rw kept (ground (arith, lookup-rekey old new old e s.entries))),
          (λ k a b. rw kept (ground (arith, lookup-rekey old new k e s.entries))),
          save-Written json disk s1 saved,
        )
        | inr failed ↦
            let (full, file) = save-Unwritten json disk s1 failed in
            let back = λ (k : Text).
              lookup-rollback-rekey old new k x metadata now s.entries
                (is_taken-false old new s free) in
            rw failed (
              x,
              h,
              rw kept (ground (arith, back old)),
              (λ k ne. rw kept (ground (arith, back k))),
              record { could_not_save = full; same_file = file },
            )
      ]

  -- Update of an unknown UUID, or to a UUID that is another entry's, is refused and changes
  -- nothing. If the new entries can be printed and both calls of the file system succeed, the
  -- answer is the entry, which stands under the new UUID with the new metadata and the time of the
  -- call, the old UUID is free unless it is the same, no other UUID is touched, and the file holds
  -- the new map. If not, the answer is the failure and the file is the one of before; the UUID is
  -- put back but the new metadata and the time of the call stay, and no other UUID is touched.
  pub update-Changed :
      (old new : Text) (metadata : M) (now : ℕ) (disk : Disk) (s : Store M)
      → let (s', r) = update json old new metadata now disk s in
        Changed disk old new metadata now s s' r
  unfolding update get
  update-Changed old new metadata now disk s =
      elim (Option-cases (lookup text_discrete old s.entries)) [
        | inl e ↦ rw (e, update) (refl, e)
        | inr (x, e) ↦
            rw (e, update)
              (elim (Bool-cases (is_taken json old new s)) [
                | inl t ↦
                    let (apart, taken) = is_taken-true old new s t in rw t (refl, apart, taken)
                | inr t ↦ rw t (change_entry-Changed old new metadata now disk x s e t)
              ])
      ]

  -- An Update of a registered UUID that fails to write the file is visible in memory whenever it
  -- was to change the metadata.
  pub update_failed-ne :
      (old new : Text) (metadata : M) (now : ℕ) (disk : Disk) (s s' : Store M) (x : Entry M)
      → update json old new metadata now disk s ≡ (s', err persist_failed)
      → get old s ≡ some x
      → x.metadata ≢ metadata
      → get old s' ≢ get old s
  update_failed-ne old new metadata now disk s s' x h there ne same =
      let (y, was, is, _, _) = rw h at (update-Changed old new metadata now disk s) in
      ne (ground arith)
