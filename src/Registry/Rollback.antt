-- ===== src/Registry/Rollback.antt =====
-- What the registry's operations answer and leave behind, failures included
-- (pkg/registry/registry.go).
use qubicdb.Prelude.{
  ℕ, ◌≡◌, ◌≢◌, refl, inl, inr, Bool, true, false, none, some, List, Text, text_discrete, arith,
  Option-cases, Bool-cases, ◌+◌,
}
use qubicdb.Prelude.Assoc.{
  lookup, insert, delete, Unique, lookup-insert, lookup-delete, delete-insert, lookup-insert_self,
  lookup-insert_ne, lookup-delete_self, lookup-delete_ne, length-delete, length-insert,
}
use qubicdb.Registry.{
  Entry, Json, Store, Disk, Result, ok, err, save, add_entry, create, find_or_create, remove,
  new_entry, get, count, with_created,
}
use qubicdb.Registry.Error.{already_exists, not_found, new_exists, persist_failed}
use qubicdb.Registry.Invariant.{save-entries}
use qubicdb.Registry.Saving.{Written, Unwritten, save-Written, save-Unwritten}

module _ {M : Type 0} (json : Json M) where
  -- What `Create` may answer for the entry `e`, from the store `s` and with the store `s'`.
  abbrev pub Created : Disk → Entry M → Store M → Store M → Result (Entry M) → Type 0
  Created disk e s s' (ok x) =
      (x ≡ e)
      × (get e.uuid s ≡ none)
      × (get e.uuid s' ≡ some e)
      × (count s' ≡ count s + 1)
      × ((k : Text) → e.uuid ≢ k → get k s' ≡ get k s)
      × Written json disk s'
  Created disk e s s' (err already_exists) = (s' ≡ s) × (get e.uuid s ≢ none)
  Created disk e s s' (err persist_failed) =
      (s'.entries ≡ s.entries)
      × (get e.uuid s ≡ none)
      × Unwritten json disk (insert text_discrete e.uuid e s.entries) s s'
  Created disk e s s' (err not_found) = ⊥
  Created disk e s s' (err new_exists) = ⊥

  add_entry-Created :
      (uuid : Text) (metadata : M) (now : ℕ) (disk : Disk) (s : Store M)
      → lookup text_discrete uuid s.entries ≡ none
      → let (s', r) = add_entry json uuid metadata now disk s in
        Created disk (new_entry uuid metadata now) s s' r
  unfolding add_entry get count
  add_entry-Created uuid metadata now disk s h =
      let e = new_entry uuid metadata now in
      let s1 : Store M = record s { entries = insert text_discrete uuid e s.entries } in
      let kept = save-entries json disk s1 in
      elim (Bool-cases (save json disk s1).1) [
        | inl saved ↦ rw saved (
          refl,
          h,
          rw kept (lookup-insert_self text_discrete uuid e s.entries),
          rw kept (rw (length-insert text_discrete uuid e s.entries) (rw h)),
          (λ k ne. rw kept (lookup-insert_ne text_discrete uuid k e s.entries ne)),
          save-Written json disk s1 saved,
        )
        | inr failed ↦
            let (full, file) = save-Unwritten json disk s1 failed in
            rw failed (
              rw kept (delete-insert text_discrete uuid e s.entries h),
              h,
              record { could_not_save = full; same_file = file },
            )
      ]

  -- Create of a taken UUID is refused and changes nothing. Otherwise, if the new entries can be
  -- printed and both calls of the file system succeed, it answers the new entry, which is then the
  -- one under its UUID, one entry more is counted, no other changes, and the file holds the new
  -- map; if not, it answers the failure, and the map and the file are the ones of before.
  pub create-Created :
      (uuid : Text) (metadata : M) (now : ℕ) (disk : Disk) (s : Store M)
      → let (s', r) = create json uuid metadata now disk s in
        Created disk (new_entry uuid metadata now) s s' r
  unfolding create get
  create-Created uuid metadata now disk s =
      elim (Option-cases (lookup text_discrete uuid s.entries)) [
        | inl e ↦ rw (e, create) (add_entry-Created uuid metadata now disk s e)
        | inr (x, e) ↦ rw (e, create) (refl, λ none'. cc)
      ]

  abbrev pub Found : Disk → Entry M → Store M → Store M → Result (Entry M × Bool) → Type 0
  Found disk e s s' (ok (x, false)) = (s' ≡ s) × (get e.uuid s ≡ some x)
  Found disk e s s' (ok (x, true)) = Created disk e s s' (ok x)
  Found disk e s s' (err x) = Created disk e s s' (err x) × (get e.uuid s ≡ none)

  with_created-Found :
      (disk : Disk) (e : Entry M) (s : Store M) (p : Store M × Result (Entry M))
      → get e.uuid s ≡ none
      → Created disk e s p.0 p.1
      → Found disk e s (with_created json p).0 (with_created json p).1
  with_created-Found disk e s (s', ok x) h c = c
  with_created-Found disk e s (s', err x) h c = (c, h)

  -- FindOrCreate answers the entry that is there and changes nothing. If there is none, it answers
  -- and leaves what is stated of Create, and says that the entry was created: the new entry in the
  -- map and in the file if the save can succeed, else the failure with the map and the file of
  -- before.
  pub find_or_create-Found :
      (uuid : Text) (metadata : M) (now : ℕ) (disk : Disk) (s : Store M)
      → let (s', r) = find_or_create json uuid metadata now disk s in
        Found disk (new_entry uuid metadata now) s s' r
  unfolding find_or_create get
  find_or_create-Found uuid metadata now disk s =
      elim (Option-cases (lookup text_discrete uuid s.entries)) [
        | inl e ↦
            rw (e, find_or_create)
              (with_created-Found disk (new_entry uuid metadata now) s _ e
                (add_entry-Created uuid metadata now disk s e))
        | inr (x, e) ↦ rw (e, find_or_create) (refl, e)
      ]

  -- What `Delete` may answer.
  abbrev pub Removed : Disk → Text → Store M → Store M → Result (Unit {0}) → Type 0
  Removed disk uuid s s' (ok _) =
      (get uuid s ≢ none)
      × (get uuid s' ≡ none)
      × (count s ≡ count s' + 1)
      × ((k : Text) → uuid ≢ k → get k s' ≡ get k s)
      × Written json disk s'
  Removed disk uuid s s' (err not_found) = (s' ≡ s) × (get uuid s ≡ none)
  Removed disk uuid s s' (err persist_failed) =
      (get uuid s ≢ none)
      × ((k : Text) → get k s' ≡ get k s)
      × Unwritten json disk (delete text_discrete uuid s.entries) s s'
  Removed disk uuid s s' (err _) = ⊥

  pub restored :
      (uuid : Text) (x : Entry M) (l : List (Text × Entry M)) (k : Text)
      → lookup text_discrete uuid l ≡ some x
      → lookup text_discrete k (insert text_discrete uuid x (delete text_discrete uuid l))
        ≡ lookup text_discrete k l
  restored uuid x l k h = ground (
    arith,
    lookup-insert text_discrete uuid k x (delete text_discrete uuid l),
    lookup-delete text_discrete uuid k l,
  )

  -- Delete of an unknown UUID is refused and changes nothing. Otherwise, if the other entries can
  -- be printed and both calls of the file system succeed, the entry is gone, one less is counted,
  -- no other changes, and the file holds the new map; if not, it answers the failure, every UUID
  -- reads as before, and the file is the one of before. No key occurs twice in the map.
  pub remove-Removed :
      (uuid : Text) (disk : Disk) (s : Store M)
      → Unique text_discrete s.entries
      → let (s', r) = remove json uuid disk s in Removed disk uuid s s' r
  unfolding remove get count
  remove-Removed uuid disk s u = elim (Option-cases (lookup text_discrete uuid s.entries)) [
    | inl e ↦ rw (e, remove) (refl, e)
    | inr (x, e) ↦
        let s1 : Store M = record s { entries = delete text_discrete uuid s.entries } in
        let kept = save-entries json disk s1 in
        rw (e, remove)
          (elim (Bool-cases (save json disk s1).1) [
            | inl saved ↦ rw saved (
              λ h. cc,
              rw kept (lookup-delete_self text_discrete uuid s.entries),
              rw kept (ground (arith, length-delete text_discrete uuid s.entries)),
              (λ k ne. rw kept (lookup-delete_ne text_discrete uuid k s.entries ne)),
              save-Written json disk s1 saved,
            )
            | inr failed ↦
                let (full, file) = save-Unwritten json disk s1 failed in
                rw failed (
                  (λ h. cc),
                  (λ k. rw kept (restored uuid x s.entries k e)),
                  record { could_not_save = full; same_file = file },
                )
          ])
  ]
