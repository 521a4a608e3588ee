-- ===== src/Registry/Saving.antt =====
-- When a save of the registry succeeds, and what it leaves in the files (pkg/registry/registry.go).
use qubicdb.Prelude.{
  ◌≡◌, sym, ◌∙◌, Bool, true, false, ◌&&◌, none, is_some, List, Text, arith, Option-cases, inl, inr,
}
use qubicdb.Registry.{Entry, Json, Store, Disk, values, save}
use qubicdb.Registry.Invariant.{save-entries}

module _ {M : Type 0} (json : Json M) where
  -- Both calls of the file system succeed, and the entries can be printed.
  abbrev pub can_save : Disk → List (Text × Entry M) → Bool
  can_save disk l = disk.write_ok && disk.rename_ok && is_some (json.marshal (values l))

  -- the map was saved: the file holds what the map holds now
  pub record Written (disk : Disk) (s' : Store M) : Type 0 where
    pub could_save : can_save disk s'.entries ≡ true
    pub in_file : s'.file ≡ json.marshal (values s'.entries)
    pub no_tmp : s'.tmp_file ≡ none

  -- the map `l` could not be saved, and the file is the one of before
  pub record Unwritten (disk : Disk) (l : List (Text × Entry M)) (s s' : Store M) : Type 0 where
    pub could_not_save : can_save disk l ≡ false
    pub same_file : s'.file ≡ s.file

  save-can_save : (disk : Disk) (s : Store M) → (save json disk s).1 ≡ can_save disk s.entries
  unfolding save
  save-can_save disk s = elim (Option-cases (json.marshal (values s.entries))) [
    | inl h ↦ ground (arith, h)
    | inr (data', h) ↦ ground (arith, h)
  ]

  pub save-Written :
      (disk : Disk) (s : Store M) → (save json disk s).1 ≡ true → Written disk (save json disk s).0
  unfolding save
  save-Written disk s saved = record {
    could_save = rw (save-entries json disk s) (sym (save-can_save disk s) ∙ saved);
    in_file = rw (save-entries json disk s) (ground arith);
    no_tmp = ground arith;
  }

  pub save-Unwritten :
      (disk : Disk) (s : Store M)
      → (save json disk s).1 ≡ false
      → (can_save disk s.entries ≡ false) × ((save json disk s).0.file ≡ s.file)
  unfolding save
  save-Unwritten disk s failed = (sym (save-can_save disk s) ∙ failed, ground arith)
