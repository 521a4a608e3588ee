-- ===== src/Persistence/Store/Reading.antt =====
-- The index is read, rebuilt and checked (pkg/persistence/store.go) without a change of the files, where all of them decode and no
-- call fails.
use qubicdb.Prelude.{
  ◌+◌, ◌-◌, ◌≡◌, Bool, true, false, Option, none, some, List, [], ◌∷◌, Text, text_discrete, ltb,
}
use qubicdb.Prelude.Assoc.{delete, AllEntries}
use qubicdb.Persistence.Codec.{decode}
use qubicdb.Persistence.Io.{
  Answer, done, failed, crashed, Io, gets, ◌>>=◌, ◌>>◌, call, attempt, on_error,
}
use qubicdb.Persistence.Io.Rules.{
  Meets, Ends, Stays, Ends-bind, Ends-call, Meets-if, Meets-write_call, Stays-raise, Meets-gets,
  Meets-on_error, Meets-attempt, Meets-bind, Meets-fact,
}
use qubicdb.Persistence.Io.Steady.{
  Leaves, Leaves-pure, Leaves-gets, Leaves-modify, Leaves-when, Leaves-bind, Leaves-Stays,
}
use qubicdb.Persistence.Store.{Setup, FileStore}
use qubicdb.Persistence.Store.Index.{
  answer_of, set_index, drop_index, clear_index, rebuild_each, rebuild_index, load_index,
  is_not_exist, IntegrityReport, Present, check_file, check_files, drop_missing,
  validate_data_files,
}
use qubicdb.Persistence.Store.Opening.{repair_index}
use qubicdb.Persistence.Store.Log.{IsDecoded, SetupLaws}
use qubicdb.Persistence.Store.Writing.{
  Holds, View, Leaves-save_index, Stays-load_index_from_manifest,
}

-- what an attempt to read a file that decodes may come to
abbrev Attempted : {X S : Type 0} → Bool → View X → Answer (Option X) → FileStore X S → Type 0
Attempted quiet F (done (some m)) s = Holds F s
Attempted quiet F (done none) s = (quiet ≡ false) × Holds F s
Attempted quiet F (failed e) s = (quiet ≡ false) × Holds F s
Attempted quiet F crashed s = (quiet ≡ false) × Holds F s

module _ {X S : Type 0} (setup : Setup X S) {quiet : Bool} (F : View X) where
  pub Leaves-answer_of :
      (raw : Text)
      → IsDecoded setup raw
      → Leaves quiet (Holds {S = S} F) (answer_of (decode setup.codec raw))
  unfolding answer_of
  Leaves-answer_of raw d = rw d.1 (Leaves-pure d.0)

  Attempted-answer_of :
      (raw : Text)
      → IsDecoded setup raw
      → Meets quiet
          (Holds {S = S} F)
          (attempt (call >> answer_of (decode setup.codec raw)))
          (Attempted quiet F)
  Attempted-answer_of raw d =
      Meets-attempt _ _ (Leaves-bind Ends-call λ _. Leaves-answer_of raw d) (λ a s h. h)
        (λ e s h. h) (λ s h. h)

  Leaves-attempt :
      {B : Type 0} (raw : Text) (k : Option X → Io (FileStore X S) B)
      → IsDecoded setup raw
      → ((m : X) → Leaves quiet (Holds F) (k (some m)))
      → (quiet ≡ false → Leaves quiet (Holds F) (k none))
      → Leaves quiet (Holds F) (attempt (call >> answer_of (decode setup.codec raw)) >>= k)
  Leaves-attempt raw k d hs hn =
      Meets-bind (Attempted quiet F) _ (Attempted-answer_of raw d) (λ e s h. h) (λ s h. h) go
    where
      go :
          (o : Option X)
          → Meets quiet (Attempted quiet F (done o)) (k o) (Ends quiet (λ _. Holds F) (Holds F))
      go none = Meets-fact _ _ hn
      go (some m) = hs m

module _ {X S : Type 0} (setup : Setup X S) {quiet : Bool} (F : View X)
    (decodes : (s : FileStore X S)
      → Holds F s
      → AllEntries (λ id. IsDecoded setup) s.data_files) where
  Leaves-rebuild_each :
      (files : List (Text × Text))
      → AllEntries (λ id. IsDecoded setup) files
      → Leaves quiet (Holds F) (rebuild_each setup files)
  unfolding rebuild_each
  Leaves-rebuild_each [] d = Leaves-pure tt
  Leaves-rebuild_each ((id, raw) ∷ files) d =
      Leaves-attempt setup F raw _ d.0
        (λ m.
          Leaves-bind (Leaves-modify (set_index id (setup.create_snapshot m)) (λ s h. h))
            λ _. Leaves-rebuild_each files d.1)
        (λ q. Leaves-bind (Leaves-pure tt) λ _. Leaves-rebuild_each files d.1)

  -- the files, all of which decode
  with_files :
      {B : Type 0} (k : List (Text × Text) → Io (FileStore X S) B)
      → ((files : List (Text × Text))
          → AllEntries (λ id. IsDecoded setup) files
          → Leaves quiet (Holds F) (k files))
      → Leaves quiet (Holds F) (gets (λ s. s.data_files) >>= k)
  with_files k h =
      Ends-bind (λ files s. AllEntries (λ id. IsDecoded setup) files × Holds F s) _ _
        (Meets-gets _ _ (λ s p. (decodes s p, p))) λ files. Meets-fact _ _ (h files)

  pub Leaves-rebuild_index : Leaves quiet (Holds F) (rebuild_index setup)
  unfolding rebuild_index
  Leaves-rebuild_index = Leaves-bind Ends-call λ _.
      with_files _ λ files d.
        Leaves-bind (Leaves-modify clear_index (λ s h. h)) λ _. Leaves-rebuild_each files d

  pub Stays-load_index : Meets quiet (Holds F) (load_index setup) (Stays quiet (Holds F))
  unfolding load_index
  Stays-load_index =
      Meets-on_error _ _ (Stays-load_index_from_manifest setup F) (λ a s h. h) (λ s h. h)
        λ e. Meets-if _ (is_not_exist e) (Leaves-Stays Leaves-rebuild_index) (Stays-raise e)

  module _ (laws : SetupLaws setup) where
    -- with the repair switched on, the index is there in the end
    pub Leaves-load_or_repair :
        ((s : FileStore X S) → Holds F s → s.durability.startup_repair ≡ true)
        → Leaves quiet (Holds F) (on_error (load_index setup) (repair_index setup))
    unfolding repair_index
    Leaves-load_or_repair on =
        Meets-on_error _ _ Stays-load_index (λ a s h. h) (λ s h. h)
          λ e.
            Ends-bind (λ b s. (b ≡ true) × Holds F s) _ _ (Meets-gets _ _ (λ s h. (on s h, h)))
              λ b.
                Meets-fact _ _
                  (λ t. rw t (Leaves-bind Leaves-rebuild_index λ _. Leaves-save_index setup laws F))

    module _
        (deletes : quiet ≡ false
          → (id : Text) (s : FileStore X S) → Holds F s
          → Holds F (record s { data_files = delete text_discrete id s.data_files })) where
      Leaves-check_file :
          (repair : Bool) (id raw : Text) (report : IntegrityReport) (present : Present)
          → IsDecoded setup raw
          → Leaves quiet (Holds F) (check_file setup repair id raw report present)
      unfolding check_file
      Leaves-check_file repair id raw report present d =
          Leaves-attempt setup F raw _ d (λ m. Leaves-pure _)
            λ q.
              Meets-if _ repair
                (Leaves-bind
                  (Meets-write_call _ _ _ (deletes q id) (λ s q h. (q, h)) (λ n s q h. (q, h)))
                  λ _. Leaves-bind (Leaves-modify (drop_index id) (λ s h. h)) λ _. Leaves-pure _)
                (Leaves-pure _)

      Leaves-check_files :
          (repair : Bool) (files : List (Text × Text)) (report : IntegrityReport)
          (present : Present)
          → AllEntries (λ id. IsDecoded setup) files
          → Leaves quiet (Holds F) (check_files setup repair files report present)
      unfolding check_files
      Leaves-check_files repair [] report present d = Leaves-pure _
      Leaves-check_files repair ((id, raw) ∷ files) report present d =
          Leaves-bind (Leaves-check_file repair id raw report present d.0)
            λ r. Leaves-check_files repair files r.0 r.1 d.1

      pub Leaves-validate_data_files :
          (repair : Bool) → Leaves quiet (Holds F) (validate_data_files setup repair)
      unfolding validate_data_files
      Leaves-validate_data_files repair = Leaves-bind Ends-call λ _. with_files _ λ files d.
          Leaves-bind (Leaves-check_files repair files _ [] d) λ r.
            Meets-if _ repair
              (Leaves-bind (Leaves-gets _) λ before.
                Leaves-bind (Leaves-modify (drop_missing r.1) (λ s h. h)) λ _.
                  Leaves-bind (Leaves-gets _) λ after.
                    Leaves-bind
                      (Leaves-when (ltb 0 (r.0.repaired_entries + (before - after))) _
                        (Leaves-save_index setup laws F))
                      λ _. Leaves-pure _)
              (Leaves-pure _)
