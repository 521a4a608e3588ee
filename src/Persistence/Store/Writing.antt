-- ===== src/Persistence/Store/Writing.antt =====
-- What the writing of files and of the index leaves alone (pkg/persistence/store.go): anything that depends only on the
-- configuration, the log, the data files and the pending writes.
use qubicdb.Prelude.{Bool, true, false, Option, List, [], ◌∷◌, Text, text_eq}
use qubicdb.Persistence.Io.{encode_failed, Io, ◌>>=◌}
use qubicdb.Persistence.Io.Rules.{
  Meets, Ends, Stays, Ends-bind, Ends-call, Meets-if, Meets-write_call, Stays-bind, Stays-raise,
  Stays-gets, Stays-or_raise,
}
use qubicdb.Persistence.Io.Steady.{
  Leaves-Stays, Leaves, Leaves-pure, Leaves-gets, Leaves-modify, Leaves-when, Leaves-bind,
  Leaves-or_raise, Ends-weaken,
}
use qubicdb.Persistence.Store.{
  Setup, FileStore, DurabilityConfig, fsync_policy_always, fsync_policy_off,
}
use qubicdb.Persistence.Store.Files.{read_clock, should_sync, sync_dir, write_atomically, sync_wal}
use qubicdb.Persistence.Store.Index.{
  save_index, read_whole, load_index_from_manifest, fill_index, clear_index, set_index,
}
use qubicdb.Persistence.Store.Log.{SetupLaws}

-- what depends only on the configuration, the log, the data files and the pending writes
abbrev pub View : Type 0 → Type 1
View X = DurabilityConfig → Option Text → List (Text × Text) → List (Text × X) → Type 0

abbrev pub Holds : {X S : Type 0} → View X → FileStore X S → Type 0
Holds F s = F s.durability s.wal_file s.data_files s.pending_writes

module _ {X S : Type 0} (setup : Setup X S) {quiet : Bool} (F : View X) where
  pub Leaves-read_clock : Leaves quiet (Holds F) (read_clock setup)
  unfolding read_clock
  Leaves-read_clock =
      Leaves-bind (Leaves-gets _)
        λ now. Leaves-bind (Leaves-modify _ (λ s h. h)) λ _. Leaves-pure now

  pub Leaves-should_sync : Leaves quiet (Holds F) (should_sync setup)
  unfolding should_sync
  Leaves-should_sync = Leaves-bind (Leaves-gets _) λ c.
      Meets-if _ (text_eq c.fsync_policy fsync_policy_off) (Leaves-pure false) (
        Meets-if _ (text_eq c.fsync_policy fsync_policy_always) (Leaves-pure true) (
          Leaves-bind Leaves-read_clock λ now. Leaves-bind (Leaves-gets _) λ due.
            Leaves-bind (Leaves-when due _ (Leaves-modify _ (λ s h. h))) λ _. Leaves-pure due))

  pub Leaves-sync_dir : Leaves quiet (Holds F) (sync_dir setup)
  unfolding sync_dir
  Leaves-sync_dir = Leaves-bind Ends-call λ _. Ends-call

  pub Leaves-sync_wal : Leaves quiet (Holds F) (sync_wal setup)
  unfolding sync_wal
  Leaves-sync_wal =
      Leaves-bind Leaves-should_sync
        λ b. Leaves-when b _ (Leaves-bind Ends-call λ _. Leaves-sync_dir)

module _ {X S : Type 0} (setup : Setup X S) {quiet : Bool} where
  -- Up to the renaming a write leaves everything, from then on it has its effect.
  pub Ends-write_atomically :
      (F G : View X) (T : FileStore X S → Type 0) (place : FileStore X S → FileStore X S)
      → ((s : FileStore X S) → Holds F s → T s)
      → ((s : FileStore X S) → Holds G s → T s)
      → ((s : FileStore X S) → Holds F s → Holds G (place s))
      → Meets quiet (Holds F) (write_atomically setup place) (Ends quiet (λ _. Holds G) T)
  unfolding write_atomically
  Ends-write_atomically F G T place f g p = before Ends-call λ _. before Ends-call λ _.
      before (Leaves-should_sync setup F) λ b. before (Leaves-when b _ Ends-call) λ _.
        before Ends-call λ _.
          Ends-bind (λ _. Holds G) (λ _. Holds G) T
            (Meets-write_call _ place _ p (λ s q h. (q, f s h)) (λ n s q h. (q, f s h)))
            λ _.
              Ends-weaken (λ _. Holds G) T (Leaves-when b _ (Leaves-sync_dir setup G)) (λ a s h. h)
                g
    where
      before :
          {A B : Type 0} {m : Io (FileStore X S) A} {k : A → Io (FileStore X S) B}
          → Leaves quiet (Holds F) m
          → ((a : A) → Meets quiet (Holds F) (k a) (Ends quiet (λ _. Holds G) T))
          → Meets quiet (Holds F) (m >>= k) (Ends quiet (λ _. Holds G) T)
      before hm hk =
          Ends-bind (λ _. Holds F) (λ _. Holds G) T (Ends-weaken (λ _. Holds F) T hm (λ a s h. h) f)
            hk

module _ {X S : Type 0} (setup : Setup X S) (laws : SetupLaws setup) {quiet : Bool}
    (F : View X) where
  pub Leaves-write_atomically :
      (place : FileStore X S → FileStore X S)
      → ((s : FileStore X S) → Holds F s → Holds F (place s))
      → Leaves quiet (Holds F) (write_atomically setup place)
  Leaves-write_atomically place h =
      Ends-write_atomically setup F F (Holds F) place (λ s x. x) (λ s x. x) h

  pub Leaves-save_index : Leaves quiet (Holds F) (save_index setup)
  unfolding save_index
  Leaves-save_index = Leaves-bind (Leaves-gets _) λ snaps.
      Leaves-bind (Leaves-or_raise _ encode_failed (laws.marshals_snapshots snaps)) λ raw.
        Leaves-bind (Leaves-gets _) λ v. Leaves-bind (Leaves-write_atomically _ (λ s h. h)) λ _.
          Leaves-bind (Leaves-read_clock setup F) λ now.
            Leaves-bind (Leaves-or_raise _ encode_failed (laws.marshals_manifest _)) λ manifest.
              Leaves-bind (Leaves-write_atomically _ (λ s h. h)) λ _.
                Leaves-bind (Leaves-write_atomically _ (λ s h. h)) λ _.
                  Leaves-bind (Leaves-write_atomically _ (λ s h. h)) λ _. Leaves-modify _ (λ s h. h)

module _ {X S : Type 0} (setup : Setup X S) (F : View X) where
  fill_index_same :
      (snaps : List S) (s : FileStore X S) → Holds F s → Holds F (fill_index setup snaps s)
  unfolding fill_index
  fill_index_same [] s h = h
  fill_index_same (snap ∷ snaps) s h =
      fill_index_same snaps (set_index (setup.snapshot_id snap) snap s) h

module _ {X S : Type 0} (setup : Setup X S) {quiet : Bool} (F : View X) where
  Stays-read_whole :
      (path : FileStore X S → Option Text)
      → Meets quiet (Holds F) (read_whole path) (Stays quiet (Holds F))
  unfolding read_whole
  Stays-read_whole path =
      Stays-bind (Leaves-Stays Ends-call)
        λ _. Stays-bind (Stays-gets path) λ found. Stays-or_raise found _

  pub Stays-load_index_from_manifest :
      Meets quiet (Holds F) (load_index_from_manifest setup) (Stays quiet (Holds F))
  unfolding load_index_from_manifest
  Stays-load_index_from_manifest = Stays-bind (Stays-read_whole _) λ raw_name.
      Meets-if _ (text_eq (setup.trim_space raw_name) []) (Stays-raise _) (
        Stays-bind (Stays-read_whole _) λ data'. Stays-bind (Stays-or_raise _ _) λ manifest.
          Stays-bind (Stays-read_whole _) λ checkpoint. Stays-bind (Stays-or_raise _ _) λ snaps.
            Stays-bind (Leaves-Stays (Leaves-modify clear_index (λ s h. h))) λ _.
              Stays-bind
                (Leaves-Stays
                  (Leaves-modify (fill_index setup snaps) (fill_index_same setup F snaps)))
                λ _. Leaves-Stays (Leaves-modify _ (λ s h. h)))
