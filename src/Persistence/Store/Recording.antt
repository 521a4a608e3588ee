-- ===== src/Persistence/Store/Recording.antt =====
-- What the operations of a store write to its log (pkg/persistence/store.go): an operation that is done has written its change, and
-- one that is not has written it or nothing that is read.
use qubicdb.Prelude.{
  ◌^◌, ◌<◌, ◌≡◌, refl, subst, inl, inr, Bool, none, some, List, [], ◌∷◌, ◌++◌, Text, length, arith,
}
use qubicdb.Persistence.Codec.{encode}
use qubicdb.Persistence.Io.{encode_failed, Answer, done, failed, crashed, Io, ◌>>=◌}
use qubicdb.Persistence.Io.Rules.{
  Meets, Stays, Stays-bind, Meets-weaken, Meets-bind, Meets-or_raise,
}
use qubicdb.Persistence.Io.Steady.{Leaves-modify, Leaves-bind, Leaves-Stays}
use qubicdb.Persistence.Store.{Setup, FileStore}
use qubicdb.Persistence.Store.Files.{append_wal}
use qubicdb.Persistence.Store.Index.{drop_index}
use qubicdb.Persistence.Store.Calls.{
  put_record, delete_record, drop_pending, save_async, save_matrix, delete_matrix,
}
use qubicdb.Persistence.Store.Log.{
  Change, stored, removed, stored-Covered, IsDecoded, SetupLaws, IsStorable, IsStorable-IsDecoded,
  IsLogged, Logged,
}
use qubicdb.Persistence.Store.Appending.{Wrote, Meets-append_wal}
use qubicdb.Persistence.Store.Flushing.{
  IsLogged-drop_pending, IsLogged-set_pending, Leaves-remove_file, Stays-flush_user,
}
use qubicdb.Persistence.Store.Writing.{Leaves-save_index}

module _ {X S : Type 0} (setup : Setup X S) where
  abbrev St : Type 0
  St = FileStore X S

  -- the change of `Save` and of `SaveAsync`
  abbrev pub changes_of : X → List Change
  changes_of m = elim (encode setup.codec setup.compress m) [
    | none ↦ []
    | some raw ↦ stored (setup.codec.index_id m) raw ∷ []
  ]

  module _ (laws : SetupLaws setup) {quiet : Bool} where
    -- A change is written, then other things are done.
    Wrote-bind :
        (cs new : List Change) (c : Change) {m : Io St Unit} {k : Unit → Io St Unit}
        → c ∷ [] ≡ new
        → Meets quiet (Logged setup cs []) m (Wrote setup cs (c ∷ []))
        → ((a : Unit)
            → Meets quiet
                (Logged setup (cs ++ c ∷ []) [])
                (k a)
                (Stays quiet (Logged setup (cs ++ c ∷ []) [])))
        → Meets quiet (Logged setup cs []) (m >>= k) (Wrote setup cs new)
    Wrote-bind cs new c {m = m} {k = k} same hm hk =
        subst (λ l. Meets quiet (Logged setup cs []) (m >>= k) (Wrote setup cs l)) same
          (Meets-bind (Wrote setup cs (c ∷ [])) _ hm (λ e s h. h) (λ s h. h)
            λ a. Meets-weaken (Logged setup (cs ++ c ∷ []) []) _ (hk a) (λ s h. h) go)
      where
        go :
            (r : Answer Unit) (s : St)
            → Stays quiet (Logged setup (cs ++ c ∷ []) []) r s
            → Wrote setup cs (c ∷ []) r s
        go (done a) s h = h
        go (failed e) s h = inr h
        go crashed s h = inr ([], h.1)

    -- the record of a matrix
    Wrote-append_put :
        (cs : List Change) (m : X) (raw : Text)
        → IsStorable setup m
        → encode setup.codec setup.compress m ≡ some raw
        → Meets quiet
            (Logged setup cs [])
            (append_wal setup (put_record (setup.codec.index_id m) raw))
            (Wrote setup cs (stored (setup.codec.index_id m) raw ∷ []))
    Wrote-append_put cs m raw st e =
        Meets-append_wal setup laws cs (stored (setup.codec.index_id m) raw)
          (λ p e'. st.record_fits raw p e e')
          λ i r eq.
            let same : raw ≡ r = ground arith in
            subst (IsDecoded setup) same (IsStorable-IsDecoded setup laws m raw st e)

    pub Wrote-save_async :
        (cs : List Change) (m : X)
        → IsStorable setup m
        → Meets quiet (Logged setup cs []) (save_async setup m) (Wrote setup cs (changes_of m))
    unfolding save_async
    Wrote-save_async cs m st =
        Meets-or_raise _ encode_failed (encode setup.codec setup.compress m) (λ e s h. inl h)
          λ raw e.
            let id = setup.codec.index_id m in
            Wrote-bind cs (changes_of m) (stored id raw) (rw (e, changes_of) refl)
              (Wrote-append_put cs m raw st e)
              λ _. Leaves-Stays (
                Leaves-modify _ (λ s h.
                  IsLogged-set_pending setup (cs ++ stored id raw ∷ []) id m s
                    (st, stored-Covered cs id raw) h))

    pub Wrote-save_matrix :
        (cs : List Change) (m : X)
        → IsStorable setup m
        → Meets quiet (Logged setup cs []) (save_matrix setup m) (Wrote setup cs (changes_of m))
    unfolding save_matrix
    Wrote-save_matrix cs m st =
        Meets-or_raise _ encode_failed (encode setup.codec setup.compress m) (λ e s h. inl h)
          λ raw e.
            let id = setup.codec.index_id m in
            Wrote-bind cs (changes_of m) (stored id raw) (rw (e, changes_of) refl)
              (Wrote-append_put cs m raw st e)
              λ _.
                Stays-bind
                  (Leaves-Stays (
                    Leaves-modify _ (λ s h.
                      IsLogged-set_pending setup (cs ++ stored id raw ∷ []) id m s
                        (st, stored-Covered cs id raw) h)))
                  (λ _. Stays-flush_user setup laws (cs ++ stored id raw ∷ []) id)

    pub Wrote-delete_matrix :
        (cs : List Change) (id : Text)
        → ((p : Text) → setup.wal.marshal_record (delete_record id) ≡ some p → length p < 2 ^ 32)
        → Meets quiet
            (Logged setup cs [])
            (delete_matrix setup id)
            (Wrote setup cs (removed id ∷ []))
    unfolding delete_matrix
    Wrote-delete_matrix cs id fits =
        let cs' = cs ++ removed id ∷ [] in
        Wrote-bind cs (removed id ∷ []) (removed id) refl
          (Meets-append_wal setup laws cs (removed id) fits (λ i r eq. absurd (ground arith)))
          λ _. Leaves-Stays (
            Leaves-bind (Leaves-modify (drop_pending id) (IsLogged-drop_pending setup cs' id)) λ _.
              Leaves-bind (Leaves-modify (drop_index id) (λ s h. h)) λ _.
                Leaves-bind (Leaves-remove_file setup cs' [] id)
                  λ _. Leaves-save_index setup laws (IsLogged setup cs' []))
