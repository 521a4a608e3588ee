-- ===== src/Persistence/Store/Flushing.antt =====
-- The flushing of pending matrices (pkg/persistence/store.go) keeps a store and its log in agreement.
use qubicdb.Prelude.{◌≡◌, refl, Bool, Option, none, some, List, [], ◌∷◌, Text, text_discrete}
use qubicdb.Prelude.Assoc.{delete, AllEntries-lookup, AllEntries-insert, AllEntries-delete}
use qubicdb.Persistence.Codec.{encode}
use qubicdb.Persistence.Io.{StoreError, encode_failed}
use qubicdb.Persistence.Io.Rules.{
  Meets, Ends, Stays, Meets-write_call, Stays-bind, Stays-raise, Stays-gets, Stays-pure, Meets-gets,
  Meets-on_error, Meets-bind, Meets-fact, Meets-or_raise,
}
use qubicdb.Persistence.Io.Steady.{Leaves, Leaves-modify, Leaves-bind, Leaves-Stays}
use qubicdb.Persistence.Store.{Setup, FileStore}
use qubicdb.Persistence.Store.Files.{put_file}
use qubicdb.Persistence.Store.Index.{set_index}
use qubicdb.Persistence.Store.Calls.{
  set_pending, drop_pending, remove_file, flush_found, flush_user, flush_each, flush_all,
}
use qubicdb.Persistence.Store.Log.{
  Change, Covered, IsDecoded, SetupLaws, IsStorable, IsStorable-IsDecoded, IsLogged, Logged,
}
use qubicdb.Persistence.Store.Writing.{Leaves-write_atomically, Leaves-save_index}

module _ {X S : Type 0} (setup : Setup X S) where
  abbrev St : Type 0
  St = FileStore X S

  pub IsLogged-drop_pending :
      (cs : List Change) (id : Text) (s : St)
      → Logged setup cs [] s
      → Logged setup cs [] (drop_pending id s)
  unfolding drop_pending
  IsLogged-drop_pending cs id s h = record {
    wal_on = h.wal_on;
    repair_on = h.repair_on;
    log_is = h.log_is;
    tail_unread = h.tail_unread;
    sound = h.sound;
    files_ok = h.files_ok;
    pending_ok = AllEntries-delete text_discrete _ s.pending_writes id h.pending_ok;
  }

  pub IsLogged-set_pending :
      (cs : List Change) (id : Text) (m : X) (s : St)
      → IsStorable setup m × Covered cs id
      → Logged setup cs [] s
      → Logged setup cs [] (set_pending id m s)
  unfolding set_pending
  IsLogged-set_pending cs id m s ok h = record {
    wal_on = h.wal_on;
    repair_on = h.repair_on;
    log_is = h.log_is;
    tail_unread = h.tail_unread;
    sound = h.sound;
    files_ok = h.files_ok;
    pending_ok = AllEntries-insert text_discrete _ s.pending_writes id m h.pending_ok ok;
  }

  pub IsLogged-put_file :
      (cs : List Change) (tail id raw : Text) (s : St)
      → IsDecoded setup raw × Covered cs id
      → Logged setup cs tail s
      → Logged setup cs tail (put_file id raw s)
  unfolding put_file
  IsLogged-put_file cs tail id raw s ok h = record {
    wal_on = h.wal_on;
    repair_on = h.repair_on;
    log_is = h.log_is;
    tail_unread = h.tail_unread;
    sound = h.sound;
    files_ok = AllEntries-insert text_discrete _ s.data_files id raw h.files_ok ok;
    pending_ok = h.pending_ok;
  }

  pub IsLogged-delete_file :
      (cs : List Change) (tail id : Text) (s : St)
      → Logged setup cs tail s
      → Logged setup cs tail (record s { data_files = delete text_discrete id s.data_files })
  IsLogged-delete_file cs tail id s h = record {
    wal_on = h.wal_on;
    repair_on = h.repair_on;
    log_is = h.log_is;
    tail_unread = h.tail_unread;
    sound = h.sound;
    files_ok = AllEntries-delete text_discrete _ s.data_files id h.files_ok;
    pending_ok = h.pending_ok;
  }

  pub Leaves-remove_file :
      {quiet : Bool} (cs : List Change) (tail id : Text)
      → Leaves quiet (Logged setup cs tail) (remove_file id)
  unfolding remove_file
  Leaves-remove_file cs tail id =
      Meets-write_call _ _ _ (IsLogged-delete_file cs tail id) (λ s q h. (q, h)) (λ n s q h. (q, h))

  module _ (laws : SetupLaws setup) {quiet : Bool} where
    Stays-flush_found :
        (cs : List Change) (id : Text) (o : Option X)
        → ((m : X) → o ≡ some m → IsStorable setup m × Covered cs id)
        → Meets quiet
            (Logged setup cs [])
            (flush_found setup id o)
            (Stays quiet (Logged setup cs []))
    unfolding flush_found
    Stays-flush_found cs id none ok = Stays-pure tt
    Stays-flush_found cs id (some m) ok =
        let P = IsLogged setup cs [] in
        Stays-bind (Leaves-Stays (Leaves-modify _ (IsLogged-drop_pending cs id))) λ _.
          Meets-or_raise _ encode_failed (encode setup.codec setup.compress m) (λ e s h. h)
            λ raw e.
              let decoded = IsStorable-IsDecoded setup laws m raw (ok m refl).0 e in
              Stays-bind
                (Leaves-Stays (
                  Leaves-write_atomically setup laws P (put_file id raw)
                    (λ s h. IsLogged-put_file cs [] id raw s (decoded, (ok m refl).1) h)))
                λ _. Leaves-Stays (
                  Leaves-bind (Leaves-modify (set_index id (setup.create_snapshot m)) (λ s h. h))
                    λ _.
                      Leaves-bind (Leaves-modify _ (λ s h. h)) λ _. Leaves-save_index setup laws P)

    pub Stays-flush_user :
        (cs : List Change) (id : Text)
        → Meets quiet (Logged setup cs []) (flush_user setup id) (Stays quiet (Logged setup cs []))
    unfolding flush_user
    Stays-flush_user cs id =
        Meets-bind
          (Ends quiet
            (λ o s.
              ((m : X) → o ≡ some m → IsStorable setup m × Covered cs id) × Logged setup cs [] s)
            (Logged setup cs []))
          _
          (Meets-gets _ _ (λ s h.
            ((λ m e. AllEntries-lookup text_discrete _ s.pending_writes id m h.pending_ok e), h)))
          (λ e s h. h.1) (λ s h. h) λ o. Meets-fact _ _ (Stays-flush_found cs id o)

    Stays-flush_each :
        (cs : List Change) (ids : List Text) (last : Option StoreError)
        → Meets quiet
            (Logged setup cs [])
            (flush_each setup ids last)
            (Stays quiet (Logged setup cs []))
    unfolding flush_each
    Stays-flush_each cs [] none = Stays-pure tt
    Stays-flush_each cs [] (some e) = Stays-raise e
    Stays-flush_each cs (id ∷ ids) last =
        Stays-bind
          (Meets-on_error (Stays quiet (Logged setup cs [])) _
            (Stays-bind (Stays-flush_user cs id) λ _. Stays-pure last) (λ a s h. h) (λ s h. h)
            (λ e. Stays-pure (some e)))
          (λ last'. Stays-flush_each cs ids last')

    pub Stays-flush_all :
        (cs : List Change)
        → Meets quiet (Logged setup cs []) (flush_all setup) (Stays quiet (Logged setup cs []))
    unfolding flush_all
    Stays-flush_all cs = Stays-bind (Stays-gets _) λ ids. Stays-flush_each cs ids none
