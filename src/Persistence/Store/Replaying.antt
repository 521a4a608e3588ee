-- ===== src/Persistence/Store/Replaying.antt =====
-- The replay of the log at the start of a store (pkg/persistence/store.go): afterwards every file is what the
-- log says, and a torn tail is gone.
use mathlib.Core.List.{append_assoc, append-nil}
use qubicdb.Prelude.{
  ℕ, zero, suc, ◌≤◌, ◌≡◌, refl, sym, ap, ◌∙◌, subst, Bool, false, Option, none, some, List, [], ◌∷◌,
  ◌++◌, Text, text_eq, text_discrete, length, take, take-append, All, ◌==◌, arith, Option-cases,
  inl, inr,
}
use qubicdb.Prelude.Assoc.{lookup, delete, lookup-insert, lookup-delete, AllEntries-lookup}
use qubicdb.Persistence.Codec.{decode}
use qubicdb.Persistence.Wal.{WalRecord, next_payload}
use qubicdb.Persistence.Io.{pure, ◌>>◌}
use qubicdb.Persistence.Io.Rules.{
  Meets, Ends, Ends-bind, Ends-call, Meets-write_call, Meets-modify, Meets-pure,
}
use qubicdb.Persistence.Io.Steady.{Leaves-modify, Leaves-bind, Ends-weaken}
use qubicdb.Persistence.Store.{Setup, FileStore}
use qubicdb.Persistence.Store.Files.{contents, append_bytes, put_file, truncate_wal}
use qubicdb.Persistence.Store.Index.{set_index, drop_index}
use qubicdb.Persistence.Store.Calls.{remove_file}
use qubicdb.Persistence.Store.Opening.{apply_wal_record, next_record, replay_from}
use qubicdb.Persistence.Store.Log.{
  Change, stored, removed, record_of, final, final-append, Covered, IsDecoded, bytes_of, log_of,
  SetupLaws, IsSound, next_record-bytes_of, IsLogged, Logged, Torn,
}
use qubicdb.Persistence.Store.Appending.{IsLogged-append_nil}
use qubicdb.Persistence.Store.Flushing.{IsLogged-put_file, IsLogged-delete_file}
use qubicdb.Persistence.Store.Reading.{Leaves-answer_of}
use qubicdb.Persistence.Store.Writing.{Holds, View, Leaves-sync_wal, Ends-write_atomically}

-- A change that the log has is covered by it.
append-Covered :
    (before rest : List Change) (id raw : Text) → Covered (before ++ stored id raw ∷ rest) id
append-Covered before rest id raw v =
    let last : (w : Option Text)
        → final (before ++ stored id raw ∷ rest) id w ≡ final rest id (some raw) =
      λ w. final-append before (stored id raw ∷ rest) id w ∙ ap (final rest id) (ground arith) in
    last v ∙ sym (last none)

module _ {X S : Type 0} (setup : Setup X S) where
  -- The changes `rest` are still to be replayed.
  abbrev pub Replayed : List Change → List Change → Text → View X
  Replayed cs rest tail d w files p =
      IsLogged setup cs tail d w files p
      × ((id : Text) → final rest id (lookup text_discrete id files) ≡ final cs id none)

  abbrev pub Left : List Change → List Change → Text → FileStore X S → Type 0
  Left cs rest tail = Holds (Replayed cs rest tail)

  pub Logged-Left :
      (cs : List Change) (tail : Text) (s : FileStore X S)
      → Logged setup cs tail s
      → Left cs cs tail s
  Logged-Left cs tail s h = (
    h,
    λ id. elim (Option-cases (lookup text_discrete id s.data_files)) [
      | inl e ↦ ap (final cs id) e
      | inr (raw, e) ↦
          (AllEntries-lookup text_discrete _ s.data_files id raw h.files_ok e).1
            (lookup text_discrete id s.data_files)
    ],
  )

  decoded_bytes : (raw : Text) → IsDecoded setup raw → (length raw == 0) ≡ false
  unfolding decode
  decoded_bytes [] d = absurd (ground (arith, d.1))
  decoded_bytes (b ∷ raw) d = ground arith

  -- the two ways of a round
  pub replay_from_stop :
      (fuel applied : ℕ) (rest : Text)
      → next_record setup rest ≡ none
      → replay_from setup fuel applied rest ≡ pure (applied, rest)
  unfolding replay_from
  replay_from_stop zero applied rest e = refl
  replay_from_stop (suc fuel) applied rest e = rw (e, replay_from) refl

  pub replay_from_step :
      (fuel applied : ℕ) (rest rest' : Text) (r : WalRecord)
      → next_record setup rest ≡ some (r, rest')
      → replay_from setup (suc fuel) applied rest
        ≡ (apply_wal_record setup r >> replay_from setup fuel (suc applied) rest')
  unfolding replay_from
  replay_from_step fuel applied rest rest' r e = rw (e, replay_from) refl

  module _ (cs : List Change) (tail : Text) where
    Left-put_file :
        (before rest : List Change) (id raw : Text) (s : FileStore X S)
        → cs ≡ before ++ stored id raw ∷ rest
        → IsDecoded setup raw
        → Left cs (stored id raw ∷ rest) tail s
        → Left cs rest tail (put_file id raw s)
    unfolding put_file
    Left-put_file before rest id raw s e d h = (
      IsLogged-put_file setup cs tail id raw s
          (d, subst (λ l. Covered l id) (sym e) (append-Covered before rest id raw)) h.0,
      λ j. ap (final rest j) (lookup-insert text_discrete id j raw s.data_files) ∙ h.1 j,
    )

    Left-delete_file :
        (rest : List Change) (id : Text) (s : FileStore X S)
        → Left cs (removed id ∷ rest) tail s
        → Left cs rest tail (record s { data_files = delete text_discrete id s.data_files })
    Left-delete_file rest id s h = (
      IsLogged-delete_file setup cs tail id s h.0,
      λ j. ap (final rest j) (lookup-delete text_discrete id j s.data_files) ∙ h.1 j,
    )

    module _ {quiet : Bool} where
      -- One record of the log is applied.
      Ends-apply_wal_record :
          (before rest : List Change) (c : Change)
          → cs ≡ before ++ c ∷ rest
          → IsSound setup c
          → Meets quiet
              (Left cs (c ∷ rest) tail)
              (apply_wal_record setup (record_of c))
              (Ends quiet (λ _. Left cs rest tail) (Torn setup cs))
      unfolding apply_wal_record remove_file text_eq text_discrete
      Ends-apply_wal_record before rest (stored id raw) e sound =
          let d = sound.decoded id raw refl in
          rw (decoded_bytes raw d) (
            Ends-bind (λ _. Left cs rest tail) _ _
              (Ends-write_atomically setup (Replayed cs (stored id raw ∷ rest) tail)
                (Replayed cs rest tail) (Torn setup cs) (put_file id raw) (λ s h. (tail, h.0))
                (λ s h. (tail, h.0)) (λ s h. Left-put_file before rest id raw s e d h))
              λ _.
                Ends-weaken _ _
                  (Leaves-bind (Leaves-answer_of setup (Replayed cs rest tail) raw d)
                    λ m. Leaves-modify (set_index id (setup.create_snapshot m)) (λ s h. h))
                  (λ a s h. h) (λ s h. (tail, h.0)))
      Ends-apply_wal_record before rest (removed id) e sound =
          Ends-bind (λ _. Left cs rest tail) _ _
            (Meets-write_call _ _ _ (Left-delete_file rest id) (λ s q h. (q, (tail, h.0)))
              (λ n s q h. (q, (tail, h.0))))
            λ _.
              Ends-weaken _ _ (Leaves-modify (drop_index id) (λ s h. h)) (λ a s h. h)
                (λ s h. (tail, h.0))

      -- The loop reads one change after another and stops at the tail.
      pub Ends-replay_from :
          SetupLaws setup
          → next_payload tail ≡ none
          → (fuel applied : ℕ) (before rest : List Change) → length rest ≤ fuel
          → cs ≡ before ++ rest
          → All (IsSound setup) rest
          → Meets quiet
              (Left cs rest tail)
              (replay_from setup fuel applied (log_of setup rest ++ tail))
              (Ends quiet (λ r s. (r.1 ≡ tail) × Left cs [] tail s) (Torn setup cs))
      unfolding next_record
      Ends-replay_from laws end fuel applied before [] enough e sound =
          let stop : next_record setup tail ≡ none = rw (end, next_record) refl in
          rw (replay_from_stop fuel applied tail stop) (Meets-pure _ _ (λ s h. (refl, h)))
      Ends-replay_from laws end zero applied before (c ∷ rest) enough e sound = absurd (omega arith)
      Ends-replay_from laws end (suc fuel) applied before (c ∷ rest) enough e sound =
          let first : next_record setup (log_of setup (c ∷ rest) ++ tail)
              ≡ some (record_of c, log_of setup rest ++ tail) =
            rw (append_assoc (bytes_of setup c) (log_of setup rest) tail)
              (next_record-bytes_of setup laws c (log_of setup rest ++ tail) sound.0) in
          rw (replay_from_step fuel applied _ _ (record_of c) first) (
            Ends-bind (λ _. Left cs rest tail) _ _ (Ends-apply_wal_record before rest c e sound.0)
              λ _.
                Ends-replay_from laws end fuel (suc applied) (before ++ c ∷ []) rest (omega arith)
                  (e ∙ sym (append_assoc before (c ∷ []) rest)) sound.1)

      -- Only the changes are left of the log.
      pub Ends-truncate_wal :
          Meets quiet
            (Left cs [] tail)
            (truncate_wal setup (length (log_of setup cs)))
            (Ends quiet (λ _. Left cs [] []) (Torn setup cs))
      unfolding truncate_wal next_payload append_bytes
      Ends-truncate_wal =
          Ends-bind (λ _. Left cs [] tail) _ _
            (Ends-weaken _ _ Ends-call (λ a s h. h) (λ s h. (tail, h.0)))
            λ _.
              Ends-bind (λ _. Left cs [] tail) _ _
                (Meets-modify _ _ (λ s h. (IsLogged-append_nil setup cs tail s h.0, h.1)))
                λ _.
                  Ends-bind (λ _. Left cs [] []) _ _
                    (Meets-write_call _ _ _ cut (λ s q h. (q, (tail, h.0)))
                      (λ n s q h. (q, (tail, h.0))))
                    λ _.
                      Ends-weaken _ _ (Leaves-sync_wal setup (Replayed cs [] [])) (λ a s h. h)
                        (λ s h. ([], h.0))
        where
          cut :
              (s : FileStore X S)
              → Left cs [] tail s
              → Left cs [] [] (record s {
                wal_file = some (take (length (log_of setup cs)) (contents s.wal_file));
              })
          cut s h = (
            record {
              wal_on = h.0.wal_on;
              repair_on = h.0.repair_on;
              log_is =
                  ap (take (length (log_of setup cs))) h.0.log_is
                  ∙ take-append (log_of setup cs) tail
                  ∙ sym (append-nil (log_of setup cs));
              tail_unread = refl;
              sound = h.0.sound;
              files_ok = h.0.files_ok;
              pending_ok = h.0.pending_ok;
            },
            h.1,
          )
