-- ===== src/Persistence/Store/Reopening.antt =====
-- What a store answers that is started again (pkg/persistence/store.go).
use qubicdb.Prelude.{
  ◌≡◌, ◌≢◌, refl, ap, ◌∙◌, subst, ◌⊎◌, inl, inr, true, Option, none, some, List, [], ◌∷◌, ◌++◌,
  Text, text_discrete, All, arith, Option-cases,
}
use qubicdb.Prelude.Assoc.{lookup}
use qubicdb.Persistence.Codec.{encode}
use qubicdb.Persistence.Io.{
  Answer, done, failed, crashed, World, ◌>>=◌, ◌>>◌, continue, call, gets, modify, pure, raise,
  crash, or_raise, on_error,
}
use qubicdb.Persistence.Io.Rules.{Ends}
use qubicdb.Persistence.Wal.{next_payload}
use qubicdb.Persistence.Store.Recording.{changes_of}
use qubicdb.Persistence.Store.{Setup, FileStore, DurabilityConfig, no_files}
use qubicdb.Persistence.Store.Index.{answer_of, read_whole, is_not_exist}
use qubicdb.Persistence.Store.Calls.{load_matrix}
use qubicdb.Persistence.Store.Opening.{new_store_with_durability}
use qubicdb.Persistence.Store.Log.{
  Change, final, final-append, IsStorable, decode_stored, SetupLaws, Torn,
}
use qubicdb.Persistence.Store.Starting.{Settled, Ends-new_store}
use qubicdb.Persistence.Store.Writing.{Holds}
use qubicdb.Persistence.Store.Sessions.{
  Request, saving, saving_async, changing, flushing, deleting, Session, Served, run_sessions,
  changes, Logs, Accounts, read_back, answer_of_file, answer_after, Avoids,
}
use qubicdb.Persistence.Store.Recovery.{IsOrderly, Accounted-run_sessions}

module _ {X S : Type 0} (setup : Setup X S) where
  load_matrix_found :
      (id : Text) (s : FileStore X S)
      → (load_matrix setup id (record { faults = []; state = s })).0
        ≡ answer_of_file setup (lookup text_discrete id s.data_files)
  unfolding load_matrix read_whole on_error ◌>>=◌ call gets or_raise pure raise crash answer_of
      is_not_exist modify
  load_matrix_found id s = elim (Option-cases (lookup text_discrete id s.data_files)) [
    | inl e ↦ ground (arith, e)
    | inr (raw, e) ↦ ground (arith, e)
  ]

  -- the answer of Load to `id` at a store that is started over these files
  abbrev pub load_after : DurabilityConfig → FileStore X S → Text → Answer X
  load_after c s id =
      ((new_store_with_durability setup c >> load_matrix setup id)
        (record { faults = []; state = s })).0

  module _ (laws : SetupLaws setup) (c : DurabilityConfig) (on : c.wal_enabled ≡ true)
      (repair : c.startup_repair ≡ true) where
    load_after-Torn :
        (cs : List Change) (s : FileStore X S) (id : Text)
        → Torn setup cs s
        → load_after c s id ≡ answer_after setup cs id
    unfolding ◌>>=◌
    load_after-Torn cs s id h =
        go (new_store_with_durability setup c (record { faults = []; state = s })) (
          (Ends-new_store setup laws {quiet = true} cs c on repair).at
            (record { faults = []; state = s }) refl h)
      where
        go :
            (a : Answer (Unit {0}) × World (FileStore X S))
            → (a.1.faults ≡ [])
              × Ends true (λ _. Holds (Settled setup true cs)) (Torn setup cs) a.0 a.1.state
            → (continue a.0 (λ _. load_matrix setup id) a.1).0 ≡ answer_after setup cs id
        go (done u, w) k =
            ap (λ fs. (load_matrix setup id (record { faults = fs; state = w.state })).0) k.0
            ∙ load_matrix_found id w.state
            ∙ ap (answer_of_file setup) (k.1.1 refl id)
        go (failed e, w) k = absurd (ground (arith, k.1.0))
        go (crashed, w) k = absurd (ground (arith, k.1.0))

    no_files-Torn : Torn setup [] no_files
    unfolding next_payload
    no_files-Torn = (
      [],
      record {
        wal_on = refl;
        repair_on = refl;
        log_is = refl;
        tail_unread = refl;
        sound = tt;
        files_ok = tt;
        pending_ok = tt;
      },
    )

    -- After any such life there is a list of changes, one for each save and deletion that was done
    -- and one or none for each that failed or was cut off, in their order, so that at the next
    -- start Load answers for every index what the last of its changes says: its contents, or that
    -- there is no matrix. The conditions are the same.
    pub run_sessions-load_after :
        (xs : List (Session X))
        → All (IsOrderly setup laws) xs
        → (cs : List Change) × Accounts setup (run_sessions setup c xs no_files).0 cs
          × ((id : Text)
              → load_after c (run_sessions setup c xs no_files).1 id ≡ answer_after setup cs id)
    run_sessions-load_after xs orderly =
        let (cs, a, t) =
          Accounted-run_sessions setup laws c on repair [] xs no_files orderly no_files-Torn in
        (cs, a, λ id. load_after-Torn cs (run_sessions setup c xs no_files).1 id t)

  changes_of_avoid :
      (m : X) (id : Text) (v : Option Text)
      → setup.codec.index_id m ≢ id
      → final (changes_of setup m) id v ≡ v
  changes_of_avoid m id v h = elim (Option-cases (encode setup.codec setup.compress m)) [
    | inl e ↦ rw (e, changes_of) refl
    | inr (raw, e) ↦ rw (e, changes_of) (ground (arith, h))
  ]

  changes_avoid :
      (q : Request X) (id : Text) (v : Option Text)
      → Avoids setup id q
      → final (changes setup q) id v ≡ v
  changes_avoid (saving m) id v h = changes_of_avoid m id v h
  changes_avoid (saving_async m) id v h = changes_of_avoid m id v h
  changes_avoid (changing m) id v h = refl
  changes_avoid flushing id v h = refl
  changes_avoid (deleting j) id v h = ground (arith, h)

  -- what is logged for requests that are not about `id`
  final-Avoids :
      (out : Served setup) (cs : List Change) (id : Text) (v : Option Text)
      → Accounts setup out cs
      → All (λ o. Avoids setup id o.0) out
      → final cs id v ≡ v
  final-Avoids [] cs id v e h = rw e refl
  final-Avoids ((q, r) ∷ out) cs id v (c, rest, e, l, a) h =
      ap (λ l. final l id v) e
      ∙ final-append c rest id v
      ∙ ap (final rest id) (one q c v (Logs-cases q r c l) h.0)
      ∙ final-Avoids out rest id v a h.1
    where
      Logs-cases :
          (q : Request X) (r : Answer (Unit {0})) (c : List Change)
          → Logs setup q r c
          → (c ≡ changes setup q) ⊎ (c ≡ [])
      Logs-cases q (done a) c l = inl l
      Logs-cases q (failed e) c l = l
      Logs-cases q crashed c l = l

      one :
          (q : Request X) (c : List Change) (v : Option Text)
          → (c ≡ changes setup q) ⊎ (c ≡ [])
          → Avoids setup id q
          → final c id v ≡ v
      one q c v (inr e) h = rw e refl
      one q c v (inl e) h = rw e (changes_avoid q id v h)

  Accounts-final :
      (before after : Served setup) (q : Request X) (cs : List Change) (id : Text) (v : Option Text)
      → Accounts setup (before ++ (q, done tt) ∷ after) cs
      → All (λ o. Avoids setup id o.0) after
      → (w : Option Text) × (final cs id v ≡ final (changes setup q) id w)
  Accounts-final [] after q cs id v (c, rest, e, l, a) h = (
    v,
    (ap (λ l. final l id v) e
        ∙ final-append c rest id v
        ∙ final-Avoids after rest id (final c id v) a h
        ∙ ap (λ l. final l id v) l),
  )
  Accounts-final (o ∷ before) after q cs id v (c, rest, e, l, a) h =
      let (w, k) = Accounts-final before after q rest id (final c id v) a h in
      (w, ap (λ l. final l id v) e ∙ final-append c rest id v ∙ k)

  -- the file of the matrix of a save
  final-changes_of :
      (m : X) (raw : Text) (w : Option Text)
      → encode setup.codec setup.compress m ≡ some raw
      → final (changes_of setup m) (setup.codec.index_id m) w ≡ some raw
  final-changes_of m raw w e = rw (e, changes_of) (ground arith)

  module _ (laws : SetupLaws setup) (c : DurabilityConfig) (on : c.wal_enabled ≡ true)
      (repair : c.startup_repair ≡ true) where
    -- Through any life of a store, over any number of processes that each start it, serve saves,
    -- asynchronous saves, deletions and flushes and are killed at any call of the file system, also
    -- during the start, a matrix whose Save or SaveAsync was done is what Load answers at the next
    -- start, if no request behind it saves or deletes the same index; a worker may change a matrix
    -- while it is pending. The log and the repair at the start are switched on, a write that fails
    -- leaves no part of itself (one that is cut off by a crash may), the start that is asked has no
    -- fault, sizes are within the formats, and msgpack, gzip and the index encoding behave as
    -- documented.
    pub run_sessions_saved :
        (xs : List (Session X)) (before after : Served setup) (q : Request X) (m : X) (raw : Text)
        → All (IsOrderly setup laws) xs
        → (run_sessions setup c xs no_files).0 ≡ before ++ (q, done tt) ∷ after
        → (q ≡ saving m) ⊎ (q ≡ saving_async m)
        → All (λ o. Avoids setup (setup.codec.index_id m) o.0) after
        → IsStorable setup m
        → encode setup.codec setup.compress m ≡ some raw
        → load_after c (run_sessions setup c xs no_files).1 (setup.codec.index_id m) ≡ done m
    run_sessions_saved xs before after q m raw orderly out asked avoided st e =
        let (cs, a, load) = run_sessions-load_after laws c on repair xs orderly in
        let id = setup.codec.index_id m in
        let (w, last) =
          Accounts-final before after q cs id none (subst (λ o. Accounts setup o cs) out a)
            avoided in
        let same : changes setup q ≡ changes_of setup m = elim asked [
          | inl s ↦ ap (changes setup) s
          | inr s ↦ ap (changes setup) s
        ] in
        let file : final cs id none ≡ some raw =
          last ∙ ap (λ l. final l id w) same ∙ final-changes_of m raw w e in
        load id
        ∙ ap (answer_of_file setup) file
        ∙ ap (read_back setup) (decode_stored setup laws m raw st e)
