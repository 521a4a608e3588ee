-- ===== src/Persistence/Store/Starting.antt =====
-- The start of a store (pkg/persistence/store.go) over the files of an earlier one: without a fault it is done and every file is
-- what the log says, and with faults nothing of the log is lost.
use qubicdb.Prelude.{
  ◌-◌, ◌≤◌, ◌≡◌, refl, sym, ap, subst, Bool, true, false, Option, none, some, List, [], ◌∷◌, ◌++◌,
  Text, text_discrete, length, length-append, All, ltb, arith,
}
use qubicdb.Prelude.Assoc.{lookup, delete, AllEntries}
use qubicdb.Persistence.Wal.{next_payload}
use qubicdb.Persistence.Io.{Io, ◌>>=◌, call, when}
use qubicdb.Persistence.Io.Rules.{
  Meets, Ends, Ends-bind, Ends-call, Meets-gets, Meets-fact, Meets-pure, Meets-exists,
}
use qubicdb.Persistence.Io.Steady.{
  Leaves, Leaves-gets, Leaves-pure, Leaves-modify, Leaves-when, Leaves-bind, Ends-weaken,
}
use qubicdb.Persistence.Store.{Setup, FileStore}
use qubicdb.Persistence.Store.Files.{contents, truncate_wal}
use qubicdb.Persistence.Store.Opening.{replay_log, replay_wal}
use qubicdb.Persistence.Store.Log.{
  Change, final, IsDecoded, bytes_of, log_of, SetupLaws, IsSound, length-bytes_of, IsLogged, Logged,
  Torn,
}
use qubicdb.Persistence.Store.Flushing.{IsLogged-delete_file}
use qubicdb.Persistence.Store.Writing.{Holds, View}
use qubicdb.Persistence.Store.{DurabilityConfig, normalized}
use qubicdb.Persistence.Store.Opening.{fresh, new_store_with_durability}
use qubicdb.Persistence.Store.Writing.{Leaves-save_index}
use qubicdb.Persistence.Store.Reading.{Leaves-load_or_repair, Leaves-validate_data_files}
use qubicdb.Persistence.Store.Replaying.{Left, Logged-Left, Ends-replay_from, Ends-truncate_wal}
use qubicdb.Prelude.Assoc.{AllEntries-imp}

module _ {X S : Type 0} (setup : Setup X S) where
  length-log_of : (cs : List Change) → All (IsSound setup) cs → length cs ≤ length (log_of setup cs)
  length-log_of [] h = omega arith
  length-log_of (c ∷ cs) h = omega (
    arith,
    length-append (bytes_of setup c) (log_of setup cs),
    length-bytes_of setup c h.0,
    length-log_of cs h.1,
  )

  -- a log without bytes
  no_log :
      (cs : List Change) (tail : Text)
      → All (IsSound setup) cs
      → [] ≡ log_of setup cs ++ tail
      → (cs ≡ []) × (tail ≡ [])
  no_log [] tail h e = (refl, sym e)
  no_log (c ∷ cs) tail h e = absurd (
      omega (
        arith,
        ap length e,
        length-append (bytes_of setup c ++ log_of setup cs) tail,
        length-append (bytes_of setup c) (log_of setup cs),
        length-bytes_of setup c h.0,
      ))

  -- A tail is cut off, if there is one.
  Ends-when-truncate_wal :
      {quiet : Bool} (cs : List Change) (tail : Text)
      → Meets quiet
          (Left setup cs [] tail)
          (when
            (ltb 0 (length tail))
            (truncate_wal setup (length (log_of setup cs ++ tail) - length tail)))
          (Ends quiet (λ u. Left setup cs [] []) (Torn setup cs))
  unfolding when
  Ends-when-truncate_wal cs [] = Meets-pure _ _ (λ s h. h)
  Ends-when-truncate_wal cs (b ∷ tail) =
      let size : length (log_of setup cs ++ b ∷ tail) - length (b ∷ tail)
          ≡ length (log_of setup cs) =
        omega (arith, length-append (log_of setup cs) (b ∷ tail)) in
      let more : ltb 0 (length (b ∷ tail)) ≡ true = ground arith in
      rw size (rw more (Ends-truncate_wal setup cs (b ∷ tail)))

  -- in a quiet world, every file is what the log says
  abbrev pub Settled : Bool → List Change → View X
  Settled quiet cs d w files p =
      IsLogged setup cs [] d w files p
      × (quiet ≡ true → (id : Text) → lookup text_discrete id files ≡ final cs id none)

  Settled_deletes :
      {quiet : Bool} (cs : List Change)
      → quiet ≡ false
      → (id : Text) (s : FileStore X S) → Holds (Settled quiet cs) s
      → Holds (Settled quiet cs) (record s { data_files = delete text_discrete id s.data_files })
  Settled_deletes cs q id s h =
      (IsLogged-delete_file setup cs [] id s h.0, λ t. absurd (ground arith))

  decodes :
      {cs : List Change} {t : Text} (s : FileStore X S)
      → Logged setup cs t s
      → AllEntries (λ id. IsDecoded setup) s.data_files
  decodes s h = AllEntries-imp _ _ _ (λ id raw k. k.0) h.files_ok

  IsLogged-fresh :
      (cs : List Change) (tail : Text) (c : DurabilityConfig)
      → c.wal_enabled ≡ true
      → c.startup_repair ≡ true
      → (s : FileStore X S) → Logged setup cs tail s
      → Logged setup cs tail (fresh setup (normalized setup c) s)
  unfolding fresh normalized
  IsLogged-fresh cs tail c on repair s h = record {
    wal_on = on;
    repair_on = repair;
    log_is = h.log_is;
    tail_unread = h.tail_unread;
    sound = h.sound;
    files_ok = h.files_ok;
    pending_ok = tt;
  }

  module _ (laws : SetupLaws setup) {quiet : Bool} (cs : List Change) (tail : Text) where
    Ends-replay_log :
        (log : Option Text)
        → (contents log ≡ log_of setup cs ++ tail)
          × (next_payload tail ≡ none)
          × All (IsSound setup) cs
        → Meets quiet
            (Left setup cs cs tail)
            (replay_log setup log)
            (Ends quiet (λ n. Left setup cs [] []) (Torn setup cs))
    unfolding replay_log
    Ends-replay_log none (e, end, sound) =
        let (no_changes, no_tail) = no_log cs tail sound e in
        Meets-pure _ _ (λ s h.
          subst (λ t. Left setup cs [] t s) no_tail
            (subst (λ l. Left setup cs l tail s) no_changes h))
    Ends-replay_log (some log) (e, end, sound) = rw e (
        Ends-bind (λ r s. (r.1 ≡ tail) × Left setup cs [] tail s) _ _
          (Ends-replay_from setup cs tail laws end (length (log_of setup cs ++ tail)) 0 [] cs
            (omega (arith, length-append (log_of setup cs) tail, length-log_of cs sound)) refl
            sound)
          λ r. Meets-fact _ _ λ same.
            Ends-bind (λ u. Left setup cs [] []) _ _ (rw same (Ends-when-truncate_wal cs tail))
              λ _. Meets-pure _ _ (λ s h. h))

    pub Ends-replay_wal :
        Meets quiet
          (Logged setup cs tail)
          (replay_wal setup)
          (Ends quiet (λ n. Left setup cs [] []) (Torn setup cs))
    unfolding replay_wal
    Ends-replay_wal =
        Ends-bind (λ b s. (b ≡ true) × Logged setup cs tail s) _ _
          (Meets-gets _ _ (λ s h. (h.wal_on, h)))
          λ b. Meets-fact _ _ λ on. rw on (
            Ends-bind (λ u. Logged setup cs tail) _ _
              (Ends-weaken _ _ Ends-call (λ a s h. h) (λ s h. (tail, h)))
              λ _.
                Ends-bind
                  (λ log s.
                    ((contents log ≡ log_of setup cs ++ tail)
                      × (next_payload tail ≡ none)
                      × All (IsSound setup) cs)
                    × Left setup cs cs tail s)
                  _ _
                  (Meets-gets _ _
                    (λ s h. ((h.log_is, h.tail_unread, h.sound), Logged-Left setup cs tail s h)))
                  λ log. Meets-fact _ _ (Ends-replay_log log))

    Ends-Leaves :
        {A : Type 0} {m : Io (FileStore X S) A}
        → Leaves quiet (Logged setup cs tail) m
        → Meets quiet
            (Logged setup cs tail)
            m
            (Ends quiet (λ _. Logged setup cs tail) (Torn setup cs))
    Ends-Leaves h = Ends-weaken _ _ h (λ a s x. x) (λ s x. (tail, x))

    Ends-Settled :
        {A : Type 0} {m : Io (FileStore X S) A}
        → Leaves quiet (Holds (Settled quiet cs)) m
        → Meets quiet
            (Holds (Settled quiet cs))
            m
            (Ends quiet (λ _. Holds (Settled quiet cs)) (Torn setup cs))
    Ends-Settled h = Ends-weaken _ _ h (λ a s x. x) (λ s x. ([], x.0))

    Ends-call-bind :
        {k : Unit → Io (FileStore X S) Unit}
        → ((a : Unit)
            → Meets quiet
                (Logged setup cs tail)
                (k a)
                (Ends quiet (λ _. Holds (Settled quiet cs)) (Torn setup cs)))
        → Meets quiet
            (Logged setup cs tail)
            (call >>= k)
            (Ends quiet (λ _. Holds (Settled quiet cs)) (Torn setup cs))
    Ends-call-bind h = Ends-bind (λ _. Logged setup cs tail) _ _ (Ends-Leaves Ends-call) h

    Ends-new_store_tail :
        (c : DurabilityConfig)
        → c.wal_enabled ≡ true
        → c.startup_repair ≡ true
        → Meets quiet
            (Logged setup cs tail)
            (new_store_with_durability setup c)
            (Ends quiet (λ _. Holds (Settled quiet cs)) (Torn setup cs))
    unfolding new_store_with_durability
    Ends-new_store_tail c on repair =
        let first = IsLogged setup cs tail in
        Ends-call-bind λ _. Ends-call-bind λ _. Ends-call-bind λ _. Ends-call-bind λ _.
          Ends-bind (λ _. Logged setup cs tail) _ _
            (Ends-Leaves (Leaves-modify _ (IsLogged-fresh cs tail c on repair)))
            λ _.
              Ends-bind (λ _. Logged setup cs tail) _ _
                (Ends-Leaves (Leaves-load_or_repair setup first decodes laws (λ s h. h.repair_on)))
                λ _.
                  Ends-bind (λ _. Holds (Settled quiet cs)) _ _
                    (Ends-weaken _ _ Ends-replay_wal (λ n s h. (h.0, λ q. h.1)) (λ s h. h))
                    λ n.
                      Ends-bind (λ _. Holds (Settled quiet cs)) _ _
                        (Ends-Settled (
                          Leaves-when (ltb 0 n) _
                            (Leaves-save_index setup laws (Settled quiet cs))))
                        λ _.
                          Ends-bind (λ _. Holds (Settled quiet cs)) _ _
                            (Ends-Settled (Leaves-gets _))
                            λ r. Ends-Settled (
                              Leaves-when r _ (
                                Leaves-bind
                                  (Leaves-validate_data_files setup (Settled quiet cs)
                                    (λ s h. decodes s h.0) laws (Settled_deletes cs) true)
                                  λ _. Leaves-pure tt))

  -- the start after a crash
  pub Ends-new_store :
      SetupLaws setup
      → {quiet : Bool} (cs : List Change) (c : DurabilityConfig) → c.wal_enabled ≡ true
      → c.startup_repair ≡ true
      → Meets quiet
          (Torn setup cs)
          (new_store_with_durability setup c)
          (Ends quiet (λ _. Holds (Settled quiet cs)) (Torn setup cs))
  Ends-new_store laws cs c on repair =
      Meets-exists _ λ tail. Ends-new_store_tail laws cs tail c on repair
