-- ===== src/Persistence/Store/Recovery.antt =====
-- Recovery of a store (pkg/persistence/store.go): whatever fails and wherever the process is killed, the next start finds the
-- changes that the log accounts for.
use mathlib.Core.List.{append_assoc, append-nil}
use qubicdb.Prelude.{
  ◌≡◌, refl, sym, ap, ◌∙◌, subst, inl, inr, true, false, List, [], ◌∷◌, ◌++◌, text_discrete, All,
  Option-cases,
}
use qubicdb.Prelude.Assoc.{lookup, AllEntries-lookup}
use qubicdb.Persistence.Io.{Answer, done, failed, crashed, World}
use qubicdb.Persistence.Io.Rules.{Clean, Meets, Ends, Stays, Meets-weaken, Meets-modify}
use qubicdb.Persistence.Store.{Setup, FileStore, DurabilityConfig}
use qubicdb.Persistence.Store.Opening.{new_store_with_durability}
use qubicdb.Persistence.Store.Log.{Change, IsStorable, SetupLaws, Logged, Torn}
use qubicdb.Persistence.Store.Appending.{Wrote}
use qubicdb.Persistence.Store.Flushing.{IsLogged-set_pending, Stays-flush_all}
use qubicdb.Persistence.Store.Recording.{Wrote-save_async, Wrote-save_matrix, Wrote-delete_matrix}
use qubicdb.Persistence.Store.Starting.{Settled, Ends-new_store}
use qubicdb.Persistence.Store.Writing.{Holds}
use qubicdb.Persistence.Store.Sessions.{
  Request, saving, saving_async, changing, flushing, deleting, Session, change_pending, serve,
  Served, go_on, if_started, run_requests, run_session, run_sessions, changes, Logs, Accounts,
  IsServable,
}

module _ {X S : Type 0} (setup : Setup X S) (laws : SetupLaws setup) where
  IsLogged-change_pending :
      (cs : List Change) (m : X) (s : FileStore X S)
      → IsStorable setup m
      → Logged setup cs [] s
      → Logged setup cs [] (change_pending setup m s)
  unfolding change_pending
  IsLogged-change_pending cs m s st h =
      elim (Option-cases (lookup text_discrete (setup.codec.index_id m) s.pending_writes)) [
        | inl e ↦ rw (e, change_pending) h
        | inr (old, e) ↦
            rw (e, change_pending)
              (IsLogged-set_pending setup cs (setup.codec.index_id m) m s
                (
                  st,
                  (AllEntries-lookup text_discrete _ s.pending_writes (setup.codec.index_id m) old
                      h.pending_ok e).1,
                )
                h)
      ]

  -- nothing was to be written
  Wrote-nothing :
      (cs : List Change) (r : Answer (Unit {0})) (s : FileStore X S)
      → Stays false (Logged setup cs []) r s
      → Wrote setup cs [] r s
  Wrote-nothing cs (done a) s h = rw (append-nil cs) h
  Wrote-nothing cs (failed e) s h = inl h
  Wrote-nothing cs crashed s h = inl ([], h.1)

  Wrote-serve :
      (cs : List Change) (q : Request X)
      → IsServable setup q
      → Meets false (Logged setup cs []) (serve setup q) (Wrote setup cs (changes setup q))
  unfolding serve
  Wrote-serve cs (saving m) ok' = Wrote-save_matrix setup laws cs m ok'
  Wrote-serve cs (saving_async m) ok' = Wrote-save_async setup laws cs m ok'
  Wrote-serve cs (changing m) ok' =
      Meets-weaken (Logged setup cs []) _
        (Meets-modify _ (Stays false (Logged setup cs []))
          (λ s h. IsLogged-change_pending cs m s ok' h))
        (λ s h. h) (Wrote-nothing cs)
  Wrote-serve cs flushing ok' =
      Meets-weaken (Logged setup cs []) _ (Stays-flush_all setup laws cs) (λ s h. h)
        (Wrote-nothing cs)
  Wrote-serve cs (deleting id) ok' = Wrote-delete_matrix setup laws cs id ok'

  Accounts-append :
      (out out' : Served setup) (cs cs' : List Change)
      → Accounts setup out cs
      → Accounts setup out' cs'
      → Accounts setup (out ++ out') (cs ++ cs')
  Accounts-append [] out' cs cs' e h = rw e h
  Accounts-append ((q, r) ∷ out) out' cs cs' (c, rest, e, l, a) h = (
    c,
    rest ++ cs',
    ap (◌++ cs') e ∙ append_assoc c rest cs',
    l,
    Accounts-append out out' rest cs' a h,
  )

  -- what is known of a state after some requests
  abbrev pub Accounted : List Change → Served setup → FileStore X S → Type 0
  Accounted cs out s = (new : List Change) × Accounts setup out new × Torn setup (cs ++ new) s

  Accounted-run_requests :
      (cs : List Change) (qs : List (Request X)) (w : World (FileStore X S))
      → All (IsServable setup) qs
      → Clean w.faults
      → Logged setup cs [] w.state
      → Accounted cs (run_requests setup qs w).0 (run_requests setup qs w).1.state
  unfolding run_requests
  Accounted-run_requests cs [] w ok' clean h = ([], refl, ([], rw (append-nil cs) h))
  Accounted-run_requests cs (q ∷ qs) w ok' clean h =
      go (serve setup q w) (λ cs' w' clean' h'. Accounted-run_requests cs' qs w' ok'.1 clean' h')
        ((Wrote-serve cs q ok'.0).at w clean h)
    where
      from_here :
          ((cs' : List Change) (v : World (FileStore X S))
            → Clean v.faults
            → Logged setup cs' [] v.state
            → Accounted cs' (run_requests setup qs v).0 (run_requests setup qs v).1.state)
          → (r : Answer (Unit {0})) (w' : World (FileStore X S)) (new : List Change)
          → Logs setup q r new
          → Clean w'.faults
          → Logged setup (cs ++ new) [] w'.state
          → (l : List Change) × Accounts setup ((q, r) ∷ (run_requests setup qs w').0) l
            × Torn setup (cs ++ l) (run_requests setup qs w').1.state
      from_here later r w' new l clean' h' =
          let (more, a, t) = later (cs ++ new) w' clean' h' in
          (
            new ++ more,
            (new, more, refl, l, a),
            subst (λ c. Torn setup c (run_requests setup qs w').1.state) (append_assoc cs new more)
                t,
          )

      go :
          (a : Answer (Unit {0}) × World (FileStore X S))
          → ((cs' : List Change) (v : World (FileStore X S))
              → Clean v.faults
              → Logged setup cs' [] v.state
              → Accounted cs' (run_requests setup qs v).0 (run_requests setup qs v).1.state)
          → Clean a.1.faults × Wrote setup cs (changes setup q) a.0 a.1.state
          → Accounted cs
              (go_on setup q a.0 a.1 (run_requests setup qs a.1)).0
              (go_on setup q a.0 a.1 (run_requests setup qs a.1)).1.state
      go (done a, w') later k = from_here later (done a) w' (changes setup q) refl k.0 k.1
      go (failed e, w') later (clean', inl same) =
          from_here later (failed e) w' [] (inr refl) clean' (rw (append-nil cs) same)
      go (failed e, w') later (clean', inr new) =
          from_here later (failed e) w' (changes setup q) (inl refl) clean' new
      go (crashed, w') later (clean', inl t) =
          ([], ([], [], refl, inr refl, refl), rw (append-nil cs) t)
      go (crashed, w') later (clean', inr t) = (
        changes setup q,
        (changes setup q, [], sym (append-nil (changes setup q)), inl refl, refl),
        t,
      )

  -- Sessions that the theorems are about: no write fails after a part of it, and all sizes are within the formats.
  abbrev pub IsOrderly : Session X → Type 0
  IsOrderly x = Clean x.faults × All (IsServable setup) x.requests

  module _ (c : DurabilityConfig) (on : c.wal_enabled ≡ true)
      (repair : c.startup_repair ≡ true) where
    Accounted-run_session :
        (cs : List Change) (x : Session X) (s : FileStore X S)
        → IsOrderly x
        → Torn setup cs s
        → Accounted cs (run_session setup c x s).0 (run_session setup c x s).1
    unfolding run_session
    Accounted-run_session cs x s (clean, ok') h =
        go (new_store_with_durability setup c (record { faults = x.faults; state = s })) (
          (Ends-new_store setup laws {quiet = false} cs c on repair).at
            (record { faults = x.faults; state = s }) clean h)
      where
        go :
            (a : Answer (Unit {0}) × World (FileStore X S))
            → Clean a.1.faults
              × Ends false (λ _. Holds (Settled setup false cs)) (Torn setup cs) a.0 a.1.state
            → Accounted cs
                (if_started setup a.0 a.1 (run_requests setup x.requests a.1)).0
                (if_started setup a.0 a.1 (run_requests setup x.requests a.1)).1
        go (done u, w) k = Accounted-run_requests cs x.requests w ok' k.0 k.1.0
        go (failed e, w) k = ([], refl, rw (append-nil cs) k.1.1)
        go (crashed, w) k = ([], refl, rw (append-nil cs) k.1.1)

    pub Accounted-run_sessions :
        (cs : List Change) (xs : List (Session X)) (s : FileStore X S)
        → All IsOrderly xs
        → Torn setup cs s
        → Accounted cs (run_sessions setup c xs s).0 (run_sessions setup c xs s).1
    unfolding run_sessions
    Accounted-run_sessions cs [] s ok' h = ([], refl, rw (append-nil cs) h)
    Accounted-run_sessions cs (x ∷ xs) s ok' h =
        let (new, a, t) = Accounted-run_session cs x s ok'.0 h in
        let (more, b, u) =
          Accounted-run_sessions (cs ++ new) xs (run_session setup c x s).1 ok'.1 t in
        (
          new ++ more,
          Accounts-append (run_session setup c x s).0
              (run_sessions setup c xs (run_session setup c x s).1).0 new more a b,
          subst (λ l. Torn setup l (run_sessions setup c xs (run_session setup c x s).1).1)
              (append_assoc cs new more) u,
        )
