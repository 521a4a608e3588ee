-- ===== src/Persistence/Store/Appending.antt =====
-- A record at the end of the log (pkg/persistence/store.go): what is left when it is written, and when it is not.
use mathlib.Core.List.{append-nil}
use qubicdb.Prelude.{
  ℕ, ◌^◌, ◌<◌, ◌≡◌, refl, sym, ap, ◌∙◌, subst, ◌⊎◌, inl, inr, Bool, true, some, List, [], ◌∷◌, ◌++◌,
  Text, length, take, take_all, All-append, arith, dec_lt,
}
use qubicdb.Prelude.Assoc.{AllEntries-imp}
use qubicdb.Persistence.Wal.{frame_payload}
use qubicdb.Persistence.Wal.Scan.{next_payload-take}
use qubicdb.Persistence.Io.{
  encode_failed, Answer, done, failed, crashed, ◌>>◌, modify, call, write_call,
}
use qubicdb.Persistence.Io.Rules.{
  Meets, Ends, Stays, Ends-call, Meets-write_call, Meets-weaken, Meets-modify, Meets-gets,
  Meets-bind, Meets-when-true, Meets-or_raise,
}
use qubicdb.Persistence.Io.Steady.{Leaves-Stays}
use qubicdb.Persistence.Store.{Setup, FileStore}
use qubicdb.Persistence.Store.Files.{contents, append_bytes, sync_wal, append_wal}
use qubicdb.Persistence.Store.Log.{
  Change, stored, record_of, Covered-append, IsDecoded, bytes_of, log_of, log_of-append, SetupLaws,
  IsSound, IsLogged, Logged, Torn,
}
use qubicdb.Persistence.Store.Writing.{Leaves-sync_wal}

module _ {X S : Type 0} (setup : Setup X S) where
  abbrev St : Type 0
  St = FileStore X S

  -- what an operation leaves that was to write `new`
  abbrev pub Wrote : {A : Type 0} → List Change → List Change → Answer A → St → Type 0
  Wrote cs new (done a) s = Logged setup (cs ++ new) [] s
  Wrote cs new (failed e) s = Logged setup cs [] s ⊎ Logged setup (cs ++ new) [] s
  Wrote cs new crashed s = Torn setup cs s ⊎ Torn setup (cs ++ new) s

  pub IsLogged-append_nil :
      (cs : List Change) (tail : Text) (s : St)
      → Logged setup cs tail s
      → Logged setup cs tail (append_bytes [] s)
  unfolding append_bytes
  IsLogged-append_nil cs tail s h = record {
    wal_on = h.wal_on;
    repair_on = h.repair_on;
    log_is = append-nil (contents s.wal_file) ∙ h.log_is;
    tail_unread = h.tail_unread;
    sound = h.sound;
    files_ok = h.files_ok;
    pending_ok = h.pending_ok;
  }

  module _ (c : Change) (sound : IsSound setup c) where
    -- the whole record
    IsLogged-append_bytes :
        (cs : List Change) (s : St)
        → Logged setup cs [] s
        → Logged setup (cs ++ c ∷ []) [] (append_bytes (frame_payload sound.payload) s)
    unfolding append_bytes
    IsLogged-append_bytes cs s h =
        let same : bytes_of setup c ≡ frame_payload sound.payload =
          rw (sound.payload_is, bytes_of) refl in
        record {
          wal_on = h.wal_on;
          repair_on = h.repair_on;
          log_is =
              ap (◌++ frame_payload sound.payload) (h.log_is ∙ append-nil (log_of setup cs))
              ∙ ap (log_of setup cs ++◌) (sym same ∙ sym (append-nil (bytes_of setup c)))
              ∙ sym (log_of-append setup cs (c ∷ []))
              ∙ sym (append-nil (log_of setup (cs ++ c ∷ [])));
          tail_unread = h.tail_unread;
          sound = All-append (IsSound setup) cs (c ∷ []) h.sound (sound, tt);
          files_ok =
              AllEntries-imp _ _ _ (λ id raw k. (k.0, Covered-append cs (c ∷ []) id k.1))
                h.files_ok;
          pending_ok =
              AllEntries-imp _ _ _ (λ id m k. (k.0, Covered-append cs (c ∷ []) id k.1))
                h.pending_ok;
        }

    -- a part of it
    Torn-append_bytes :
        (cs : List Change) (n : ℕ) (s : St)
        → Logged setup cs [] s
        → Torn setup cs (append_bytes (take n (frame_payload sound.payload)) s)
          ⊎ Torn setup (cs ++ c ∷ []) (append_bytes (take n (frame_payload sound.payload)) s)
    unfolding append_bytes
    Torn-append_bytes cs n s h = elim (dec_lt n (length (frame_payload sound.payload))) [
      | yes short ↦ inl (
        take n (frame_payload sound.payload),
        record {
          wal_on = h.wal_on;
          repair_on = h.repair_on;
          log_is =
              ap (◌++ take n (frame_payload sound.payload))
                (h.log_is ∙ append-nil (log_of setup cs));
          tail_unread = next_payload-take sound.payload n sound.payload_fits short;
          sound = h.sound;
          files_ok = h.files_ok;
          pending_ok = h.pending_ok;
        },
      )
      | no long ↦
          let whole : take n (frame_payload sound.payload) ≡ frame_payload sound.payload =
            take_all n (frame_payload sound.payload) (omega arith) in
          inr (
            [],
            subst (λ t. Logged setup (cs ++ c ∷ []) [] (append_bytes t s)) (sym whole)
                (IsLogged-append_bytes cs s h),
          )
    ]

  module _ (laws : SetupLaws setup) {quiet : Bool} where
    Meets-append_payload :
        (cs : List Change) (c : Change) (sound : IsSound setup c)
        → Meets quiet
            (Logged setup cs [])
            (call
              >> (modify (append_bytes [])
                  >> (write_call
                        (append_bytes (frame_payload sound.payload))
                        (λ n. append_bytes (take n (frame_payload sound.payload)))
                      >> sync_wal setup)))
            (Wrote cs (c ∷ []))
    Meets-append_payload cs c sound =
        Meets-bind _ _ (Leaves-Stays Ends-call) (λ e s h. inl h) (λ s h. inl ([], h.1))
          λ _.
            Meets-bind (Stays quiet (Logged setup cs [])) _
              (Meets-modify _ _ (IsLogged-append_nil cs [])) (λ e s h. inl h) (λ s h. inl ([], h.1))
              λ _.
                Meets-bind (Wrote cs (c ∷ [])) _
                  (Meets-write_call _ _ _ (IsLogged-append_bytes c sound cs)
                    (λ s q h. inl (IsLogged-append_nil cs [] s h))
                    (λ n s q h. Torn-append_bytes c sound cs n s h))
                  (λ e s h. h) (λ s h. h)
                  λ _.
                    Meets-weaken (Logged setup (cs ++ c ∷ []) []) _
                      (Leaves-sync_wal setup (IsLogged setup (cs ++ c ∷ []) [])) (λ s h. h)
                      (Ends-Wrote cs c)
      where
        Ends-Wrote :
            (cs : List Change) (c : Change) (r : Answer Unit) (s : St)
            → Ends quiet (λ _. Logged setup (cs ++ c ∷ []) []) (Logged setup (cs ++ c ∷ []) []) r s
            → Wrote cs (c ∷ []) r s
        Ends-Wrote cs c (done a) s h = h
        Ends-Wrote cs c (failed e) s h = inr h.1
        Ends-Wrote cs c crashed s h = inr ([], h.1)

    -- A record is written, or nothing that is read.
    pub Meets-append_wal :
        (cs : List Change) (c : Change)
        → ((p : Text) → setup.wal.marshal_record (record_of c) ≡ some p → length p < 2 ^ 32)
        → ((id raw : Text) → c ≡ stored id raw → IsDecoded setup raw)
        → Meets quiet (Logged setup cs []) (append_wal setup (record_of c)) (Wrote cs (c ∷ []))
    unfolding append_wal
    Meets-append_wal cs c fits decoded =
        Meets-bind (Ends quiet (λ b s. (b ≡ true) × Logged setup cs [] s) (Logged setup cs [])) _
          (Meets-gets (λ s. s.durability.wal_enabled) _ (λ s h. (h.wal_on, h))) (λ e s h. inl h.1)
          (λ s h. inl ([], h.1))
          λ b. Meets-when-true _ b (
            Meets-or_raise _ encode_failed (setup.wal.marshal_record (record_of c)) (λ e s h. inl h)
              λ p e. Meets-append_payload cs c (record {
                payload = p;
                payload_is = e;
                payload_bytes = laws.marshal_record_bytes (record_of c) p e;
                payload_fits = fits p e;
                decoded = decoded;
              }))
