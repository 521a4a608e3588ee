-- ===== src/Persistence/Store/Ending.antt =====
-- The loop of the replay ends (pkg/persistence/store.go): each round takes at least eight bytes from the log.
use qubicdb.Prelude.{
  ℕ, zero, suc, ◌+◌, ◌≤◌, ◌<◌, ◌≡◌, sym, ap, ◌∙◌, some, Text, length, length-drop, take, arith,
  Option-cases, inl, inr,
}
use qubicdb.Persistence.Io.{◌>>◌}
use qubicdb.Persistence.Words.{get_le}
use qubicdb.Persistence.Wal.{WalRecord, next_payload}
use qubicdb.Persistence.Store.{Setup}
use qubicdb.Persistence.Store.Opening.{apply_wal_record, next_record, replay_from}
use qubicdb.Persistence.Store.Replaying.{replay_from_stop, replay_from_step}

pub next_payload-lt :
    (rest p rest' : Text) → next_payload rest ≡ some (p, rest') → length rest' < length rest
unfolding next_payload
next_payload-lt rest p rest' e = ground (arith, length-drop (8 + get_le (take 4 rest)) rest)

module _ {X S : Type 0} (setup : Setup X S) where
  next_record-lt :
      (rest rest' : Text) (r : WalRecord)
      → next_record setup rest ≡ some (r, rest')
      → length rest' < length rest
  unfolding next_record
  next_record-lt rest rest' r e = elim (Option-cases (next_payload rest)) [
    | inl n ↦ absurd (ground (arith, n))
    | inr ((p, t), n) ↦ ground (arith, next_payload-lt rest p t n)
  ]

  -- The loop of the replay ends: with a round for each byte of the log it does the same as with any
  -- number of rounds more, whatever the log holds.
  pub replay_from_ends :
      (rest : Text) (fuel more applied : ℕ)
      → length rest ≤ fuel
      → replay_from setup (fuel + more) applied rest ≡ replay_from setup fuel applied rest
  replay_from_ends rest zero more applied enough = elim (Option-cases (next_record setup rest)) [
    | inl n ↦
        replay_from_stop setup (zero + more) applied rest n
        ∙ sym (replay_from_stop setup zero applied rest n)
    | inr ((r, rest'), n) ↦ absurd (omega (arith, next_record-lt rest rest' r n))
  ]
  replay_from_ends rest (suc fuel) more applied enough =
      elim (Option-cases (next_record setup rest)) [
        | inl n ↦
            replay_from_stop setup (suc fuel + more) applied rest n
            ∙ sym (replay_from_stop setup (suc fuel) applied rest n)
        | inr ((r, rest'), n) ↦
            let later : replay_from setup (fuel + more) (suc applied) rest'
                ≡ replay_from setup fuel (suc applied) rest' =
              replay_from_ends rest' fuel more (suc applied)
                (omega (arith, next_record-lt rest rest' r n)) in
            let size : suc fuel + more ≡ suc (fuel + more) = omega arith in
            ap (λ f. replay_from setup f applied rest) size
            ∙ replay_from_step setup (fuel + more) applied rest rest' r n
            ∙ ap (λ k. apply_wal_record setup r >> k) later
            ∙ sym (replay_from_step setup fuel applied rest rest' r n)
      ]
