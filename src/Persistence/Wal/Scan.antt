-- ===== src/Persistence/Wal/Scan.antt =====
-- What the log yields: a whole record is read back, and a record that was cut off is not
-- (pkg/persistence/store.go).
use mathlib.Core.List.{append_assoc}
use qubicdb.Prelude.{
  ℕ, ◌+◌, ◌-◌, ◌%◌, ◌^◌, ◌<◌, ◌≤◌, ◌≡◌, sym, ap, ◌∙◌, none, some, ◌++◌, Text, length, take, drop,
  take-append, drop-append, take_front, take-append_of_le, drop_front, length-take, length-append,
  arith, subst, dec_lt,
}
use qubicdb.Persistence.Words.{put_le, get_le, get_le-put_le, length-put_le}
use qubicdb.Persistence.Wal.{crc32, frame_payload, next_payload}

crc32-lt : (payload : Text) → crc32 payload < 256 ^ 4
unfolding crc32
crc32-lt payload = omega arith

pub length-frame_payload : (payload : Text) → length (frame_payload payload) ≡ 8 + length payload
unfolding frame_payload
length-frame_payload payload = ground (
  arith,
  length-append (put_le 4 (length payload % 2 ^ 32)) (payload ++ put_le 4 (crc32 payload)),
  length-append payload (put_le 4 (crc32 payload)),
  length-put_le 4 (length payload % 2 ^ 32),
  length-put_le 4 (crc32 payload),
)

-- the parts of a record in front of more
framed : Text → Text → Text
framed payload rest =
    put_le 4 (length payload % 2 ^ 32) ++ (payload ++ (put_le 4 (crc32 payload) ++ rest))

frame_payload-framed : (payload rest : Text) → frame_payload payload ++ rest ≡ framed payload rest
unfolding frame_payload framed
frame_payload-framed payload rest = simp append_assoc

module _ (payload rest : Text) (small : length payload < 2 ^ 32) where
  read_len : get_le (take 4 (framed payload rest)) ≡ length payload
  unfolding framed
  read_len =
      let e : length payload % 2 ^ 32 ≡ length payload = omega arith in
      rw (take_front 4 (put_le 4 (length payload % 2 ^ 32)) _ (length-put_le 4 _))
        (get_le-put_le 4 (length payload % 2 ^ 32) (omega arith) ∙ e)

  read_payload : take (length payload) (drop 4 (framed payload rest)) ≡ payload
  unfolding framed
  read_payload =
      rw
        (drop_front 4 0 (put_le 4 (length payload % 2 ^ 32))
          (payload ++ (put_le 4 (crc32 payload) ++ rest))
          (omega (arith, length-put_le 4 (length payload % 2 ^ 32))))
        (take-append payload _)

  behind : drop (4 + length payload) (framed payload rest) ≡ put_le 4 (crc32 payload) ++ rest
  unfolding framed
  behind =
      drop_front (4 + length payload) (length payload) (put_le 4 (length payload % 2 ^ 32)) _
        (omega (arith, length-put_le 4 (length payload % 2 ^ 32)))
      ∙ drop-append payload _

  read_checksum : get_le (take 4 (drop (4 + length payload) (framed payload rest))) ≡ crc32 payload
  read_checksum = rw behind (
      rw (take_front 4 (put_le 4 (crc32 payload)) rest (length-put_le 4 _))
        (get_le-put_le 4 (crc32 payload) (crc32-lt payload)))

  behind_all : drop (8 + length payload) (framed payload rest) ≡ rest
  unfolding framed
  behind_all =
      drop_front (8 + length payload) (4 + length payload) (put_le 4 (length payload % 2 ^ 32)) _
        (omega (arith, length-put_le 4 (length payload % 2 ^ 32)))
      ∙ drop_front (4 + length payload) 4 payload _ (omega arith)
      ∙ drop_front 4 0 (put_le 4 (crc32 payload)) rest
          (omega (arith, length-put_le 4 (crc32 payload)))

  length-framed : length (framed payload rest) ≡ 8 + length payload + length rest
  length-framed =
      ap length (sym (frame_payload-framed payload rest))
      ∙ length-append (frame_payload payload) rest
      ∙ ground (arith, length-frame_payload payload)

  pub next_payload-frame_payload :
      0 < length payload → next_payload (frame_payload payload ++ rest) ≡ some (payload, rest)
  unfolding next_payload
  next_payload-frame_payload some_bytes =
      rw (frame_payload-framed payload rest)
        (ground (arith, read_len, read_payload, read_checksum, behind_all, length-framed))

cut_behind :
    (n : ℕ) (payload : Text)
    → 4 ≤ n
    → take n (frame_payload payload)
      ≡ put_le 4 (length payload % 2 ^ 32) ++ take (n - 4) (payload ++ put_le 4 (crc32 payload))
unfolding frame_payload
cut_behind n payload h =
    let rec_len = put_le 4 (length payload % 2 ^ 32) in
    let e : length rec_len + (n - 4) ≡ n =
      omega (arith, length-put_le 4 (length payload % 2 ^ 32)) in
    subst
      (λ k.
        take k (rec_len ++ (payload ++ put_le 4 (crc32 payload)))
        ≡ rec_len ++ take (n - 4) (payload ++ put_le 4 (crc32 payload)))
      e (take-append_of_le (n - 4) rec_len (payload ++ put_le 4 (crc32 payload)))

-- A record that was cut off is not read.
pub next_payload-take :
    (payload : Text) (n : ℕ)
    → length payload < 2 ^ 32
    → n < length (frame_payload payload)
    → next_payload (take n (frame_payload payload)) ≡ none
unfolding next_payload
next_payload-take payload n small cut = elim (dec_lt n 8) [
  | yes short ↦ ground (arith, length-take n (frame_payload payload))
  | no long ↦
      let rec_len = put_le 4 (length payload % 2 ^ 32) in
      let tail = payload ++ put_le 4 (crc32 payload) in
      let j = n - 4 in
      let start : take n (frame_payload payload) ≡ rec_len ++ take j tail =
        cut_behind n payload (omega arith) in
      let len_is : get_le (take 4 (rec_len ++ take j tail)) ≡ length payload =
        let e : length payload % 2 ^ 32 ≡ length payload = omega arith in
        rw (take_front 4 rec_len _ (length-put_le 4 _))
          (get_le-put_le 4 (length payload % 2 ^ 32) (omega arith) ∙ e) in
      let len_at : get_le (take 4 (take n (frame_payload payload))) ≡ length payload =
        rw start len_is in
      ground (arith, len_at, length-frame_payload payload, length-take n (frame_payload payload))
]
