-- ===== src/Persistence/Wal.antt =====
-- The format of the write-ahead log (pkg/persistence/store.go): each record stands between its length
-- and the CRC-32 of its bytes. Msgpack on a record is a parameter.
pub mod Scan
use Prim.Native.Nat.{bit_xor}
use qubicdb.Prelude.{
  ℕ, zero, suc, ◌+◌, ◌-◌, ◌*◌, ◌/◌, ◌%◌, ◌^◌, Bool, true, false, Option, none, some, List, [], ◌∷◌,
  ◌++◌, Text, bytes, text_eq, length, take, drop, ltb, ◌==◌, if◌then◌else◌,
}
use qubicdb.Persistence.Words.{put_le, get_le}

pub record WalRecord : Type 0 where
  pub op : Text
  pub index_id : Text
  pub content : Text

abbrev pub wal_op_put : Text
wal_op_put = bytes "put"

abbrev pub wal_op_delete : Text
wal_op_delete = bytes "delete"

-- msgpack on records; `none` is an error
pub record WalLibrary : Type 0 where
  pub marshal_record : WalRecord → Option Text
  pub unmarshal_record : Text → Option WalRecord

-- CRC-32 with the polynomial of IEEE 802.3, as hash/crc32: eight shifts for each byte
unfoldable pub crc_shift : ℕ → ℕ → ℕ
crc_shift zero c = c
crc_shift (suc k) c = crc_shift k (if c % 2 == 1 then bit_xor (c / 2) 3988292384 else c / 2)

unfoldable pub crc_from : ℕ → Text → ℕ
unfolding crc_shift
crc_from c [] = c
crc_from c (b ∷ bs) = crc_from (crc_shift 8 (bit_xor c b)) bs

unfoldable pub crc32 : Text → ℕ
unfolding crc_from
crc32 payload = bit_xor (crc_from 4294967295 payload) 4294967295 % 2 ^ 32

-- the bytes that `appendWAL` writes for a payload
unfoldable pub frame_payload : Text → Text
frame_payload payload = put_le 4 (length payload % 2 ^ 32) ++ (payload ++ put_le 4 (crc32 payload))

-- The next payload of the log, and what follows it; `none` where the loop of `replayWAL` breaks.
unfoldable pub next_payload : Text → Option (Text × Text)
next_payload rest =
    let record_len = get_le (take 4 rest) in
    let payload = take record_len (drop 4 rest) in
    let checksum = get_le (take 4 (drop (4 + record_len) rest)) in
    if ltb (length rest) 8
    then none
    else if record_len == 0
    then none
    else if ltb (length rest - 8) record_len
    then none
    else if crc32 payload == checksum
    then some (payload, drop (8 + record_len) rest)
    else none
