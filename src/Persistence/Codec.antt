-- ===== src/Persistence/Codec.antt =====
-- The binary format of a persisted matrix (pkg/persistence/codec.go). Msgpack and gzip are
-- parameters; `make` panics where a length exceeds what the runtime can allocate.
pub mod RoundTrip
mod Corruption
mod Examples
use qubicdb.Prelude.{
  ℕ, ◌+◌, ◌*◌, ◌%◌, ◌^◌, Bool, true, false, Option, none, some, List, [], ◌∷◌, ◌++◌, Text, bytes,
  text_eq, length, take, drop, ltb, leb, ◌==◌, if◌then◌else◌,
}
use qubicdb.Persistence.Words.{put_le, get_le}

-- What the code calls: msgpack on a value, gzip in both directions (`none` is an error), the index id
-- of a value, and the largest slice that the runtime allocates.
pub record Library (X : Type 0) : Type 0 where
  pub index_id : X → Text
  pub marshal : X → Option Text
  pub unmarshal : Text → Option X
  pub compress_data : Text → Option Text
  pub decompress_data : Text → Option Text
  pub max_alloc : ℕ

pub record Header : Type 0 where
  pub magic : Text
  pub version : ℕ
  pub flags : ℕ
  pub index_id_len : ℕ
  pub data_len : ℕ
  pub checksum : ℕ

abbrev pub magic_bytes : Text
magic_bytes = bytes "NRDB"

abbrev pub format_version : ℕ
format_version = 1

abbrev pub flag_compressed : ℕ
flag_compressed = 1

pub data DecodeError : Type 0 where
  too_short invalid_magic unsupported_version eof unexpected_eof : DecodeError
  checksum_mismatch decompress_failed unmarshal_failed : DecodeError

pub data Outcome {ℓ} (A : Type ℓ) : Type ℓ where
  ok : A → Outcome A
  err : DecodeError → Outcome A
  panic : Outcome A

infixl 5 ◌>>=◌
abbrev pub ◌>>=◌ {ℓ κ} : {A : Type ℓ} {B : Type κ} → Outcome A → (A → Outcome B) → Outcome B
ok a >>= f = f a
err e >>= f = err e
panic >>= f = panic

-- `sum = sum*31 + uint32(b)` over the bytes
unfoldable pub checksum_from : ℕ → Text → ℕ
checksum_from sum [] = sum
checksum_from sum (b ∷ bs) = checksum_from ((sum * 31 + b) % 2 ^ 32) bs

unfoldable pub checksum : Text → ℕ
unfolding checksum_from
checksum = checksum_from 0

-- `binary.Write` of the header, field by field
unfoldable pub put_header : Header → Text
put_header h =
    h.magic
    ++ (put_le 2 h.version
        ++ (put_le 2 h.flags
            ++ (put_le 4 h.index_id_len ++ (put_le 8 h.data_len ++ put_le 4 h.checksum))))

-- `binary.Read` of the header, from at least 24 bytes
unfoldable pub get_header : Text → Header
get_header raw = record {
  magic = take 4 raw;
  version = get_le (take 2 (drop 4 raw));
  flags = get_le (take 2 (drop 6 raw));
  index_id_len = get_le (take 4 (drop 8 raw));
  data_len = get_le (take 8 (drop 12 raw));
  checksum = get_le (take 4 (drop 20 raw));
}

-- `io.ReadFull` of `n` bytes: what was read, and what is left
unfoldable pub read_full : ℕ → Text → Outcome (Text × Text)
read_full n buf =
    if leb n (length buf)
    then ok (take n buf, drop n buf)
    else (if length buf == 0 then err eof else err unexpected_eof)

abbrev or_fail {ℓ} : {A : Type ℓ} → Option A → DecodeError → Outcome A
or_fail none e = err e
or_fail (some a) e = ok a

abbrev guard {ℓ} : {A : Type ℓ} → Bool → DecodeError → Outcome A → Outcome A
guard true e next = next
guard false e next = err e

module _ {X : Type 0} (lib : Library X) where
  -- `make([]byte, n)`
  abbrev make {ℓ} : {A : Type ℓ} → ℕ → Outcome A → Outcome A
  make n next = if leb n lib.max_alloc then next else panic

  -- The data and the flags of `Encode`; `none` is an error of gzip.
  unfoldable pub pack : Bool → Text → Option (Text × ℕ)
  pack false data' = some (data', 0)
  pack true data' = elim (lib.compress_data data') [
    | none ↦ none
    | some small ↦
        if ltb (length small) (length data') then some (small, flag_compressed) else some (data', 0)
  ]

  unfoldable pub header_of : X → Text → ℕ → Header
  header_of m data' flags = record {
    magic = magic_bytes;
    version = format_version;
    flags = flags;
    index_id_len = length (lib.index_id m) % 2 ^ 32;
    data_len = length data' % 2 ^ 64;
    checksum = checksum data';
  }

  unfoldable pub frame : X → Text → ℕ → Text
  unfolding header_of put_header
  frame m data' flags = put_header (header_of m data' flags) ++ (lib.index_id m ++ data')

  -- `NewCodec(compress).Encode`
  unfoldable pub encode : Bool → X → Option Text
  unfolding pack frame
  encode compress m = elim (lib.marshal m) [
    | none ↦ none
    | some data' ↦ elim (pack compress data') [
      | none ↦ none
      | some (packed, flags) ↦ some (frame m packed flags)
    ]
  ]

  -- the end of `Decode`, from the data on
  unfoldable pub unpack : ℕ → Text → Outcome X
  unpack flags data' =
      (if flags % 2 == 1 then or_fail (lib.decompress_data data') decompress_failed else ok data')
      >>= λ plain. or_fail (lib.unmarshal plain) unmarshal_failed

  -- the part of `Decode` behind the header
  unfoldable pub decode_body : Header → Text → Outcome X
  unfolding unpack
  decode_body h buf = make h.index_id_len (read_full h.index_id_len buf) >>= λ id.
      make h.data_len (read_full h.data_len id.1) >>= λ body.
      guard (checksum body.0 == h.checksum) checksum_mismatch (unpack h.flags body.0)

  unfoldable pub decode : Text → Outcome X
  unfolding decode_body
  decode raw =
      if ltb (length raw) 24
      then err too_short
      else let h = get_header raw in
        if text_eq h.magic magic_bytes
        then (if ltb format_version h.version
            then err unsupported_version
            else decode_body h (drop 24 raw))
        else err invalid_magic
