-- ===== src/Persistence/Codec/Examples.antt =====
-- A value type with a toy compression that meets the assumptions, and the codec's theorems at a
-- small file (pkg/persistence/codec.go).
use qubicdb.Prelude.{
  zero, suc, ◌≤◌, ◌≡◌, refl, true, Option, none, some, [], ◌∷◌, ◌++◌, map, Text, text_eq, arith,
  bytes, length, take,
}
use qubicdb.Persistence.Words.{put_le, get_le}
use qubicdb.Persistence.Codec.{
  Library, Header, magic_bytes, format_version, Outcome, ok, err, panic, DecodeError,
  checksum_mismatch, invalid_magic, unsupported_version, checksum, put_header, get_header,
  header_of, frame, encode, decode, pack,
}
use qubicdb.Persistence.Codec.RoundTrip.{LibraryLaws, decode-encode, length-frame}
use qubicdb.Persistence.Codec.Corruption.{decode_one_byte, decode_panics, decode_truncated}

-- three zeros at the front become a one
squeeze : Text → Text
squeeze (zero ∷ zero ∷ zero ∷ d) = 1 ∷ d
squeeze d = 0 ∷ d

unsqueeze : Text → Option Text
unsqueeze (zero ∷ d) = some d
unsqueeze (suc zero ∷ d) = some (0 ∷ 0 ∷ 0 ∷ d)
unsqueeze _ = none

unsqueeze-squeeze : (d : Text) → unsqueeze (squeeze d) ≡ some d
unfolding squeeze unsqueeze
unsqueeze-squeeze (zero ∷ zero ∷ zero ∷ d) = refl
unsqueeze-squeeze _ = refl

-- A matrix is its index id of two bytes and more.
abbrev toy : Library Text
unfolding squeeze unsqueeze
toy = record {
  index_id = take 2;
  marshal = some;
  unmarshal = some;
  compress_data = λ d. some (squeeze d);
  decompress_data = unsqueeze;
  max_alloc = 281474976710656;
}

toy_laws : LibraryLaws toy
unfolding squeeze unsqueeze
toy_laws = record {
  unmarshal_marshal = λ m d h. ground arith;
  decompress_compress = λ d c h. ground (arith, unsqueeze-squeeze d);
}

codec_code : Unit {0}
unfolding squeeze unsqueeze encode decode checksum get_header put_le get_le header_of frame pack
    put_header qubicdb.Persistence.Codec.read_full text_eq
codec_code = tt

abbrev matrix : Text
matrix = 0 ∷ 0 ∷ 0 ∷ 65 ∷ 66 ∷ []

abbrev file : Text
file =
    bytes "NRDB"
    ++ (1 ∷ 0 ∷ 1 ∷ 0 ∷ 2 ∷ 0 ∷ 0 ∷ 0 ∷ 3 ∷ 0 ∷ 0 ∷ 0 ∷ 0 ∷ 0 ∷ 0 ∷ 0 ∷ 226 ∷ 11 ∷ 0 ∷ 0 ∷ [])
    ++ (0 ∷ 0 ∷ 1 ∷ 65 ∷ 66 ∷ [])

encode-matrix : encode toy true matrix ≡ some file
unfolding codec_code
encode-matrix = refl

decode_file : decode toy file ≡ ok matrix
unfolding codec_code
decode_file = refl

decode_other_magic : decode toy (map suc file) ≡ err invalid_magic
unfolding codec_code
decode_other_magic = refl

decode-encode_example : decode toy file ≡ ok matrix
unfolding toy
decode-encode_example =
    decode-encode toy toy_laws true matrix file encode-matrix (omega arith) (omega arith)
      (omega arith)

decode_one_byte_example :
    decode toy (
      put_header (header_of toy matrix (65 ∷ 66 ∷ 67 ∷ []) 0)
      ++ (toy.index_id matrix ++ (65 ∷ 9 ∷ 67 ∷ [])))
    ≡ err checksum_mismatch
unfolding frame put_le toy
decode_one_byte_example =
    decode_one_byte toy matrix (65 ∷ []) (67 ∷ []) 66 9 0 (omega arith) (omega arith) (omega arith)
      (omega arith) (omega arith) small (omega arith)
  where
    small : length (frame toy matrix (65 ∷ 66 ∷ 67 ∷ []) 0) ≤ 281474976710656
    small = omega (arith, length-frame toy matrix (65 ∷ 66 ∷ 67 ∷ []) 0 (omega arith))

decode_truncated_example :
    (e : DecodeError) × (decode toy (take 25 (frame toy matrix (65 ∷ 66 ∷ 67 ∷ []) 0)) ≡ err e)
unfolding toy
decode_truncated_example =
    decode_truncated toy matrix (65 ∷ 66 ∷ 67 ∷ []) 0 25 (omega arith) (omega arith)
      (omega (arith, length-frame toy matrix (65 ∷ 66 ∷ 67 ∷ []) 0 (omega arith))) (omega arith)
      (omega (arith, length-frame toy matrix (65 ∷ 66 ∷ 67 ∷ []) 0 (omega arith)))

-- a header that promises 2^63 bytes
abbrev huge : Header
huge = record {
  magic = magic_bytes;
  version = format_version;
  flags = 0;
  index_id_len = 2;
  data_len = 9223372036854775808;
  checksum = 0;
}

decode_panics_example : decode toy (put_header huge ++ ((0 ∷ 0 ∷ []) ++ (65 ∷ []))) ≡ panic
unfolding toy
decode_panics_example =
    decode_panics toy huge (0 ∷ 0 ∷ []) (65 ∷ [])
      (record {
        magic_four = refl;
        version_fits = omega arith;
        flags_fit = omega arith;
        index_id_len_fits = omega arith;
        data_len_fits = omega arith;
        checksum_fits = omega arith;
      })
      refl refl refl (omega arith) (omega arith)
