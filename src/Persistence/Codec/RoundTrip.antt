-- ===== src/Persistence/Codec/RoundTrip.antt =====
-- `Decode` reads back what `Encode` wrote (pkg/persistence/codec.go).
use mathlib.Core.List.{append_assoc, append-nil}
use qubicdb.Prelude.{
  ℕ, ◌+◌, ◌*◌, ◌%◌, ◌^◌, ◌<◌, ◌≤◌, ◌≡◌, refl, ◌∙◌, sym, subst, Bool, true, false, some, [], ◌∷◌,
  ◌++◌, Text, text_eq_iff, length, take, drop, arith, length-append, take_front, drop_front, ltb,
  leb, ◌==◌, Option-cases, inl, inr,
}
use qubicdb.Persistence.Words.{put_le, get_le, length-put_le, get_le-put_le}
use qubicdb.Persistence.Codec.{
  Library, Header, magic_bytes, format_version, ok, checksum, checksum_from, put_header, get_header,
  read_full, pack, header_of, frame, encode, unpack, decode_body, decode,
}

-- the fields lie within their widths
pub record IsWellSized (h : Header) : Type 0 where
  pub magic_four : length h.magic ≡ 4
  pub version_fits : h.version < 256 ^ 2
  pub flags_fit : h.flags < 256 ^ 2
  pub index_id_len_fits : h.index_id_len < 256 ^ 4
  pub data_len_fits : h.data_len < 256 ^ 8
  pub checksum_fits : h.checksum < 256 ^ 4

pub length-put_header : (h : Header) → IsWellSized h → length (put_header h) ≡ 24
unfolding put_header
length-put_header h w = simp (length-append, length-put_le) (omega arith)

-- the six fields one after another, and more
pub fields : Header → Text → Text
fields h rest =
    h.magic
    ++ (put_le 2 h.version
        ++ (put_le 2 h.flags
            ++ (put_le 4 h.index_id_len ++ (put_le 8 h.data_len ++ (put_le 4 h.checksum ++ rest)))))

pub put_header-fields : (h : Header) (rest : Text) → put_header h ++ rest ≡ fields h rest
unfolding put_header fields
put_header-fields h rest = simp append_assoc

-- one field at the front of what is left
skip : (n k w v : ℕ) (rest : Text) → w + k ≡ n → drop n (put_le w v ++ rest) ≡ drop k rest
skip n k w v rest h = drop_front n k (put_le w v) rest (omega (arith, length-put_le w v))

read_field :
    (w v : ℕ) (raw rest : Text) → raw ≡ put_le w v ++ rest → v < 256 ^ w → get_le (take w raw) ≡ v
read_field w v raw rest e h =
    rw e (rw (take_front w (put_le w v) rest (length-put_le w v)) (get_le-put_le w v h))

at_magic :
    (n k : ℕ) (h : Header) (rest : Text)
    → IsWellSized h
    → 4 + k ≡ n
    → drop n (h.magic ++ rest) ≡ drop k rest
at_magic n k h rest w e = drop_front n k h.magic rest (omega arith)

pub get_header-fields : (h : Header) (rest : Text) → IsWellSized h → get_header (fields h rest) ≡ h
unfolding get_header fields
get_header-fields h rest w =
    let t5 = put_le 4 h.checksum ++ rest in
    let t4 = put_le 8 h.data_len ++ t5 in
    let t3 = put_le 4 h.index_id_len ++ t4 in
    let t2 = put_le 2 h.flags ++ t3 in
    let t1 = put_le 2 h.version ++ t2 in
    let magic_is : take 4 (h.magic ++ t1) ≡ h.magic = take_front 4 h.magic t1 w.magic_four in
    let version_is = read_field 2 h.version _ t2 (at_magic 4 0 h t1 w refl) w.version_fits in
    let flags_is =
      read_field 2 h.flags _ t3 (at_magic 6 2 h t1 w refl ∙ skip 2 0 2 h.version t2 refl)
        w.flags_fit in
    let id_is =
      read_field 4 h.index_id_len _ t4
        (at_magic 8 4 h t1 w refl ∙ skip 4 2 2 h.version t2 refl ∙ skip 2 0 2 h.flags t3 refl)
        w.index_id_len_fits in
    let data_is =
      read_field 8 h.data_len _ t5
        (at_magic 12 8 h t1 w refl
          ∙ skip 8 6 2 h.version t2 refl
          ∙ skip 6 4 2 h.flags t3 refl
          ∙ skip 4 0 4 h.index_id_len t4 refl)
        w.data_len_fits in
    let sum_is =
      read_field 4 h.checksum _ rest
        (at_magic 20 16 h t1 w refl
          ∙ skip 16 14 2 h.version t2 refl
          ∙ skip 14 12 2 h.flags t3 refl
          ∙ skip 12 8 4 h.index_id_len t4 refl
          ∙ skip 8 0 8 h.data_len t5 refl)
        w.checksum_fits in
    λ i. record {
      magic = magic_is i;
      version = version_is i;
      flags = flags_is i;
      index_id_len = id_is i;
      data_len = data_is i;
      checksum = sum_is i;
    }

-- what is read of the header, with anything behind it
pub get_header-put_header :
    (h : Header) (rest : Text) → IsWellSized h → get_header (put_header h ++ rest) ≡ h
get_header-put_header h rest w = rw (put_header-fields h rest) (get_header-fields h rest w)

pub read_full-append : (n : ℕ) (xs ys : Text) → length xs ≡ n → read_full n (xs ++ ys) ≡ ok (xs, ys)
unfolding read_full
read_full-append n xs ys h =
    let enough : leb n (length (xs ++ ys)) ≡ true = ground (arith, length-append xs ys) in
    rw enough (rw (take_front n xs ys h, drop_front n 0 xs ys (omega arith)))

pub read_full_all : (n : ℕ) (xs : Text) → length xs ≡ n → read_full n xs ≡ ok (xs, [])
read_full_all n xs h =
    subst (λ t. read_full n t ≡ ok (xs, [])) (append-nil xs) (read_full-append n xs [] h)

-- documented behaviour: msgpack and gzip read back what they wrote
pub record LibraryLaws {X : Type 0} (lib : Library X) : Type 0 where
  pub unmarshal_marshal : (m : X) (d : Text) → lib.marshal m ≡ some d → lib.unmarshal d ≡ some m
  pub decompress_compress :
      (d c : Text) → lib.compress_data d ≡ some c → lib.decompress_data c ≡ some d

pub checksum_from-lt : (sum : ℕ) (bs : Text) → sum < 2 ^ 32 → checksum_from sum bs < 2 ^ 32
unfolding checksum_from
checksum_from-lt sum [] h = h
checksum_from-lt sum (b ∷ bs) h = checksum_from-lt ((sum * 31 + b) % 2 ^ 32) bs (omega arith)

module _ {X : Type 0} (lib : Library X) where
  pub header_of-IsWellSized :
      (m : X) (data' : Text) (flags : ℕ) → flags < 65536 → IsWellSized (header_of lib m data' flags)
  unfolding header_of checksum
  header_of-IsWellSized m data' flags h = record {
    magic_four = refl;
    version_fits = omega arith;
    flags_fit = h;
    index_id_len_fits = omega arith;
    data_len_fits = omega arith;
    checksum_fits = checksum_from-lt 0 data' (omega arith);
  }

  decode_body-append :
      (h : Header) (id data' : Text)
      → h.index_id_len ≡ length id
      → h.data_len ≡ length data'
      → h.checksum ≡ checksum data'
      → length id ≤ lib.max_alloc
      → length data' ≤ lib.max_alloc
      → decode_body lib h (id ++ data') ≡ unpack lib h.flags data'
  unfolding decode_body
  decode_body-append h id data' a b c p q =
      let id_fits : leb h.index_id_len lib.max_alloc ≡ true = ground arith in
      let data_fits : leb h.data_len lib.max_alloc ≡ true = ground arith in
      let sum_ok : (checksum data' == h.checksum) ≡ true = ground arith in
      rw id_fits (
        rw (read_full-append h.index_id_len id data' (sym a))
          (rw data_fits (rw (read_full_all h.data_len data' (sym b)) (rw sum_ok))))

  pub decode-put_header :
      (h : Header) (body : Text)
      → IsWellSized h
      → h.magic ≡ magic_bytes
      → h.version ≡ format_version
      → decode lib (put_header h ++ body) ≡ decode_body lib h body
  unfolding decode
  decode-put_header h body w magic version =
      let long : ltb (length (put_header h ++ body)) 24 ≡ false =
        ground (arith, length-append (put_header h) body, length-put_header h w) in
      let known : ltb format_version h.version ≡ false = ground arith in
      rw long (
        rw (get_header-put_header h body w) (
          rw ((text_eq_iff h.magic magic_bytes).1 magic) (
            rw known
              (rw (drop_front 24 0 (put_header h) body (omega (arith, length-put_header h w)))))))

  pub length-frame :
      (m : X) (data' : Text) (flags : ℕ)
      → flags < 65536
      → length (frame lib m data' flags) ≡ 24 + length (lib.index_id m) + length data'
  unfolding frame
  length-frame m data' flags h = omega (
    arith,
    length-append (put_header (header_of lib m data' flags)) (lib.index_id m ++ data'),
    length-append (lib.index_id m) data',
    length-put_header _ (header_of-IsWellSized m data' flags h),
  )

  -- a frame decodes to what its data unpacks to
  decode-frame :
      (m : X) (data' : Text) (flags : ℕ)
      → flags < 65536
      → length (lib.index_id m) < 2 ^ 32
      → length (frame lib m data' flags) ≤ lib.max_alloc
      → lib.max_alloc < 2 ^ 64
      → decode lib (frame lib m data' flags) ≡ unpack lib flags data'
  unfolding frame header_of
  decode-frame m data' flags f id_small all small =
      let h = header_of lib m data' flags in
      let size = length-frame m data' flags f in
      decode-put_header h (lib.index_id m ++ data') (header_of-IsWellSized m data' flags f) refl
        refl
      ∙ decode_body-append h (lib.index_id m) data' (omega arith) (omega arith) refl (omega arith)
          (omega arith)

  pack_flags : (c : Bool) (d : Text) (p : Text) (f : ℕ) → pack lib c d ≡ some (p, f) → f < 65536
  unfolding pack
  pack_flags false d p f h = ground arith
  pack_flags true d p f h = ground arith

  module _ (laws : LibraryLaws lib) where
    unpack-pack :
        (c : Bool) (m : X) (d p : Text) (f : ℕ)
        → lib.marshal m ≡ some d
        → pack lib c d ≡ some (p, f)
        → unpack lib f p ≡ ok m
    unfolding pack unpack
    unpack-pack false m d p f w h = ground (arith, laws.unmarshal_marshal m d)
    unpack-pack true m d p f w h =
        ground (arith, laws.unmarshal_marshal m d, laws.decompress_compress d p)

    -- Decode gives back the matrix that Encode was given, compressed or not, if msgpack and gzip
    -- read back what they wrote, the index id is shorter than 2^32 bytes, and the file is one that
    -- the runtime can allocate.
    pub decode-encode :
        (c : Bool) (m : X) (raw : Text)
        → encode lib c m ≡ some raw
        → length (lib.index_id m) < 2 ^ 32
        → length raw ≤ lib.max_alloc
        → lib.max_alloc < 2 ^ 64
        → decode lib raw ≡ ok m
    unfolding encode
    decode-encode c m raw h id_small all small = elim (Option-cases (lib.marshal m)) [
      | inl e ↦ absurd (ground arith)
      | inr (d, e) ↦ elim (Option-cases (pack lib c d)) [
        | inl e' ↦ absurd (ground arith)
        | inr ((p, f), e') ↦
            let same : raw ≡ frame lib m p f = ground arith in
            rw same (
              decode-frame m p f (pack_flags c d p f e') id_small (rw same at all) small
              ∙ unpack-pack c m d p f e e')
      ]
    ]
