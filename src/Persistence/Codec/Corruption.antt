-- ===== src/Persistence/Codec/Corruption.antt =====
-- What `Decode` does with damaged files (pkg/persistence/codec.go).
use qubicdb.Prelude.{
  ℕ, ◌+◌, ◌*◌, ◌%◌, ◌^◌, ◌<◌, ◌≤◌, ◌≡◌, ◌≢◌, refl, ◌∙◌, sym, subst, true, false, [], ◌∷◌, ◌++◌,
  Text, length, take, drop, arith, length-append, length-drop, length-take-le, take-append_of_le,
  ◌-◌, ltb, leb, ◌==◌, Bool-cases, inl, inr,
}
use qubicdb.Persistence.Codec.{
  Library, Header, magic_bytes, format_version, ok, err, panic, DecodeError, checksum_mismatch,
  too_short, eof, unexpected_eof, checksum, checksum_from, put_header, read_full, header_of, frame,
  decode_body, decode,
}
use qubicdb.Persistence.Codec.RoundTrip.{
  IsWellSized, decode-put_header, read_full-append, read_full_all, header_of-IsWellSized,
  length-frame, length-put_header,
}

-- 31 is invertible modulo 2^32.
checksum_step :
    (s t b : ℕ)
    → s < 4294967296
    → t < 4294967296
    → (s * 31 + b) % 4294967296 ≡ (t * 31 + b) % 4294967296
    → s ≡ t
checksum_step s t b hs ht h = omega arith

checksum_byte :
    (s b c : ℕ) → b < 256 → c < 256 → (s * 31 + b) % 4294967296 ≡ (s * 31 + c) % 4294967296 → b ≡ c
checksum_byte s b c hb hc h = omega arith

checksum_from_injective :
    (s t : ℕ) (bs : Text)
    → s < 2 ^ 32
    → t < 2 ^ 32
    → checksum_from s bs ≡ checksum_from t bs
    → s ≡ t
unfolding checksum_from
checksum_from_injective s t [] hs ht h = h
checksum_from_injective s t (b ∷ bs) hs ht h = checksum_step s t b hs ht (
    checksum_from_injective ((s * 31 + b) % 2 ^ 32) ((t * 31 + b) % 2 ^ 32) bs (omega arith)
      (omega arith) h)

checksum_from_one_byte :
    (s : ℕ) (xs ys : Text) (b c : ℕ)
    → b < 256
    → c < 256
    → checksum_from s (xs ++ b ∷ ys) ≡ checksum_from s (xs ++ c ∷ ys)
    → b ≡ c
unfolding checksum_from
checksum_from_one_byte s [] ys b c hb hc h = checksum_byte s b c hb hc (
    checksum_from_injective ((s * 31 + b) % 2 ^ 32) ((s * 31 + c) % 2 ^ 32) ys (omega arith)
      (omega arith) h)
checksum_from_one_byte s (x ∷ xs) ys b c hb hc h =
    checksum_from_one_byte ((s * 31 + x) % 2 ^ 32) xs ys b c hb hc h

-- Two contents that differ in one byte have different checksums.
checksum_one_byte :
    (xs ys : Text) (b c : ℕ)
    → b < 256
    → c < 256
    → b ≢ c
    → checksum (xs ++ b ∷ ys) ≢ checksum (xs ++ c ∷ ys)
unfolding checksum
checksum_one_byte xs ys b c hb hc ne h = ne (checksum_from_one_byte 0 xs ys b c hb hc h)

module _ {X : Type 0} (lib : Library X) where
  decode_body_mismatch :
      (h : Header) (id data' : Text)
      → h.index_id_len ≡ length id
      → h.data_len ≡ length data'
      → h.checksum ≢ checksum data'
      → length id ≤ lib.max_alloc
      → length data' ≤ lib.max_alloc
      → decode_body lib h (id ++ data') ≡ err checksum_mismatch
  unfolding decode_body
  decode_body_mismatch h id data' a b c p q =
      let id_fits : leb h.index_id_len lib.max_alloc ≡ true = ground arith in
      let data_fits : leb h.data_len lib.max_alloc ≡ true = ground arith in
      let sum_bad : (checksum data' == h.checksum) ≡ false = ground arith in
      rw id_fits (
        rw (read_full-append h.index_id_len id data' (sym a))
          (rw data_fits (rw (read_full_all h.data_len data' (sym b)) (rw sum_bad))))

  -- If one byte of the data of an encoded file is changed to another byte, Decode answers the
  -- checksum error, wherever the byte stands. The index id is shorter than 2^32 bytes, and the file
  -- is one that the runtime can allocate.
  pub decode_one_byte :
      (m : X) (xs ys : Text) (b c flags : ℕ)
      → b < 256
      → c < 256
      → b ≢ c
      → flags < 65536
      → length (lib.index_id m) < 2 ^ 32
      → length (frame lib m (xs ++ b ∷ ys) flags) ≤ lib.max_alloc
      → lib.max_alloc < 2 ^ 64
      → decode lib
          (put_header (header_of lib m (xs ++ b ∷ ys) flags) ++ (lib.index_id m ++ (xs ++ c ∷ ys)))
        ≡ err checksum_mismatch
  unfolding header_of
  decode_one_byte m xs ys b c flags hb hc ne f id_small all small =
      let h = header_of lib m (xs ++ b ∷ ys) flags in
      let size = length-frame lib m (xs ++ b ∷ ys) flags f in
      let len_b = length-append xs (b ∷ ys) in
      let len_c = length-append xs (c ∷ ys) in
      decode-put_header lib h (lib.index_id m ++ (xs ++ c ∷ ys))
        (header_of-IsWellSized lib m (xs ++ b ∷ ys) flags f) refl refl
      ∙ decode_body_mismatch h (lib.index_id m) (xs ++ c ∷ ys) (omega arith) (omega arith)
          (checksum_one_byte xs ys b c hb hc ne) (omega arith) (omega arith)

  -- A header whose data length exceeds what the runtime can allocate makes Decode panic: the length
  -- is used before anything checks it.
  pub decode_panics :
      (h : Header) (id body : Text)
      → IsWellSized h
      → h.magic ≡ magic_bytes
      → h.version ≡ format_version
      → h.index_id_len ≡ length id
      → length id ≤ lib.max_alloc
      → lib.max_alloc < h.data_len
      → decode lib (put_header h ++ (id ++ body)) ≡ panic
  unfolding decode_body
  decode_panics h id body w magic version a p q =
      let id_fits : leb h.index_id_len lib.max_alloc ≡ true = ground arith in
      let data_bad : leb h.data_len lib.max_alloc ≡ false = ground arith in
      decode-put_header lib h (id ++ body) w magic version
      ∙ rw id_fits (rw (read_full-append h.index_id_len id body (sym a)) (rw data_bad))

  read_full_enough :
      (n : ℕ) (buf : Text)
      → leb n (length buf) ≡ true
      → read_full n buf ≡ ok (take n buf, drop n buf)
  unfolding read_full
  read_full_enough n buf h = rw h

  read_full_short :
      (n : ℕ) (buf : Text) → length buf < n → (e : DecodeError) × (read_full n buf ≡ err e)
  unfolding read_full
  read_full_short n buf h = elim (Bool-cases (length buf == 0)) [
    | inl z ↦ (eof, ground arith)
    | inr z ↦ (unexpected_eof, ground arith)
  ]

  -- a body that ends early
  decode_body_short :
      (h : Header) (buf : Text)
      → h.index_id_len ≤ lib.max_alloc
      → h.data_len ≤ lib.max_alloc
      → length buf < h.index_id_len + h.data_len
      → (e : DecodeError) × (decode_body lib h buf ≡ err e)
  unfolding decode_body
  decode_body_short h buf p q short =
      let id_fits : leb h.index_id_len lib.max_alloc ≡ true = ground arith in
      let data_fits : leb h.data_len lib.max_alloc ≡ true = ground arith in
      elim (Bool-cases (leb h.index_id_len (length buf))) [
        | inr cut ↦
            let (e, r) = read_full_short h.index_id_len buf (ground arith) in (e, rw id_fits (rw r))
        | inl enough ↦
            let rest = drop h.index_id_len buf in
            let (e, r) =
              read_full_short h.data_len rest (ground (arith, length-drop h.index_id_len buf)) in
            (e, rw id_fits (rw (read_full_enough h.index_id_len buf enough) (rw data_fits (rw r))))
      ]

  decode_short_header : (raw : Text) → length raw < 24 → decode lib raw ≡ err too_short
  unfolding decode
  decode_short_header raw h = let short : ltb (length raw) 24 ≡ true = ground arith in rw short

  take_frame :
      (h : Header) (body : Text) (n : ℕ)
      → IsWellSized h
      → 24 ≤ n
      → take n (put_header h ++ body) ≡ put_header h ++ take (n - 24) body
  take_frame h body n w le =
      let e : n ≡ length (put_header h) + (n - 24) = omega (arith, length-put_header h w) in
      subst (λ k. take k (put_header h ++ body) ≡ put_header h ++ take (n - 24) body) (sym e)
        (take-append_of_le (n - 24) (put_header h) body)

  -- Every proper prefix of an encoded file is refused with an error, without a panic. The index id
  -- is shorter than 2^32 bytes, and the file is one that the runtime can allocate.
  pub decode_truncated :
      (m : X) (data' : Text) (flags n : ℕ)
      → flags < 65536
      → length (lib.index_id m) < 2 ^ 32
      → length (frame lib m data' flags) ≤ lib.max_alloc
      → lib.max_alloc < 2 ^ 64
      → n < length (frame lib m data' flags)
      → (e : DecodeError) × (decode lib (take n (frame lib m data' flags)) ≡ err e)
  unfolding frame header_of
  decode_truncated m data' flags n f id_small all small cut =
      let h = header_of lib m data' flags in
      let size = length-frame lib m data' flags f in
      let w = header_of-IsWellSized lib m data' flags f in
      let body = lib.index_id m ++ data' in
      elim (Bool-cases (ltb n 24)) [
        | inl short ↦ (
          too_short,
          decode_short_header (take n (frame lib m data' flags))
              (ground (arith, length-take-le n (frame lib m data' flags))),
        )
        | inr long ↦
            let at_most = length-take-le (n - 24) body in
            let past : 24 ≤ n = ground arith in
            let (e, r) =
              decode_body_short h (take (n - 24) body) (omega arith) (omega arith) (omega arith) in
            (
              e,
              rw (take_frame h body n w past)
                  (decode-put_header lib h (take (n - 24) body) w refl refl ∙ r),
            )
      ]
