-- ===== src/Tpm/Nv/Cut/RoundTrip.antt =====
-- A stream of certificates and padding, cut back into its certificates
-- (`ReadIntelOdcaIntermediates` of src/tpm/tpm_commands.cpp).
use mathlib.Core.List.{append_assoc, append-nil}
use sdk_windows.Prelude.{
  ℕ, zero, suc, ◌+◌, ◌*◌, ◌/◌, ◌%◌, ◌≤◌, ◌<◌, ◌≡◌, ◌≢◌, refl, sym, ap, ◌∙◌, arith, true, false,
  ◌&&◌, ◌||◌, List, [], ◌∷◌, ◌++◌, Bytes, length, length-append, length-drop, take, drop,
  drop-append, drop-drop, ok, ltb, leb, ◌==◌,
}
use sdk_windows.Wire.Reads.{read_u8-cons, drop-at_cons, ahead_fits, slice-ahead}
use sdk_windows.Tpm.Nv.Der.{long_length, long_form, der_object_size}
use sdk_windows.Tpm.Nv.Cut.{max_certificates, cut_chain}

-- A number written in base 256, the most significant digit first.
abbrev pub big_endian : ℕ → Bytes → ℕ
big_endian total [] = total
big_endian total (d ∷ ds) = big_endian (total * 256 + d) ds

-- A DER SEQUENCE of definite length with at most 4 length bytes, in the short and in the long form.
pub data IsSequence : Bytes → Type 0 where
  short : (body : Bytes) → length body < 128 → IsSequence (0x30 ∷ length body ∷ body)
  long :
      (digits body : Bytes)
      → 0 < length digits
      → length digits ≤ 4
      → big_endian 0 digits ≡ length body
      → IsSequence (0x30 ∷ (128 + length digits) ∷ (digits ++ body))

long_length-big_endian :
    (digits rest stream : Bytes) (at total : ℕ)
    → drop at stream ≡ digits ++ rest
    → long_length (length digits) stream at total ≡ ok (big_endian total digits)
unfolding long_length
long_length-big_endian [] rest stream at total e = refl
long_length-big_endian (d ∷ ds) rest stream at total e =
    rw (read_u8-cons stream at d (ds ++ rest) e) (
      long_length-big_endian ds rest stream (at + 1) (total * 256 + d)
        (drop-at_cons stream at d (ds ++ rest) e))

length-IsSequence : {cert : Bytes} → IsSequence cert → 2 ≤ length cert
length-IsSequence (short body h) = omega arith
length-IsSequence (long digits body a b e) = omega arith

module _ (stream : Bytes) (offset : ℕ) (rest : Bytes) where
  der_object_size-long :
      (digits body : Bytes)
      → 0 < length digits
      → length digits ≤ 4
      → big_endian 0 digits ≡ length body
      → drop offset stream ≡ (0x30 ∷ (128 + length digits) ∷ (digits ++ body)) ++ rest
      → der_object_size stream offset
        ≡ ok (length (0x30 ∷ (128 + length digits) ∷ (digits ++ body)))
  unfolding der_object_size long_form
  der_object_size-long digits body a b e ahead =
      let k = length digits in
      let cert : Bytes = 0x30 ∷ (128 + k) ∷ (digits ++ body) in
      let fits = ahead_fits stream offset cert rest ahead (omega arith) in
      let wide = length-append digits body in
      let ahead1 = drop-at_cons stream offset 0x30 _ ahead in
      let two : offset + 2 ≡ offset + 1 + 1 = omega arith in
      let ahead2 : drop (offset + 2) stream ≡ digits ++ (body ++ rest) =
        ap (λ (j : ℕ). drop j stream) two
        ∙ drop-at_cons stream (offset + 1) (128 + k) _ ahead1
        ∙ append_assoc digits body rest in
      let digit : (128 + k) / 128 % 2 ≡ 1 = omega arith in
      let low : (128 + k) % 128 ≡ k = omega arith in
      let roomy : ltb (length stream) (offset + 2) ≡ false = ground (arith, fits, wide) in
      let here : ltb (length stream) (offset + 2 + k) ≡ false = ground (arith, fits, wide) in
      let some_digits : (k == 0 || ltb 4 k) ≡ false = ground arith in
      let whole : leb (offset + (2 + k + length body)) (length stream) ≡ true =
        ground (arith, fits, wide) in
      let read : long_length k stream (offset + 2) 0 ≡ ok (length body) =
        rw (sym e) (long_length-big_endian digits (body ++ rest) stream (offset + 2) 0 ahead2) in
      rw
        (
          roomy,
          read_u8-cons stream offset 0x30 _ ahead,
          read_u8-cons stream (offset + 1) (128 + k) _ ahead1,
          digit,
          low,
          some_digits,
          here,
          read,
          whole,
        )
        (ap ok (omega (arith, wide)))

  der_object_size-short :
      (body : Bytes)
      → length body < 128
      → drop offset stream ≡ (0x30 ∷ length body ∷ body) ++ rest
      → der_object_size stream offset ≡ ok (length (0x30 ∷ length body ∷ body))
  unfolding der_object_size
  der_object_size-short body h ahead =
      let fits = ahead_fits stream offset (0x30 ∷ length body ∷ body) rest ahead (omega arith) in
      let roomy : ltb (length stream) (offset + 2) ≡ false = ground (arith, fits) in
      let digit : length body / 128 % 2 ≡ 0 = omega arith in
      let whole : leb (offset + (2 + length body)) (length stream) ≡ true = ground (arith, fits) in
      let ahead1 = drop-at_cons stream offset 0x30 _ ahead in
      rw
        (
          roomy,
          read_u8-cons stream offset 0x30 _ ahead,
          read_u8-cons stream (offset + 1) (length body) _ ahead1,
          digit,
          whole,
        )
        (ap ok (omega arith))

  der_object_size-IsSequence :
      {cert : Bytes}
      → IsSequence cert
      → drop offset stream ≡ cert ++ rest
      → der_object_size stream offset ≡ ok (length cert)
  der_object_size-IsSequence (short body h) ahead = der_object_size-short body h ahead
  der_object_size-IsSequence (long digits body a b e) ahead =
      der_object_size-long digits body a b e ahead

-- No SEQUENCE opens at the first byte.
abbrev pub IsPadding : Bytes → Type 0
IsPadding [] = Unit
IsPadding (b ∷ bs) = b ≢ 0x30

der_object_size-IsPadding :
    (stream : Bytes) (offset : ℕ) (b : ℕ) (bs : Bytes)
    → b ≢ 0x30
    → drop offset stream ≡ b ∷ bs
    → der_object_size stream offset ≡ ok 0
unfolding der_object_size
der_object_size-IsPadding stream offset b [] other ahead =
    let fits = ahead_fits stream offset (b ∷ []) [] ahead (omega arith) in
    let small : ltb (length stream) (offset + 2) ≡ true = ground (arith, fits) in rw small refl
der_object_size-IsPadding stream offset b (b' ∷ bs) other ahead =
    let fits = ahead_fits stream offset (b ∷ b' ∷ []) bs ahead (omega arith) in
    let roomy : ltb (length stream) (offset + 2) ≡ false = ground (arith, fits) in
    let tag : (b == 0x30) ≡ false = ground arith in
    rw
      (
        roomy,
        read_u8-cons stream offset b _ ahead,
        read_u8-cons stream (offset + 1) b' _ (drop-at_cons stream offset b _ ahead),
        tag,
      )
      refl

abbrev pub put_chain : List Bytes → Bytes → Bytes
put_chain [] padding = padding
put_chain (cert ∷ certs) padding = cert ++ put_chain certs padding

abbrev pub AreSequences : List Bytes → Type 0
AreSequences [] = Unit
AreSequences (cert ∷ certs) = IsSequence cert × AreSequences certs

cut_chain-put_chain :
    (room : ℕ) (stream : Bytes) (fuel : ℕ) (offset : ℕ) (certs kept : List Bytes) (padding : Bytes)
    → AreSequences certs
    → IsPadding padding
    → room + length kept ≡ max_certificates
    → room < fuel
    → drop offset stream ≡ put_chain certs padding
    → cut_chain fuel stream offset kept ≡ ok (kept ++ take room certs)
unfolding cut_chain
cut_chain-put_chain room stream zero offset certs kept padding s p r f ahead = absurd (omega arith)
cut_chain-put_chain zero stream (suc fuel) offset certs kept padding s p r f ahead =
    let full : (ltb offset (length stream) && ltb (length kept) max_certificates) ≡ false =
      ground arith in
    rw full (ap ok (sym (append-nil kept)))
cut_chain-put_chain (suc room) stream (suc fuel) offset [] kept [] s p r f ahead =
    let over : (ltb offset (length stream) && ltb (length kept) max_certificates) ≡ false =
      ground (arith, ap length ahead, length-drop offset stream) in
    rw over (ap ok (sym (append-nil kept)))
cut_chain-put_chain (suc room) stream (suc fuel) offset [] kept (b ∷ bs) s p r f ahead =
    let fits = ahead_fits stream offset (b ∷ []) bs ahead (omega arith) in
    let more : (ltb offset (length stream) && ltb (length kept) max_certificates) ≡ true =
      ground (arith, fits) in
    rw (more, der_object_size-IsPadding stream offset b bs p ahead) (ap ok (sym (append-nil kept)))
cut_chain-put_chain (suc room) stream (suc fuel) offset (cert ∷ certs) kept padding (s, ss) p r f
      ahead =
    let rest = put_chain certs padding in
    let wide = length-IsSequence s in
    let fits = ahead_fits stream offset cert rest ahead (omega (arith, wide)) in
    let more : (ltb offset (length stream) && ltb (length kept) max_certificates) ≡ true =
      ground (arith, fits, wide) in
    let some_size : (length cert == 0) ≡ false = ground (arith, wide) in
    let behind : drop (offset + length cert) stream ≡ rest =
      sym (drop-drop offset (length cert) (offset + length cert) stream refl)
      ∙ ap (λ (xs : Bytes). drop (length cert) xs) ahead
      ∙ drop-append cert rest (length cert) refl in
    rw
      (
        more,
        der_object_size-IsSequence stream offset rest s ahead,
        some_size,
        slice-ahead stream offset cert rest ahead (omega (arith, wide)),
        cut_chain-put_chain room stream fuel (offset + length cert) certs (kept ++ cert ∷ [])
            padding ss p (omega (arith, r, length-append kept (cert ∷ []))) (omega arith) behind,
      )
      (ap ok (append_assoc kept (cert ∷ []) (take room certs)))

-- From the start of the stream.
pub cut_chain-take :
    (certs : List Bytes) (padding : Bytes)
    → AreSequences certs
    → IsPadding padding
    → cut_chain 9 (put_chain certs padding) 0 [] ≡ ok (take max_certificates certs)
cut_chain-take certs padding s p =
    cut_chain-put_chain 8 (put_chain certs padding) 9 0 certs [] padding s p refl (omega arith) refl
