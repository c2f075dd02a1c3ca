-- ===== src/Tpm/Nv/Safety.antt =====
-- The outcomes of the NV reads of src/tpm/tpm_commands.cpp.
use sdk_windows.Prelude.{
  ℕ, zero, suc, ◌+◌, ◌-◌, ◌*◌, ◌/◌, ◌%◌, ◌≤◌, ◌<◌, ◌≡◌, arith, ◌&&◌, ◌||◌, List, [], ◌∷◌, ◌++◌,
  Bytes, length, length-append, ok, Returns, returns, Returns->>=, Returns-eq_ok, ltb, leb, ◌==◌,
  if◌then◌else◌, not,
}
use sdk_windows.Wire.{read_u16, u16_mod}
use sdk_windows.Wire.Reads.{read_u8-Returns, read_u16-Returns, slice-Returns}
use sdk_windows.Tpm.{Tbs, Tpm}
use sdk_windows.Tpm.Marshal.{nv_read_public_command, nv_read_command}
use sdk_windows.Tpm.Safety.{
  failing, Ensures, Ensures->>=, Ensures-if, Ensures-return, Reads, read, refuses, Ensures-parsed,
  AllReplies, transact-Answers, transact-Ensures, malformed, if-Returns,
}
use sdk_windows.Tpm.Nv.Der.{
  parse_nv_public, parse_nv_buffer, long_length, long_form, der_object_size,
}
use sdk_windows.Tpm.Nv.Cut.{cut_chain, max_certificates}
use sdk_windows.Tpm.Nv.{
  chunk, want_of, read_chunk, finish, nv_loop, read_nv_data, collect_slots,
  read_intel_odca_intermediates,
}

-- The size field of the data is at most what was asked for.
abbrev pub IsBounded : ℕ → Bytes → Type 0
IsBounded want resp = (n : ℕ) → read_u16 resp 14 ≡ ok n → n ≤ want

-- TPM 2.0 Library, TPM2_NV_Read: no more than `size` bytes are returned.
pub record BoundedReads (tbs : Tbs) : Type 0 where
  pub bounded :
      (index want offset : ℕ)
      → want ≤ chunk
      → AllReplies tbs (IsBounded want) (nv_read_command index want offset)

parse_nv_public-Reads :
    (resp : Bytes)
    → Returns (Reads (λ (size : ℕ). (0 < size) × (size < u16_mod))) (parse_nv_public resp)
unfolding parse_nv_public
parse_nv_public-Reads resp =
    if-Returns (ltb (length resp) 12) (λ _. returns (refuses malformed))
      λ a. Returns->>= (read_u16-Returns resp 10 (ground arith)) λ public_size _.
        if-Returns (ltb (length resp) (12 + public_size) || ltb (length resp) 24)
          (λ _. returns (refuses malformed))
          λ b. Returns->>= (read_u16-Returns resp 22 (ground arith)) λ policy_size _.
            if-Returns (ltb (length resp) (24 + policy_size + 2)) (λ _. returns (refuses malformed))
              λ c.
                Returns->>= (read_u16-Returns resp (24 + policy_size) (ground arith)) λ size fits.
                  if-Returns (size == 0) (λ _. returns (refuses malformed))
                    λ d. returns (read (ground arith, fits))

parse_nv_buffer-Reads :
    (want : ℕ) (resp : Bytes)
    → IsBounded want resp
    → Returns
        (Reads (λ (got : Bytes). (0 < length got) × (length got ≤ want)))
        (parse_nv_buffer resp)
unfolding parse_nv_buffer
parse_nv_buffer-Reads want resp bounded =
    if-Returns (ltb (length resp) 16) (λ _. returns (refuses malformed))
      λ a.
        let (n, e, h) = Returns-eq_ok (read_u16-Returns resp 14 (ground arith)) in
        rw e (
          if-Returns (n == 0 || ltb (length resp) (16 + n)) (λ _. returns (refuses malformed))
            λ b. Returns->>= (slice-Returns resp 16 n (ground arith)) λ got whole.
              let small : n ≤ want = bounded n e in returns (read (ground arith, omega arith)))

module _ {tbs : Tbs} (reads : BoundedReads tbs) where
  read_chunk-Ensures :
      (index want offset : ℕ)
      → want ≤ chunk
      → Ensures {tbs = tbs}
          (λ (got : Bytes). (0 < length got) × (length got ≤ want))
          (read_chunk index want offset)
  unfolding read_chunk
  read_chunk-Ensures index want offset small =
      Ensures->>=
        (transact-Answers (IsBounded want) 10 (nv_read_command index want offset) (omega arith)
          (reads.bounded index want offset small))
        λ resp (long, bounded). Ensures-parsed (parse_nv_buffer-Reads want resp bounded)

  finish-Ensures : (all : Bytes) → Ensures {tbs = tbs} (λ (a : Bytes). Unit {0}) (finish all)
  unfolding finish
  finish-Ensures [] = record { run = λ t. returns (failing malformed) }
  finish-Ensures (b ∷ bs) = Ensures-return tt

  nv_loop-Ensures :
      (fuel index data_size offset : ℕ) (contents : Bytes)
      → data_size < u16_mod
      → offset ≤ data_size
      → data_size - offset < fuel
      → Ensures {tbs = tbs}
          (λ (all : Bytes). Unit {0})
          (nv_loop fuel index data_size offset contents)
  unfolding nv_loop
  nv_loop-Ensures zero index data_size offset contents small inside enough = absurd (omega arith)
  nv_loop-Ensures (suc fuel) index data_size offset contents small inside enough =
      Ensures-if (ltb offset data_size)
        (λ e.
          let open_end : offset < data_size = ground arith in
          let want = want_of data_size offset in
          let fits : want ≤ chunk = ground arith in
          let inner : want ≤ data_size - offset = ground arith in
          Ensures->>= (read_chunk-Ensures index want offset fits) λ got (some_bytes, few).
            let next : (offset + length got) % u16_mod ≡ offset + length got = omega arith in
            nv_loop-Ensures fuel index data_size ((offset + length got) % u16_mod) (contents ++ got)
              small (omega arith) (omega arith))
        (λ _. finish-Ensures contents)

  read_nv_data-Ensures :
      (index : ℕ) → Ensures {tbs = tbs} (λ (all : Bytes). Unit {0}) (read_nv_data u16_mod index)
  unfolding read_nv_data
  read_nv_data-Ensures index =
      Ensures->>= (transact-Ensures 10 (nv_read_public_command index) (omega arith)) λ resp _.
        Ensures->>= (Ensures-parsed (parse_nv_public-Reads resp)) λ size (some_bytes, small).
          nv_loop-Ensures u16_mod index size 0 [] small (omega arith) (omega arith)

  collect_slots-Returns :
      (n i : ℕ) (stream : Bytes) (t : Tpm tbs)
      → Returns (λ (r : Bytes × Tpm tbs). Unit {0}) (collect_slots n i stream t)
  unfolding collect_slots
  collect_slots-Returns zero i stream t = returns tt
  collect_slots-Returns (suc n) i stream t =
      Returns->>= ((read_nv_data-Ensures (0x01C00100 + i)).run t)
        λ (r, t') _. collect_slots-Returns n (i + 1) _ t'

-- The scan of a length, and what it measures.
long_length-Returns :
    (n : ℕ) (stream : Bytes) (at total : ℕ)
    → at + n ≤ length stream
    → Returns (λ (size : ℕ). Unit {0}) (long_length n stream at total)
unfolding long_length
long_length-Returns zero stream at total h = returns tt
long_length-Returns (suc n) stream at total h =
    Returns->>= (read_u8-Returns stream at (omega arith))
      λ b _. long_length-Returns n stream (at + 1) (total * 256 + b) (omega arith)

-- An object that is measured stands inside the stream.
abbrev Fits : Bytes → ℕ → ℕ → Type 0
Fits stream offset size = offset + size ≤ length stream

fitting-Fits :
    (stream : Bytes) (offset total : ℕ)
    → offset ≤ length stream
    → Fits stream offset (if leb (offset + total) (length stream) then total else 0)
fitting-Fits stream offset total h = ground arith

der_object_size-Returns :
    (stream : Bytes) (offset : ℕ)
    → offset ≤ length stream
    → Returns (Fits stream offset) (der_object_size stream offset)
unfolding der_object_size long_form
der_object_size-Returns stream offset h =
    if-Returns (ltb (length stream) (offset + 2)) (λ _. returns (omega arith))
      λ a. Returns->>= (read_u8-Returns stream offset (ground arith)) λ tag _.
        Returns->>= (read_u8-Returns stream (offset + 1) (ground arith)) λ b _.
          if-Returns (not (tag == 0x30)) (λ _. returns (omega arith))
            λ _.
              if-Returns (b / 128 % 2 == 0) (λ _. returns (fitting-Fits stream offset (2 + b) h))
                λ _.
                  if-Returns (b % 128 == 0 || ltb 4 (b % 128)) (λ _. returns (omega arith))
                    λ _.
                      if-Returns (ltb (length stream) (offset + 2 + b % 128))
                        (λ _. returns (omega arith))
                        λ c.
                          Returns->>=
                            (long_length-Returns (b % 128) stream (offset + 2) 0 (ground arith))
                            λ size _. returns (fitting-Fits stream offset (2 + b % 128 + size) h)

cut_chain-Returns :
    (fuel : ℕ) (stream : Bytes) (offset : ℕ) (certificates : List Bytes)
    → offset ≤ length stream
    → length certificates ≤ max_certificates
    → max_certificates < fuel + length certificates
    → Returns
        (λ (cut : List Bytes). length cut ≤ max_certificates)
        (cut_chain fuel stream offset certificates)
unfolding cut_chain
cut_chain-Returns zero stream offset certificates h few enough = absurd (omega arith)
cut_chain-Returns (suc fuel) stream offset certificates h few enough =
    if-Returns (ltb offset (length stream) && ltb (length certificates) max_certificates)
      (λ e. Returns->>= (der_object_size-Returns stream offset h) λ size fits.
        if-Returns (size == 0) (λ _. returns few)
          λ _. Returns->>= (slice-Returns stream offset size fits) λ cert _.
            let room : length certificates < max_certificates = ground arith in
            let longer = length-append certificates (cert ∷ []) in
            cut_chain-Returns fuel stream (offset + size) (certificates ++ cert ∷ []) fits
              (omega (arith, longer)) (omega (arith, longer)))
      (λ _. returns few)

-- On a TPM that returns at most as many bytes as a TPM2_NV_Read asks for, ReadIntelOdcaIntermediates
-- ends, whatever else the TPM answers: the rounds of ReadNvData are enough for each of the 16 indices,
-- no read leaves a response or the stream, and at most 8 certificates are returned.
pub read_intel_odca_intermediates-Returns :
    (tbs : Tbs)
    → BoundedReads tbs
    → (t : Tpm tbs)
    → Returns
        (λ (r : List Bytes × Tpm tbs). length r.0 ≤ max_certificates)
        (read_intel_odca_intermediates [] t)
unfolding read_intel_odca_intermediates
read_intel_odca_intermediates-Returns tbs reads t =
    Returns->>= (collect_slots-Returns reads 16 0 [] t) λ (stream, t') _.
      Returns->>= (cut_chain-Returns 9 stream 0 [] (omega arith) (omega arith) (omega arith))
        λ cut few. returns few
