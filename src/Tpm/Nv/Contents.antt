-- ===== src/Tpm/Nv/Contents.antt =====
-- `ReadNvData` (src/tpm/tpm_commands.cpp) on a TPM that has the index.
use sdk_windows.Prelude.{
  Returns-weaken, ◌⊎◌, ◌≢◌, ℕ, zero, suc, ◌+◌, ◌%◌, ◌≤◌, ◌<◌, ◌≡◌, refl, ap, arith, true, false, [],
  ◌∷◌, ◌++◌, Bytes, length, length-take, length-drop, take, drop, take_all, ok, Returns, returns,
  ltb, ◌==◌, Bool-cases, inl, inr,
}
use sdk_windows.Wire.{read_u32, write_u16, write_u32, u16_mod, u32_mod}
use sdk_windows.Wire.Reads.{read_u32-write_u32}
use sdk_windows.Tpm.{Tbs, Tpm, replied, Result, success, failure, hr_from_tpm_rc}
use sdk_windows.Tpm.Marshal.{patch_size, nv_read_public_command, nv_read_command}
use sdk_windows.Tpm.Commands.{answer, send_command, transact}
use sdk_windows.Tpm.Commands.Errors.{error_reply}
use sdk_windows.Tpm.Nv.Formats.{
  nv_read_reply, nv_public_reply, parse_nv_buffer-reply, parse_nv_public-reply,
}
use sdk_windows.Tpm.Nv.{chunk, want_of, read_chunk, finish, nv_loop, read_nv_data}

take-drop : (m n k : ℕ) (xs : Bytes) → k ≡ m + n → take m xs ++ take n (drop m xs) ≡ take k xs
take-drop zero n k xs e = ap (λ (j : ℕ). take j xs) (omega arith)
take-drop (suc m) n zero xs e = absurd (omega arith)
take-drop (suc m) zero (suc k) [] e = refl
take-drop (suc m) (suc n) (suc k) [] e = refl
take-drop (suc m) n (suc k) (x ∷ xs) e = ap (◌∷◌ x) (take-drop m n k xs (omega arith))

-- What a response with the code TPM_RC_SUCCESS gives to an operation.
abbrev IsAnswer : ℕ → Bytes → Type 0
IsAnswer min resp = (min ≤ length resp) × (read_u32 resp 6 ≡ ok 0)

module _ {tbs : Tbs} where
  transact-answer :
      (min : ℕ) (cmd : Bytes) (t : Tpm tbs) (resp : Bytes) (d : tbs.Device)
      → t.is_open ≡ true
      → tbs.submit t.device (patch_size cmd) ≡ (replied resp, d)
      → IsAnswer min resp
      → transact min cmd t ≡ ok (success resp, record { is_open = true; device = d })
  unfolding transact send_command answer
  transact-answer min cmd t resp d h e (long, good) =
      let a : ltb (length resp) min ≡ false = ground arith in rw (h, e, a, good) refl

  pub transact-refusal :
      (rc : ℕ) (cmd : Bytes) (t : Tpm tbs) (d : tbs.Device)
      → rc < u32_mod
      → rc ≢ 0
      → t.is_open ≡ true
      → tbs.submit t.device (patch_size cmd) ≡ (replied (error_reply rc), d)
      → transact 10 cmd t ≡ ok (failure (hr_from_tpm_rc rc), record { is_open = true; device = d })
  unfolding transact send_command answer write_u16 write_u32
  transact-refusal rc cmd t d fits some_error h e =
      let code : read_u32 (error_reply rc) 6 ≡ ok rc =
        read_u32-write_u32 (error_reply rc) 6 rc [] refl fits in
      let bad : (rc == 0) ≡ false = ground arith in rw (h, e, code, bad) refl

-- A TPM that has the index: it answers TPM2_NV_ReadPublic with the size of the contents, and
-- TPM2_NV_Read with what was asked for inside the contents, up to `limit` bytes (the TPM's
-- MAX_NV_BUFFER_SIZE, of which the specification's floor is 512); where more is asked for, it answers
-- with an error.
pub record Serves (tbs : Tbs) (index limit : ℕ) (contents : Bytes) : Type 0 where
  pub name_alg : ℕ
  pub attributes : ℕ
  pub policy : Bytes
  pub name : Bytes
  pub auth : Bytes
  pub refusal : ℕ
  pub refusal_fits : refusal < u32_mod
  pub refusal_error : refusal ≢ 0
  pub policy_fits : 14 + length policy < u16_mod
  pub public_served :
      (d : tbs.Device)
      → (d' : tbs.Device) × (tbs.submit d (patch_size (nv_read_public_command index))
          ≡ (replied (nv_public_reply index name_alg attributes policy (length contents) name), d'))
  pub read_served :
      (d : tbs.Device) (want offset : ℕ)
      → 0 < want
      → want ≤ chunk
      → want ≤ limit
      → offset + want ≤ length contents
      → (d' : tbs.Device) × (tbs.submit d (patch_size (nv_read_command index want offset))
          ≡ (replied (nv_read_reply (take want (drop offset contents)) auth), d'))
  pub read_refused :
      (d : tbs.Device) (want offset : ℕ)
      → limit < want
      → want ≤ chunk
      → offset + want ≤ length contents
      → (d' : tbs.Device) × (tbs.submit d (patch_size (nv_read_command index want offset))
          ≡ (replied (error_reply refusal), d'))

-- Every chunk is within the TPM's limit.
abbrev pub Fits : ℕ → Bytes → Type 0
Fits limit contents = (length contents ≤ limit) ⊎ (chunk ≤ limit)

module _ {tbs : Tbs} {index limit : ℕ} {contents : Bytes}
    (served : Serves tbs index limit contents) where
  abbrev IsRead : Result Bytes × Tpm tbs → Type 0
  IsRead out = (out.0 ≡ success contents) × (out.1.is_open ≡ true)

  read_chunk-take :
      (want offset : ℕ) (t : Tpm tbs)
      → t.is_open ≡ true
      → 0 < want
      → want ≤ chunk
      → want ≤ limit
      → offset + want ≤ length contents
      → (t' : Tpm tbs) × (read_chunk index want offset t
          ≡ ok (success (take want (drop offset contents)), t'))
        × (t'.is_open ≡ true)
  unfolding read_chunk write_u16 write_u32
  read_chunk-take want offset t h some_want small allowed inside =
      let got = take want (drop offset contents) in
      let (d, sent) = served.read_served t.device want offset some_want small allowed inside in
      let resp = nv_read_reply got served.auth in
      let width : length got ≡ want =
        omega (arith, length-take want (drop offset contents), length-drop offset contents) in
      let good : read_u32 resp 6 ≡ ok 0 = read_u32-write_u32 resp 6 0 _ refl (omega arith) in
      let answered =
        transact-answer 10 (nv_read_command index want offset) t resp d h sent
          (omega arith, good) in
      let parsed_reply =
        parse_nv_buffer-reply got served.auth (omega (arith, width)) (omega (arith, width)) in
      (record { is_open = true; device = d }, rw (answered, parsed_reply) refl, refl)

  -- The state of the loop: the first `offset` bytes are read.
  nv_loop-contents :
      (fuel offset : ℕ) (t : Tpm tbs)
      → t.is_open ≡ true
      → Fits limit contents
      → 0 < length contents
      → length contents < u16_mod
      → offset ≤ length contents
      → length contents < fuel + offset
      → Returns IsRead (nv_loop fuel index (length contents) offset (take offset contents) t)
  unfolding nv_loop
  nv_loop-contents zero offset t h narrow some_data fits inside enough = absurd (omega arith)
  nv_loop-contents (suc fuel) offset t h narrow some_data fits inside enough =
      elim (Bool-cases (ltb offset (length contents))) [
        | inr over ↦
            let whole : take offset contents ≡ contents = take_all contents offset (ground arith) in
            rw (over, whole) (finish-contents contents t h some_data)
        | inl more ↦
            let n = length contents in
            let want = want_of n offset in
            let asked : (0 < want) × (want ≤ chunk) × (offset + want ≤ n) = ground arith in
            let allowed : want ≤ limit = elim narrow [
              | inl f ↦ omega (arith, asked.2)
              | inr f ↦ omega (arith, asked.1)
            ] in
            let (t', read, h') = read_chunk-take want offset t h asked.0 asked.1 allowed asked.2 in
            let got = take want (drop offset contents) in
            let width : length got ≡ want =
              omega (arith, length-take want (drop offset contents), length-drop offset contents) in
            let next : (offset + length got) % u16_mod ≡ offset + want =
              omega (arith, width, asked.2) in
            let grown : take offset contents ++ got ≡ take (offset + want) contents =
              take-drop offset want (offset + want) contents refl in
            rw (more, read, next, grown)
              (nv_loop-contents fuel (offset + want) t' h' narrow some_data fits asked.2
                (omega (arith, asked.0)))
      ]
    where
      finish-contents :
          (c : Bytes) (t : Tpm tbs)
          → t.is_open ≡ true
          → 0 < length c
          → Returns
              (λ (out : Result Bytes × Tpm tbs). (out.0 ≡ success c) × (out.1.is_open ≡ true))
              (finish c t)
      finish-contents [] t h k = absurd (omega arith)
      finish-contents (b ∷ bs) t h k = returns (refl, h)

  nv_loop-refused :
      (fuel : ℕ) (t : Tpm tbs)
      → t.is_open ≡ true
      → limit < length contents
      → limit < chunk
      → length contents < u16_mod
      → Returns
          (λ (out : Result Bytes × Tpm tbs). out.0 ≡ failure (hr_from_tpm_rc served.refusal))
          (nv_loop (suc fuel) index (length contents) 0 [] t)
  unfolding nv_loop read_chunk
  nv_loop-refused fuel t h wide wider fits =
      let n = length contents in
      let want = want_of n 0 in
      let asked : (limit < want) × (want ≤ chunk) × (0 + want ≤ n) = ground arith in
      let more : ltb 0 n ≡ true = ground arith in
      let (d, sent) = served.read_refused t.device want 0 asked.0 asked.1 asked.2 in
      let refused =
        transact-refusal served.refusal (nv_read_command index want 0) t d served.refusal_fits
          served.refusal_error h sent in
      rw (more, refused) (returns refl)

  -- What `ReadNvData` gives, by the TPM's limit.
  pub data IsAnswered : Result Bytes → Type 0 where
    whole : Fits limit contents → IsAnswered (success contents)
    too_wide :
        limit < length contents
        → limit < chunk
        → IsAnswered (failure (hr_from_tpm_rc served.refusal))

  public_size :
      (t : Tpm tbs)
      → t.is_open ≡ true
      → 0 < length contents
      → length contents < u16_mod
      → (t' : Tpm tbs) × (t'.is_open ≡ true)
        × (read_nv_data u16_mod index t ≡ nv_loop u16_mod index (length contents) 0 [] t')
  unfolding read_nv_data write_u16 write_u32
  public_size t h some_data fits =
      let (d, sent) = served.public_served t.device in
      let resp =
        nv_public_reply index served.name_alg served.attributes served.policy (length contents)
          served.name in
      let good : read_u32 resp 6 ≡ ok 0 = read_u32-write_u32 resp 6 0 _ refl (omega arith) in
      let answered =
        transact-answer 10 (nv_read_public_command index) t resp d h sent (omega arith, good) in
      let parsed_reply =
        parse_nv_public-reply index served.name_alg served.attributes served.policy
          (length contents) served.name served.policy_fits some_data fits in
      (record { is_open = true; device = d }, refl, rw (answered, parsed_reply) refl)

  pub read_nv_data-IsRead :
      (t : Tpm tbs)
      → t.is_open ≡ true
      → Fits limit contents
      → 0 < length contents
      → length contents < u16_mod
      → Returns IsRead (read_nv_data u16_mod index t)
  read_nv_data-IsRead t h narrow some_data fits =
      let (t', h', sized) = public_size t h some_data fits in
      rw sized (nv_loop-contents u16_mod 0 t' h' narrow some_data fits (omega arith) (omega arith))

  -- `ReadNvData` on a TPM that has the index, with at least 1 byte and less than 65536, and that answers
  -- reads of up to `limit` bytes and refuses longer ones. Where the limit is at least 1024, or the contents are within it, the call
  -- returns the contents, all of them and nothing else, in chunks of up to 1024 bytes. On a TPM with a
  -- lower limit an index above it is not read at all: the call fails with the HRESULT of the TPM's error.
  -- In both cases the rounds are enough.
  pub read_nv_data-contents :
      (t : Tpm tbs)
      → t.is_open ≡ true
      → 0 < length contents
      → length contents < u16_mod
      → Returns (λ (out : Result Bytes × Tpm tbs). IsAnswered out.0) (read_nv_data u16_mod index t)
  read_nv_data-contents t h some_data fits = elim (Bool-cases (ltb limit (length contents))) [
    | inr e ↦ given (inl (ground arith))
    | inl e ↦ elim (Bool-cases (ltb limit chunk)) [
      | inr f ↦ given (inr (ground arith))
      | inl f ↦
          let (t', h', sized) = public_size t h some_data fits in
          rw sized (
            Returns-weaken (λ out r. rw r (too_wide (ground arith) (ground arith)))
              (nv_loop-refused 65535 t' h' (ground arith) (ground arith) fits))
    ]
  ]
    where
      given :
          Fits limit contents
          → Returns
              (λ (out : Result Bytes × Tpm tbs). IsAnswered out.0)
              (read_nv_data u16_mod index t)
      given narrow =
          Returns-weaken (λ out r. rw r.0 (whole narrow))
            (read_nv_data-IsRead t h narrow some_data fits)
