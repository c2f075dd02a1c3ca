-- ===== src/Tests/Nv.antt =====
-- TPMs with NV indices (src/tpm/tpm_commands.cpp).
use sdk_windows.Prelude.{
  ℕ, ◌+◌, ◌*◌, ◌/◌, ◌%◌, ◌≡◌, refl, arith, true, false, inr, List, ◌++◌, [], ◌∷◌, Bytes, length,
  take, drop, replicate, Returns, ltb, ◌==◌, if◌then◌else◌,
}
use sdk_windows.Wire.{u16_mod, write_u16, write_u32}
use sdk_windows.Tpm.{Tbs, Tpm, replied, Result}
use sdk_windows.Tpm.Marshal.{
  nv_read_command, nv_read_public_command, patch_size, begin_command, write_password_auth,
}
use sdk_windows.Tpm.Nv.{read_nv_data, read_intel_odca_intermediates}
use sdk_windows.Tpm.Nv.Cut.RoundTrip.{short, long, AreSequences}
use sdk_windows.Tpm.Nv.Formats.{nv_read_reply, nv_public_reply}
use sdk_windows.Tpm.Nv.Contents.{Serves, IsAnswered, read_nv_data-contents}
use sdk_windows.Tpm.Nv.Slots.{HasSlots, defined, undefined, read_intel_odca_intermediates-take}
use sdk_windows.Tpm.Commands.Errors.{error_reply}

-- A TPM with 1500 bytes in every NV index. It reads the size and the offset of a TPM2_NV_Read from
-- the command.
abbrev nv_contents : Bytes
nv_contents = replicate 1500 7

abbrev nv_chunk_of : Bytes → Bytes
nv_chunk_of (wh ∷ wl ∷ oh ∷ ol ∷ _) = take (wh * 256 + wl) (drop (oh * 256 + ol) nv_contents)
nv_chunk_of _ = []

abbrev nv_want_of : Bytes → ℕ
nv_want_of (wh ∷ wl ∷ _) = wh * 256 + wl
nv_want_of _ = 0

abbrev nv_response : Bytes → Bytes
nv_response cmd =
    if ltb (length cmd) 15
    then nv_public_reply 0x01C00100 0x000B 0x62040001 [] 1500 []
    else if ltb 1024 (nv_want_of (drop 31 cmd))
    then error_reply 0x0C4
    else nv_read_reply (nv_chunk_of (drop 31 cmd)) []

abbrev nv_tbs : Tbs
nv_tbs = record {
  Device = ℕ;
  submit = λ d cmd. (replied (nv_response cmd), d + 1);
  create_context = λ d. (0, d);
  close_context = λ d. d;
}

nv_tbs-Serves : Serves nv_tbs 0x01C00100 1024 nv_contents
unfolding nv_read_command nv_read_public_command patch_size begin_command write_password_auth
    write_u16 write_u32
nv_tbs-Serves = record {
  name_alg = 0x000B;
  attributes = 0x62040001;
  policy = [];
  name = [];
  auth = [];
  refusal = 0x0C4;
  refusal_fits = omega arith;
  refusal_error = λ e. omega (arith, e);
  policy_fits = omega arith;
  public_served = λ d. (d + 1, refl);
  read_served = λ d want offset some_want small allowed inside.
      let w : want / 256 % 256 * 256 + want % 256 ≡ want = omega arith in
      let o : offset / 256 % 256 * 256 + offset % 256 ≡ offset = omega arith in
      let e : ltb 1024 want ≡ false = ground arith in (d + 1, rw (w, o, e) refl);
  read_refused = λ d want offset wide small inside. absurd (omega arith);
}

read_nv_data-contents_example :
    Returns
      (λ (out : Result Bytes × Tpm nv_tbs). IsAnswered nv_tbs-Serves out.0)
      (read_nv_data u16_mod 0x01C00100 (record { is_open = true; device = 0 }))
read_nv_data-contents_example =
    read_nv_data-contents nv_tbs-Serves (record { is_open = true; device = 0 }) refl (omega arith)
      (omega arith)

-- Two certificates, the first with one length byte and the second with two, and padding.
abbrev small_certificate : Bytes
small_certificate = 0x30 ∷ 2 ∷ 5 ∷ 0 ∷ []

abbrev large_certificate : Bytes
large_certificate = 0x30 ∷ 0x82 ∷ 1 ∷ 4 ∷ replicate 260 9

certificates-AreSequences : AreSequences (small_certificate ∷ large_certificate ∷ [])
certificates-AreSequences = (
  short (5 ∷ 0 ∷ []) (omega arith),
  (long (1 ∷ 4 ∷ []) (replicate 260 9) (omega arith) (omega arith) refl, tt),
)

-- A TPM with two of the indices, between which the second certificate is split.
abbrev slot_contents : ℕ → Bytes
slot_contents i =
    if i == 0
    then small_certificate ++ (0x30 ∷ 0x82 ∷ 1 ∷ 4 ∷ replicate 100 9)
    else if i == 1
    then replicate 160 9 ++ (0xFF ∷ 0xFF ∷ [])
    else []

abbrev slot_chunk_of : Bytes → Bytes → Bytes
slot_chunk_of contents (wh ∷ wl ∷ oh ∷ ol ∷ _) =
    take (wh * 256 + wl) (drop (oh * 256 + ol) contents)
slot_chunk_of contents _ = []

abbrev slot_response : Bytes → ℕ → Bytes → Bytes
slot_response [] i cmd = error_reply 0x18B
slot_response (b ∷ bs) i cmd =
    if ltb (length cmd) 15
    then nv_public_reply (0x01C00100 + i) 0x000B 0x62040001 [] (length (b ∷ bs)) []
    else if ltb 1024 (nv_want_of (drop 31 cmd))
    then error_reply 0x0C4
    else nv_read_reply (slot_chunk_of (b ∷ bs) (drop 31 cmd)) []

-- The last byte of the index in a command.
abbrev slot_of : Bytes → ℕ
slot_of (i ∷ _) = i
slot_of _ = 0

abbrev slots_tbs : Tbs
slots_tbs = record {
  Device = ℕ;
  submit = λ d cmd. (
    replied (slot_response (slot_contents (slot_of (drop 13 cmd))) (slot_of (drop 13 cmd)) cmd),
    d,
  );
  create_context = λ d. (0, d);
  close_context = λ d. d;
}

slots_tbs-Serves_first : Serves slots_tbs (0x01C00100 + 0) 1024 (slot_contents 0)
unfolding nv_read_command nv_read_public_command patch_size begin_command write_password_auth
    write_u16 write_u32
slots_tbs-Serves_first = record {
  name_alg = 0x000B;
  attributes = 0x62040001;
  policy = [];
  name = [];
  auth = [];
  refusal = 0x0C4;
  refusal_fits = omega arith;
  refusal_error = λ e. omega (arith, e);
  policy_fits = omega arith;
  public_served = λ d. (d, refl);
  read_served = λ d want offset some_want small allowed inside.
      let w : want / 256 % 256 * 256 + want % 256 ≡ want = omega arith in
      let o : offset / 256 % 256 * 256 + offset % 256 ≡ offset = omega arith in
      let e : ltb 1024 want ≡ false = ground arith in (d, rw (w, o, e) refl);
  read_refused = λ d want offset wide small inside. absurd (omega arith);
}

slots_tbs-Serves_second : Serves slots_tbs (0x01C00100 + 1) 1024 (slot_contents 1)
unfolding nv_read_command nv_read_public_command patch_size begin_command write_password_auth
    write_u16 write_u32
slots_tbs-Serves_second = record {
  name_alg = 0x000B;
  attributes = 0x62040001;
  policy = [];
  name = [];
  auth = [];
  refusal = 0x0C4;
  refusal_fits = omega arith;
  refusal_error = λ e. omega (arith, e);
  policy_fits = omega arith;
  public_served = λ d. (d, refl);
  read_served = λ d want offset some_want small allowed inside.
      let w : want / 256 % 256 * 256 + want % 256 ≡ want = omega arith in
      let o : offset / 256 % 256 * 256 + offset % 256 ≡ offset = omega arith in
      let e : ltb 1024 want ≡ false = ground arith in (d, rw (w, o, e) refl);
  read_refused = λ d want offset wide small inside. absurd (omega arith);
}

abbrev slot_parts : List Bytes
slot_parts = slot_contents 0 ∷ slot_contents 1 ∷ replicate 14 []

slots_tbs-HasSlots : HasSlots slots_tbs 0 slot_parts
unfolding nv_read_public_command patch_size begin_command write_u16 write_u32
slots_tbs-HasSlots = (
  defined slots_tbs-Serves_first (inr (omega arith)) (omega arith) (omega arith),
  (
    defined slots_tbs-Serves_second (inr (omega arith)) (omega arith) (omega arith),
    (
      undefined 0x18B (omega arith) (λ e. omega (arith, e)) (λ d. (d, refl)),
      (
        undefined 0x18B (omega arith) (λ e. omega (arith, e)) (λ d. (d, refl)),
        (
          undefined 0x18B (omega arith) (λ e. omega (arith, e)) (λ d. (d, refl)),
          (
            undefined 0x18B (omega arith) (λ e. omega (arith, e)) (λ d. (d, refl)),
            (
              undefined 0x18B (omega arith) (λ e. omega (arith, e)) (λ d. (d, refl)),
              (
                undefined 0x18B (omega arith) (λ e. omega (arith, e)) (λ d. (d, refl)),
                (
                  undefined 0x18B (omega arith) (λ e. omega (arith, e)) (λ d. (d, refl)),
                  (
                    undefined 0x18B (omega arith) (λ e. omega (arith, e)) (λ d. (d, refl)),
                    (
                      undefined 0x18B (omega arith) (λ e. omega (arith, e)) (λ d. (d, refl)),
                      (
                        undefined 0x18B (omega arith) (λ e. omega (arith, e)) (λ d. (d, refl)),
                        (
                          undefined 0x18B (omega arith) (λ e. omega (arith, e)) (λ d. (d, refl)),
                          (
                            undefined 0x18B (omega arith) (λ e. omega (arith, e)) (λ d. (d, refl)),
                            (
                              undefined 0x18B (omega arith) (λ e. omega (arith, e))
                                  (λ d. (d, refl)),
                              (
                                undefined 0x18B (omega arith) (λ e. omega (arith, e))
                                    (λ d. (d, refl)),
                                tt,
                              ),
                            ),
                          ),
                        ),
                      ),
                    ),
                  ),
                ),
              ),
            ),
          ),
        ),
      ),
    ),
  ),
)

read_intel_odca_intermediates-take_example :
    Returns
      (λ (out : List Bytes × Tpm slots_tbs). out.0 ≡ small_certificate ∷ large_certificate ∷ [])
      (read_intel_odca_intermediates [] (record { is_open = true; device = 0 }))
read_intel_odca_intermediates-take_example =
    read_intel_odca_intermediates-take slots_tbs slot_parts
      (small_certificate ∷ large_certificate ∷ []) (0xFF ∷ 0xFF ∷ [])
      (record { is_open = true; device = 0 }) refl slots_tbs-HasSlots refl certificates-AreSequences
      (λ e. omega (arith, e)) refl
