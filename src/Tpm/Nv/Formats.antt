-- ===== src/Tpm/Nv/Formats.antt =====
-- The responses to the two NV commands as the TPM 2.0 specification lays them out, and their readers
-- (src/tpm/tpm_commands.cpp).
use sdk_windows.Prelude.{
  ℕ, ◌+◌, ◌<◌, ◌≡◌, refl, sym, ◌∙◌, arith, false, ◌||◌, ◌++◌, Bytes, length, length-append, drop,
  drop-drop, drop-append, ok, ltb, ◌==◌,
}
use sdk_windows.Wire.{write_u16, write_u32, u16_mod}
use sdk_windows.Wire.Reads.{read_u16-write_u16, slice-ahead}
use sdk_windows.Tpm.{success}
use sdk_windows.Tpm.Nv.Der.{parse_nv_public, parse_nv_buffer}

-- The response to a TPM2_NV_Read that succeeds: the header, parameterSize, the data as a
-- TPM2B_MAX_NV_BUFFER, and the authorization area.
abbrev pub nv_read_reply : Bytes → Bytes → Bytes
nv_read_reply contents auth =
    write_u16 0x8002
    ++ (write_u32 (16 + length contents + length auth)
        ++ (write_u32 0
            ++ (write_u32 (2 + length contents)
                ++ (write_u16 (length contents) ++ (contents ++ auth)))))

-- The response to a TPM2_NV_ReadPublic that succeeds: the header, the TPM2B_NV_PUBLIC (nvIndex,
-- nameAlg, attributes, authPolicy, dataSize), and the name.
abbrev pub nv_public_reply : ℕ → ℕ → ℕ → Bytes → ℕ → Bytes → Bytes
nv_public_reply index name_alg attributes policy data_size name =
    write_u16 0x8001
    ++ (write_u32 (26 + length policy + length name)
        ++ (write_u32 0
            ++ (write_u16 (14 + length policy)
                ++ (write_u32 index
                    ++ (write_u16 name_alg
                        ++ (write_u32 attributes
                            ++ (write_u16 (length policy)
                                ++ (policy ++ (write_u16 data_size ++ name)))))))))

pub parse_nv_buffer-reply :
    (contents auth : Bytes)
    → 0 < length contents
    → length contents < u16_mod
    → parse_nv_buffer (nv_read_reply contents auth) ≡ ok (success contents)
unfolding parse_nv_buffer write_u16 write_u32
parse_nv_buffer-reply contents auth h fits =
    let resp = nv_read_reply contents auth in
    let wide = length-append contents auth in
    let a : ltb (length resp) 16 ≡ false = ground arith in
    let b : (length contents == 0 || ltb (length resp) (16 + length contents)) ≡ false =
      ground (arith, wide) in
    rw
      (
        a,
        read_u16-write_u16 resp 14 (length contents) (contents ++ auth) refl fits,
        b,
        slice-ahead resp 16 contents auth refl h,
      )
      refl

pub parse_nv_public-reply :
    (index name_alg attributes : ℕ) (policy : Bytes) (data_size : ℕ) (name : Bytes)
    → 14 + length policy < u16_mod
    → 0 < data_size
    → data_size < u16_mod
    → parse_nv_public (nv_public_reply index name_alg attributes policy data_size name)
      ≡ ok (success data_size)
unfolding parse_nv_public write_u16 write_u32
parse_nv_public-reply index name_alg attributes policy data_size name h some_data fits =
    let resp = nv_public_reply index name_alg attributes policy data_size name in
    let wide = length-append policy (write_u16 data_size ++ name) in
    let n = length policy in
    let a : ltb (length resp) 12 ≡ false = ground (arith, wide) in
    let b : (ltb (length resp) (12 + (14 + n)) || ltb (length resp) 24) ≡ false =
      ground (arith, wide) in
    let c : ltb (length resp) (24 + n + 2) ≡ false = ground (arith, wide) in
    let d : (data_size == 0) ≡ false = ground arith in
    let behind : drop (24 + n) resp ≡ write_u16 data_size ++ name =
      sym (drop-drop 24 n (24 + n) resp refl)
      ∙ drop-append policy (write_u16 data_size ++ name) n refl in
    rw
      (
        a,
        read_u16-write_u16 resp 10 (14 + n) _ refl h,
        b,
        read_u16-write_u16 resp 22 n _ refl (omega arith),
        c,
        read_u16-write_u16 resp (24 + n) data_size name behind fits,
        d,
      )
      refl
