-- ===== src/Tpm/Marshal.antt =====
-- The writers of src/tpm/tpm_commands.cpp and the byte streams of its commands.
pub mod Framing
use Prim.Native.Nat.{bit_or}
use sdk_windows.Prelude.{
  ℕ, zero, suc, ◌+◌, ◌*◌, ◌/◌, ◌%◌, ◌^◌, List, [], ◌∷◌, ◌++◌, Bytes, length, take, drop, replicate,
  ltb, leb, if◌then◌else◌,
}
use sdk_windows.Wire.{write_u16, write_u32, u16_mod, u32_mod}

abbrev pub tpm2_cc_pcr_read : ℕ
tpm2_cc_pcr_read = 0x0000017E

abbrev pub tpm2_cc_quote : ℕ
tpm2_cc_quote = 0x00000158

abbrev pub tpm2_cc_flush_context : ℕ
tpm2_cc_flush_context = 0x00000165

abbrev pub tpm2_cc_create_primary : ℕ
tpm2_cc_create_primary = 0x00000131

abbrev pub tpm2_cc_activate_credential : ℕ
tpm2_cc_activate_credential = 0x00000147

abbrev pub tpm2_cc_start_auth_session : ℕ
tpm2_cc_start_auth_session = 0x00000176

abbrev pub tpm2_cc_policy_secret : ℕ
tpm2_cc_policy_secret = 0x00000151

abbrev pub tpm2_cc_evict_control : ℕ
tpm2_cc_evict_control = 0x00000120

abbrev pub tpm2_cc_read_public : ℕ
tpm2_cc_read_public = 0x00000173

abbrev pub tpm2_cc_nv_read : ℕ
tpm2_cc_nv_read = 0x0000014E

abbrev pub tpm2_cc_nv_read_public : ℕ
tpm2_cc_nv_read_public = 0x00000169

abbrev pub tpm2_st_no_sessions : ℕ
tpm2_st_no_sessions = 0x8001

abbrev pub tpm2_st_sessions : ℕ
tpm2_st_sessions = 0x8002

abbrev pub tpm2_alg_sha256 : ℕ
tpm2_alg_sha256 = 0x000B

abbrev pub tpm2_alg_rsassa : ℕ
tpm2_alg_rsassa = 0x0014

abbrev pub tpm2_rh_owner : ℕ
tpm2_rh_owner = 0x40000001

abbrev pub tpm_rh_endorsement : ℕ
tpm_rh_endorsement = 0x4000000B

abbrev pub tpm_rs_pw : ℕ
tpm_rs_pw = 0x40000009

unfoldable pub write_tpm2b : Bytes → Bytes
write_tpm2b contents = write_u16 (length contents % u16_mod) ++ contents

unfoldable pub begin_command : ℕ → ℕ → Bytes
begin_command tag code = write_u16 tag ++ (write_u32 0 ++ write_u32 code)

-- One session of an authorization area with an empty nonce and HMAC and continueSession set.
abbrev session_auth : ℕ → Bytes
session_auth handle = write_u32 handle ++ (write_u16 0 ++ (0x01 ∷ write_u16 0))

unfoldable pub write_password_auth : Bytes
write_password_auth = let auth = session_auth tpm_rs_pw in write_u32 (length auth % u32_mod) ++ auth

unfoldable pub ak_public : Bytes
ak_public =
    write_u16 0x0001
    ++ (write_u16 0x000B
        ++ (write_u32 (2 ^ 1 + 2 ^ 4 + 2 ^ 5 + 2 ^ 6 + 2 ^ 16 + 2 ^ 18)
            ++ (write_u16 0
                ++ (write_u16 0x0010
                    ++ (write_u16 0x0014
                        ++ (write_u16 0x000B
                            ++ (write_u16 2048
                                ++ (write_u32 0 ++ (write_u16 256 ++ replicate 256 0)))))))))

unfoldable pub write_ak_template : Bytes
write_ak_template = write_u16 (length ak_public % u16_mod) ++ ak_public

abbrev ek_policy : Bytes
ek_policy =
    0x83 ∷ 0x71 ∷ 0x97 ∷ 0x67 ∷ 0x44 ∷ 0x84 ∷ 0xB3 ∷ 0xF8 ∷ 0x1A ∷ 0x90 ∷ 0xCC ∷ 0x8D ∷ 0x46 ∷ 0xA5
    ∷ 0xD7 ∷ 0x24 ∷ 0xFD ∷ 0x52 ∷ 0xD7 ∷ 0x6E ∷ 0x06 ∷ 0x52 ∷ 0x0B ∷ 0x64 ∷ 0xF2 ∷ 0xA1 ∷ 0xDA
    ∷ 0x1B ∷ 0x33 ∷ 0x14 ∷ 0x69 ∷ 0xAA ∷ []

unfoldable pub ek_public : Bytes
ek_public =
    write_u16 0x0001
    ++ (write_u16 0x000B
        ++ (write_u32 (2 ^ 1 + 2 ^ 4 + 2 ^ 5 + 2 ^ 7 + 2 ^ 16 + 2 ^ 17)
            ++ (write_u16 32
                ++ (ek_policy
                    ++ (write_u16 0x0006
                        ++ (write_u16 128
                            ++ (write_u16 0x0043
                                ++ (write_u16 0x0010
                                    ++ (write_u16 2048
                                        ++ (write_u32 0
                                            ++ (write_u16 256 ++ replicate 256 0)))))))))))

unfoldable pub write_ek_template : Bytes
write_ek_template = write_u16 (length ek_public % u16_mod) ++ ek_public

-- The back-patch of commandSize in `SendCommand`.
unfoldable pub patch_size : Bytes → Bytes
patch_size cmd =
    if leb 6 (length cmd)
    then take 2 cmd ++ (write_u32 (length cmd % u32_mod) ++ drop 6 cmd)
    else cmd

-- `bitmap[index / 8] |= 1 << (index % 8)` on three bytes.
or_at : Bytes → ℕ → ℕ → Bytes
or_at [] i bit = []
or_at (b ∷ bs) zero bit = bit_or b bit ∷ bs
or_at (b ∷ bs) (suc i) bit = b ∷ or_at bs i bit

unfoldable pub select_pcr : ℕ → Bytes → Bytes
unfolding or_at
select_pcr index bitmap =
    if ltb index 24 then or_at bitmap (index / 8) (2 ^ (index % 8)) else bitmap

unfoldable pub select_pcrs : List ℕ → Bytes → Bytes
select_pcrs [] bitmap = bitmap
select_pcrs (index ∷ rest) bitmap = select_pcrs rest (select_pcr index bitmap)

-- TPML_PCR_SELECTION with one SHA-256 selection.
unfoldable pub pcr_selection : Bytes → Bytes
pcr_selection bitmap = write_u32 1 ++ (write_u16 tpm2_alg_sha256 ++ (3 ∷ bitmap))

-- The commands, before the back-patch.
unfoldable pub pcr_read_command : ℕ → Bytes
pcr_read_command index =
    begin_command tpm2_st_no_sessions tpm2_cc_pcr_read
    ++ pcr_selection (select_pcr index (0 ∷ 0 ∷ 0 ∷ []))

unfoldable pub quote_command : ℕ → Bytes → List ℕ → Bytes
quote_command ak nonce pcrs =
    begin_command tpm2_st_sessions tpm2_cc_quote
    ++ (write_u32 ak
        ++ (write_password_auth
            ++ (write_tpm2b nonce
                ++ (write_u16 tpm2_alg_rsassa
                    ++ (write_u16 tpm2_alg_sha256
                        ++ pcr_selection (select_pcrs pcrs (0 ∷ 0 ∷ 0 ∷ [])))))))

unfoldable pub flush_command : ℕ → Bytes
flush_command handle = begin_command tpm2_st_no_sessions tpm2_cc_flush_context ++ write_u32 handle

-- TPM2_CreatePrimary under a hierarchy, with empty inSensitive, outsideInfo and creationPCR.
unfoldable pub create_primary_command : ℕ → Bytes → Bytes
create_primary_command hierarchy template =
    begin_command tpm2_st_sessions tpm2_cc_create_primary
    ++ (write_u32 hierarchy
        ++ (write_password_auth
            ++ (write_u16 4
                ++ (write_u16 0 ++ (write_u16 0 ++ (template ++ (write_u16 0 ++ write_u32 0)))))))

abbrev session_nonce : ℕ → ℕ → Bytes
session_nonce zero i = []
session_nonce (suc n) i = (i * 7 + 3) % 256 ∷ session_nonce n (i + 1)

unfoldable pub start_session_command : Bytes
start_session_command =
    begin_command tpm2_st_no_sessions tpm2_cc_start_auth_session
    ++ (write_u32 0x40000007
        ++ (write_u32 0x40000007
            ++ (write_u16 32
                ++ (session_nonce 32 0
                    ++ (write_u16 0 ++ (0x01 ∷ (write_u16 0x0010 ++ write_u16 0x000B)))))))

unfoldable pub policy_secret_command : ℕ → Bytes
policy_secret_command session =
    begin_command tpm2_st_sessions tpm2_cc_policy_secret
    ++ (write_u32 tpm_rh_endorsement
        ++ (write_u32 session
            ++ (write_password_auth
                ++ (write_u16 0 ++ (write_u16 0 ++ (write_u16 0 ++ write_u32 0))))))

unfoldable pub activate_command : ℕ → ℕ → ℕ → Bytes → Bytes → Bytes
activate_command session ak ek blob secret =
    let auth = session_auth tpm_rs_pw ++ session_auth session in
    begin_command tpm2_st_sessions tpm2_cc_activate_credential
    ++ (write_u32 ak
        ++ (write_u32 ek ++ (write_u32 (length auth % u32_mod) ++ (auth ++ (blob ++ secret)))))

unfoldable pub read_public_command : ℕ → Bytes
read_public_command handle =
    begin_command tpm2_st_no_sessions tpm2_cc_read_public ++ write_u32 handle

unfoldable pub evict_command : ℕ → ℕ → Bytes
evict_command object persistent =
    begin_command tpm2_st_sessions tpm2_cc_evict_control
    ++ (write_u32 tpm2_rh_owner
        ++ (write_u32 object ++ (write_password_auth ++ write_u32 persistent)))

unfoldable pub nv_read_public_command : ℕ → Bytes
nv_read_public_command index =
    begin_command tpm2_st_no_sessions tpm2_cc_nv_read_public ++ write_u32 index

unfoldable pub nv_read_command : ℕ → ℕ → ℕ → Bytes
nv_read_command index want offset =
    begin_command tpm2_st_sessions tpm2_cc_nv_read
    ++ (write_u32 index
        ++ (write_u32 index ++ (write_password_auth ++ (write_u16 want ++ write_u16 offset))))
