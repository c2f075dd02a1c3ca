-- ===== src/Tpm/Marshal/Framing.antt =====
-- The headers of the commands as `SendCommand` submits them (src/tpm/tpm_commands.cpp).
use sdk_windows.Prelude.{
  ℕ, ◌%◌, ◌<◌, ◌≡◌, refl, arith, true, List, ◌++◌, Bytes, length, drop, ok, leb, le→leb,
}
use sdk_windows.Wire.{read_u16, read_u32, write_u16, write_u32, u16_mod, u32_mod}
use sdk_windows.Wire.Reads.{read_u16-write_u16, read_u32-write_u32}
use sdk_windows.Tpm.Marshal.{
  begin_command, patch_size, pcr_read_command, quote_command, flush_command, create_primary_command,
  start_session_command, policy_secret_command, activate_command, read_public_command,
  evict_command, nv_read_public_command, nv_read_command,
}

-- What a TPM reads in the header of a submitted command: the tag, the size of the whole (its low 32
-- bits) and the command code. Nothing else of the command is touched.
pub record IsFramed (tag code : ℕ) (cmd : Bytes) : Type 0 where
  pub tag_read : read_u16 (patch_size cmd) 0 ≡ ok tag
  pub size_read : read_u32 (patch_size cmd) 2 ≡ ok (length (patch_size cmd) % u32_mod)
  pub code_read : read_u32 (patch_size cmd) 6 ≡ ok code
  pub same_length : length (patch_size cmd) ≡ length cmd
  pub same_parameters : drop 10 (patch_size cmd) ≡ drop 10 cmd

module _ (tag code : ℕ) (parameters : Bytes) where
  abbrev patched : Bytes
  patched =
      write_u16 tag
      ++ (write_u32 (length (begin_command tag code ++ parameters) % u32_mod)
          ++ (write_u32 code ++ parameters))

  patch_size-patched : patch_size (begin_command tag code ++ parameters) ≡ patched
  unfolding begin_command patch_size write_u16 write_u32
  patch_size-patched =
      let long : leb 6 (length (begin_command tag code ++ parameters)) ≡ true =
        le→leb 6 _ (omega arith) in
      rw long refl

  length-patched : length patched ≡ length (begin_command tag code ++ parameters)
  unfolding begin_command write_u16 write_u32
  length-patched = refl

  begin_command-IsFramed :
      tag < u16_mod → code < u32_mod → IsFramed tag code (begin_command tag code ++ parameters)
  unfolding begin_command write_u16 write_u32
  begin_command-IsFramed t c =
      let low : length (begin_command tag code ++ parameters) % u32_mod < u32_mod = omega arith in
      record {
        tag_read = rw patch_size-patched (read_u16-write_u16 patched 0 tag _ refl t);
        size_read = rw patch_size-patched (read_u32-write_u32 patched 2 _ _ refl low);
        code_read = rw patch_size-patched (read_u32-write_u32 patched 6 code _ refl c);
        same_length = rw patch_size-patched refl;
        same_parameters = rw patch_size-patched refl;
      }

-- Every command, under the tag and the code that the TPM 2.0 specification gives to it.
pub record AllFramed : Type 0 where
  pub pcr_read_framed : (index : ℕ) → IsFramed 0x8001 0x17E (pcr_read_command index)
  pub quote_framed :
      (ak : ℕ) (nonce : Bytes) (pcrs : List ℕ) → IsFramed 0x8002 0x158 (quote_command ak nonce pcrs)
  pub flush_context_framed : (handle : ℕ) → IsFramed 0x8001 0x165 (flush_command handle)
  pub create_primary_framed :
      (hierarchy : ℕ) (template : Bytes)
      → IsFramed 0x8002 0x131 (create_primary_command hierarchy template)
  pub start_auth_session_framed : IsFramed 0x8001 0x176 start_session_command
  pub policy_secret_framed : (session : ℕ) → IsFramed 0x8002 0x151 (policy_secret_command session)
  pub activate_credential_framed :
      (session ak ek : ℕ) (blob secret : Bytes)
      → IsFramed 0x8002 0x147 (activate_command session ak ek blob secret)
  pub read_public_framed : (handle : ℕ) → IsFramed 0x8001 0x173 (read_public_command handle)
  pub evict_control_framed :
      (object persistent : ℕ) → IsFramed 0x8002 0x120 (evict_command object persistent)
  pub nv_read_public_framed : (index : ℕ) → IsFramed 0x8001 0x169 (nv_read_public_command index)
  pub nv_read_framed :
      (index want offset : ℕ) → IsFramed 0x8002 0x14E (nv_read_command index want offset)

-- Every command that the class submits carries the tag and the command code of the TPM 2.0
-- specification for its operation, and in its size field the length of the whole (modulo 2^32):
-- the back-patch in `SendCommand` changes nothing else, whatever the parameters are.
pub commands-AllFramed : AllFramed
unfolding pcr_read_command quote_command flush_command create_primary_command start_session_command
    policy_secret_command activate_command read_public_command evict_command nv_read_public_command
    nv_read_command
commands-AllFramed = record {
  pcr_read_framed = λ index. begin_command-IsFramed _ _ _ (omega arith) (omega arith);
  quote_framed = λ ak nonce pcrs. begin_command-IsFramed _ _ _ (omega arith) (omega arith);
  flush_context_framed = λ handle. begin_command-IsFramed _ _ _ (omega arith) (omega arith);
  create_primary_framed =
      λ hierarchy template. begin_command-IsFramed _ _ _ (omega arith) (omega arith);
  start_auth_session_framed = begin_command-IsFramed _ _ _ (omega arith) (omega arith);
  policy_secret_framed = λ session. begin_command-IsFramed _ _ _ (omega arith) (omega arith);
  activate_credential_framed =
      λ session ak ek blob secret. begin_command-IsFramed _ _ _ (omega arith) (omega arith);
  read_public_framed = λ handle. begin_command-IsFramed _ _ _ (omega arith) (omega arith);
  evict_control_framed =
      λ object persistent. begin_command-IsFramed _ _ _ (omega arith) (omega arith);
  nv_read_public_framed = λ index. begin_command-IsFramed _ _ _ (omega arith) (omega arith);
  nv_read_framed = λ index want offset. begin_command-IsFramed _ _ _ (omega arith) (omega arith);
}
