-- ===== src/Tests/Devices.antt =====
-- TPMs behind TBS (src/tpm/tpm_commands.cpp, src/tpm/tbs_key_provider.cpp).
use sdk_windows.Prelude.{ℕ, ◌+◌, refl, arith, true, [], ◌∷◌, Bytes, Returns}
use sdk_windows.Wire.{write_u16, write_u32, read_u16, read_u32}
use sdk_windows.Tpm.{Tbs, replied}
use sdk_windows.Tpm.Marshal.{patch_size, begin_command, start_session_command}
use sdk_windows.Tpm.Commands.{transact, send_command, answer}
use sdk_windows.Tpm.Activate.{start_session, activate_credential}
use sdk_windows.Tpm.Activate.Session.{EndsFlushed, activate_credential-EndsFlushed}
use sdk_windows.Tpm.Commands.Errors.{error_reply, IsRefusing, AllFail, operations-AllFail}
use sdk_windows.Tpm.Safety.Operations.{AllSafe, operations-AllSafe}
use sdk_windows.Tpm.KeyProvider.{Provider, create_ak, persist_ak}
use sdk_windows.Tpm.KeyProvider.Handles.{
  ReadyOrIdle, IdleOrSame, create_ak-ReadyOrIdle, persist_ak-IdleOrSame,
}

-- A response with success, a handle, and a public area.
abbrev pub toy_response : Bytes
toy_response =
    0x80 ∷ 0x02 ∷ 0 ∷ 0 ∷ 0 ∷ 24 ∷ 0 ∷ 0 ∷ 0 ∷ 0 ∷ 0x80 ∷ 0 ∷ 0 ∷ 1 ∷ 0 ∷ 0 ∷ 0 ∷ 6 ∷ 0 ∷ 4 ∷ 9 ∷ 8
    ∷ 7 ∷ 6 ∷ []

-- A TPM that counts its commands and answers each with that response.
abbrev pub toy_tbs : Tbs
toy_tbs = record {
  Device = ℕ;
  submit = λ d cmd. (replied toy_response, d + 1);
  create_context = λ d. (0, d);
  close_context = λ d. d;
}

abbrev fresh : Provider toy_tbs
fresh = record {
  tpm = record { is_open = true; device = 0 };
  persistent_handle = 0x81010001;
  ek_handle = 0;
  ak_handle = 0;
  ak_public_area = [];
}

operations-AllSafe_example : AllSafe toy_tbs
operations-AllSafe_example = operations-AllSafe toy_tbs

create_ak-ReadyOrIdle_example : Returns ReadyOrIdle (create_ak fresh)
create_ak-ReadyOrIdle_example = create_ak-ReadyOrIdle toy_tbs fresh

persist_ak-IdleOrSame_example : Returns (IdleOrSame fresh) (persist_ak fresh)
persist_ak-IdleOrSame_example = persist_ak-IdleOrSame toy_tbs fresh

activate_credential-EndsFlushed_example : Returns (EndsFlushed {tbs = toy_tbs} 0x00000006) (
    activate_credential 0x80000001 0x80000002
      (1 ∷ [])
      (2 ∷ [])
      (record { is_open = true; device = 0 }))
unfolding start_session transact send_command answer patch_size read_u16 read_u32
    start_session_command begin_command write_u16 write_u32
activate_credential-EndsFlushed_example =
    activate_credential-EndsFlushed toy_tbs 0x80000001 0x80000002 (1 ∷ []) (2 ∷ [])
      (record { is_open = true; device = 0 }) (record { is_open = true; device = 1 }) 0x00000006
      refl refl (λ e. omega (arith, e))

-- A TPM in failure mode (TPM_RC_FAILURE).
abbrev failing_tbs : Tbs
failing_tbs = record {
  Device = ℕ;
  submit = λ d cmd. (replied (error_reply 0x101), d + 1);
  create_context = λ d. (0, d);
  close_context = λ d. d;
}

failing_tbs-IsRefusing : IsRefusing failing_tbs 0x101
failing_tbs-IsRefusing = record {
  rc_fits = omega arith;
  rc_error = λ e. omega (arith, e);
  refusal = λ d cmd. (d + 1, refl);
}

operations-AllFail_example :
    AllFail {tbs = failing_tbs} 0x101 (record { is_open = true; device = 0 })
operations-AllFail_example =
    operations-AllFail failing_tbs 0x101 (record { is_open = true; device = 0 })
      failing_tbs-IsRefusing refl
