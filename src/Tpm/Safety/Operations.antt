-- ===== src/Tpm/Safety/Operations.antt =====
-- The operations of `TpmCommands` (src/tpm/tpm_commands.cpp) on any TPM: their outcomes and the
-- reads of the replies.
use sdk_windows.Prelude.{
  ℕ, ◌+◌, ◌^◌, ◌<◌, arith, Bool, ◌||◌, List, Bytes, length, Outcome, Returns, returns,
  Returns-weaken, ltb, ◌==◌,
}
use sdk_windows.Wire.Reads.{read_u16-Returns, read_u32-Returns, slice-Returns}
use sdk_windows.Tpm.{Tbs, Tpm, Result, failed, rh_e_malformed_response}
use sdk_windows.Tpm.Marshal.{
  flush_command, pcr_read_command, quote_command, create_primary_command, write_ak_template,
  write_ek_template, tpm_rh_endorsement, read_public_command, evict_command, start_session_command,
  policy_secret_command, activate_command,
}
use sdk_windows.Tpm.Commands.{
  flush_context, pcr_read, quote, create_and_load_ak, create_ek, is_persistent_present, clear_slot,
  evict_control,
}
use sdk_windows.Tpm.Activate.{
  handle_offset, start_session, activate_in, kept, flush_after, activate_started,
  activate_credential,
}
use sdk_windows.Tpm.Safety.{
  Sound, sound, failing, Ensures, Ensures->>=, Ensures-return, Ensures-lift, Ensures-guard_not,
  Ensures-if, Ensures-parsed, Ensures-weaken, if-Returns, malformed, send_command-Ensures,
  transact-Ensures, parse_pcr_read-Reads, parse_quote-Reads, parse_public_area-Returns,
}

module _ {tbs : Tbs} where
  pub flush_context-Ensures :
      (handle : ℕ) → Ensures {tbs = tbs} (λ (hr : ℕ). Unit {0}) (flush_context handle)
  unfolding flush_context
  flush_context-Ensures handle =
      Ensures->>= (send_command-Ensures (flush_command handle)) λ sent _. Ensures-return tt

  pub pcr_read-Ensures :
      (index : ℕ) → Ensures {tbs = tbs} (λ (d : Bytes). length d < 2 ^ 16) (pcr_read index)
  unfolding pcr_read
  pcr_read-Ensures index =
      Ensures->>= (transact-Ensures 10 (pcr_read_command index) (omega arith))
        λ resp _. Ensures-parsed (parse_pcr_read-Reads resp)

  pub quote-Ensures :
      (ak : ℕ) (nonce : Bytes) (pcrs : List ℕ)
      → Ensures {tbs = tbs} (λ (q : Bytes × Bytes). Unit {0}) (quote ak nonce pcrs)
  unfolding quote
  quote-Ensures ak nonce pcrs =
      Ensures->>= (transact-Ensures 10 (quote_command ak nonce pcrs) (omega arith))
        λ resp _. Ensures-weaken (λ q _. tt) (Ensures-parsed (parse_quote-Reads resp))

  pub create_and_load_ak-Ensures :
      (parent : ℕ)
      → Ensures {tbs = tbs} (λ (made : ℕ × Bytes). made.0 < 2 ^ 32) (create_and_load_ak parent)
  unfolding create_and_load_ak
  create_and_load_ak-Ensures parent =
      Ensures->>=
        (transact-Ensures 14 (create_primary_command parent write_ak_template) (omega arith))
        λ resp h. Ensures->>= (Ensures-lift (read_u32-Returns resp 10 (omega arith))) λ handle hh.
          Ensures->>= (Ensures-lift (parse_public_area-Returns resp)) λ area _. Ensures-return hh

  pub create_ek-Ensures : Ensures {tbs = tbs} (λ (handle : ℕ). handle < 2 ^ 32) create_ek
  unfolding create_ek
  create_ek-Ensures =
      Ensures->>=
        (transact-Ensures 14 (create_primary_command tpm_rh_endorsement write_ek_template)
          (omega arith))
        λ resp h. Ensures-lift (read_u32-Returns resp 10 (omega arith))

  pub is_persistent_present-Ensures :
      (handle : ℕ)
      → Ensures {tbs = tbs} (λ (present : Bool). Unit {0}) (is_persistent_present handle)
  unfolding is_persistent_present
  is_persistent_present-Ensures handle =
      Ensures->>= (send_command-Ensures (read_public_command handle)) λ sent _.
        Ensures-if (failed sent.0 || ltb (length sent.1) 10) (λ _. Ensures-return tt)
          λ e.
            Ensures->>= (Ensures-lift (read_u32-Returns sent.1 6 (ground arith)))
              λ rc _. Ensures-return tt

  clear_slot-Ensures :
      (present : Bool) (persistent : ℕ)
      → Ensures {tbs = tbs} (λ (done : Unit {0}). Unit {0}) (clear_slot present persistent)
  unfolding clear_slot
  clear_slot-Ensures present persistent =
      Ensures-if present
        (λ _.
          Ensures->>= (transact-Ensures 10 (evict_command persistent persistent) (omega arith))
            λ resp _. Ensures-return tt)
        (λ _. Ensures-return tt)

  pub evict_control-Ensures :
      (transient persistent : ℕ)
      → Ensures {tbs = tbs} (λ (done : Unit {0}). Unit {0}) (evict_control transient persistent)
  unfolding evict_control
  evict_control-Ensures transient persistent =
      Ensures->>= (is_persistent_present-Ensures persistent) λ present _.
        Ensures->>= (clear_slot-Ensures present persistent) λ _ _.
          Ensures->>= (transact-Ensures 10 (evict_command transient persistent) (omega arith))
            λ resp _. Ensures-return tt

  start_session-Ensures : Ensures {tbs = tbs} (λ (session : ℕ). session < 2 ^ 32) start_session
  unfolding start_session
  start_session-Ensures =
      Ensures->>= (transact-Ensures 14 start_session_command (omega arith)) λ resp h.
        Ensures->>= (Ensures-lift (read_u16-Returns resp 0 (omega arith))) λ tag _.
          Ensures->>=
            (Ensures-guard_not (ltb (length resp) (handle_offset tag + 4)) rh_e_malformed_response
              (λ _. malformed))
            λ _ e. Ensures-lift (read_u32-Returns resp (handle_offset tag) (ground arith))

  pub activate_in-Ensures :
      (session ak ek : ℕ) (blob encrypted : Bytes)
      → Ensures {tbs = tbs}
          (λ (secret : Bytes). length secret < 2 ^ 16)
          (activate_in session ak ek blob encrypted)
  unfolding activate_in
  activate_in-Ensures session ak ek blob encrypted =
      Ensures->>= (transact-Ensures 10 (policy_secret_command session) (omega arith)) λ policy _.
        Ensures->>=
          (transact-Ensures 10 (activate_command session ak ek blob encrypted) (omega arith))
          λ resp _.
            Ensures->>=
              (Ensures-guard_not (ltb (length resp) 16) rh_e_malformed_response (λ _. malformed))
              λ _ e.
                Ensures->>= (Ensures-lift (read_u32-Returns resp 10 (ground arith))) λ param_size _.
                  Ensures->>=
                    (Ensures-guard_not (ltb param_size 2) rh_e_malformed_response (λ _. malformed))
                    λ _ _.
                      Ensures->>= (Ensures-lift (read_u16-Returns resp 14 (ground arith))) λ n hn.
                        Ensures->>=
                          (Ensures-guard_not (ltb (length resp) (16 + n)) rh_e_malformed_response
                            (λ _. malformed))
                          λ _ k. Ensures-lift (
                            Returns-weaken (λ s hs. omega arith)
                              (slice-Returns resp 16 n (ground arith)))

  abbrev SecretOr : Result Bytes × Tpm tbs → Type 0
  SecretOr = Sound (λ (secret : Bytes). length secret < 2 ^ 16)

  flushed :
      {r : Result Bytes} {s : Tpm tbs} {o : Outcome (Result ℕ × Tpm tbs)}
      → SecretOr (r, s)
      → Returns (Sound (λ (hr : ℕ). Unit {0})) o
      → Returns SecretOr (kept r o)
  unfolding kept
  flushed (sound p) (returns h) = returns (sound p)
  flushed (failing e) (returns h) = returns (failing e)

  flush_after-Returns :
      (session : ℕ) {o : Outcome (Result Bytes × Tpm tbs)}
      → Returns SecretOr o
      → Returns SecretOr (flush_after session o)
  unfolding flush_after
  flush_after-Returns session (returns (sound {s} p)) =
      if-Returns (session == 0) (λ _. returns (sound p))
        (λ _. flushed {s = s} (sound p) ((flush_context-Ensures session).run s))
  flush_after-Returns session (returns (failing {s} e)) =
      if-Returns (session == 0) (λ _. returns (failing e))
        (λ _. flushed {s = s} (failing e) ((flush_context-Ensures session).run s))

  activate_started-Returns :
      (ak ek : ℕ) (blob encrypted : Bytes) {o : Outcome (Result ℕ × Tpm tbs)}
      → Returns (Sound (λ (session : ℕ). session < 2 ^ 32)) o
      → Returns SecretOr (activate_started ak ek blob encrypted o)
  unfolding activate_started
  activate_started-Returns ak ek blob encrypted (returns (sound {a} {s} p)) =
      flush_after-Returns a ((activate_in-Ensures a ak ek blob encrypted).run s)
  activate_started-Returns ak ek blob encrypted (returns (failing e)) = returns (failing e)

  pub activate_credential-Ensures :
      (ak ek : ℕ) (blob encrypted : Bytes)
      → Ensures {tbs = tbs}
          (λ (secret : Bytes). length secret < 2 ^ 16)
          (activate_credential ak ek blob encrypted)
  unfolding activate_credential
  activate_credential-Ensures ak ek blob encrypted = record {
    run = λ t. activate_started-Returns ak ek blob encrypted (start_session-Ensures.run t);
  }

-- Each operation ends, with its value or a failing HRESULT.
pub record AllSafe (tbs : Tbs) : Type 0 where
  pub pcr_read_safe :
      (index : ℕ) → Ensures {tbs = tbs} (λ (d : Bytes). length d < 2 ^ 16) (pcr_read index)
  pub quote_safe :
      (ak : ℕ) (nonce : Bytes) (pcrs : List ℕ)
      → Ensures {tbs = tbs} (λ (q : Bytes × Bytes). Unit {0}) (quote ak nonce pcrs)
  pub create_ak_safe :
      (parent : ℕ)
      → Ensures {tbs = tbs} (λ (made : ℕ × Bytes). made.0 < 2 ^ 32) (create_and_load_ak parent)
  pub create_ek_safe : Ensures {tbs = tbs} (λ (handle : ℕ). handle < 2 ^ 32) create_ek
  pub present_safe :
      (handle : ℕ)
      → Ensures {tbs = tbs} (λ (present : Bool). Unit {0}) (is_persistent_present handle)
  pub evict_safe :
      (transient persistent : ℕ)
      → Ensures {tbs = tbs} (λ (done : Unit {0}). Unit {0}) (evict_control transient persistent)
  pub activate_safe :
      (ak ek : ℕ) (blob encrypted : Bytes)
      → Ensures {tbs = tbs}
          (λ (secret : Bytes). length secret < 2 ^ 16)
          (activate_credential ak ek blob encrypted)

-- Whatever the TPM answers to each command, the operations that run a fixed number of commands
-- end without a read outside of a reply, with their value or with a failing HRESULT: a PCR digest
-- and a recovered secret have at most 65535 bytes, a key handle 32 bits.
pub operations-AllSafe : (tbs : Tbs) → AllSafe tbs
operations-AllSafe tbs = record {
  pcr_read_safe = pcr_read-Ensures;
  quote_safe = quote-Ensures;
  create_ak_safe = create_and_load_ak-Ensures;
  create_ek_safe = create_ek-Ensures;
  present_safe = is_persistent_present-Ensures;
  evict_safe = evict_control-Ensures;
  activate_safe = activate_credential-Ensures;
}
