-- ===== src/Tpm/Contexts.antt =====
-- Lemmas on the TBS contexts over the operations of `TpmCommands` (src/tpm/tpm_commands.cpp).
use sdk_windows.Prelude.{
  ℕ, zero, suc, ◌+◌, ◌-◌, ◌%◌, ◌≡◌, refl, sym, ◌∙◌, arith, Bool, true, false, not, ◌||◌, List, [],
  ◌∷◌, ◌++◌, Bytes, length, Outcome, ok, fault, stuck, ltb, ◌==◌, if◌then◌else◌,
}
use sdk_windows.Prelude
use sdk_windows.Wire.{read_u16, read_u32, slice, u16_mod}
use sdk_windows.Tpm.{
  Tbs, Tpm, Run, Reply, refused, replied, Result, success, failure, and_then, ◌>>=◌, return, lift,
  guard_not, failed, rh_e_malformed_response, hr_from_tpm_rc,
}
use sdk_windows.Tpm.Marshal.{
  patch_size, pcr_read_command, quote_command, flush_command, create_primary_command,
  write_ak_template, write_ek_template, tpm_rh_endorsement, read_public_command, evict_command,
  start_session_command, policy_secret_command, activate_command, nv_read_public_command,
  nv_read_command,
}
use sdk_windows.Tpm.Activate.{
  handle_offset, start_session, activate_in, kept, flush_after, activate_started,
  activate_credential,
}
use sdk_windows.Tpm.Nv.Der.{parse_nv_public, parse_nv_buffer}
use sdk_windows.Tpm.Nv.Cut.{cut_chain}
use sdk_windows.Tpm.Nv.{
  want_of, read_chunk, finish, nv_loop, read_nv_data, collect_slots, read_intel_odca_intermediates,
}
use sdk_windows.Tpm.Replies.{parse_pcr_read, parse_quote, parse_public_area}
use sdk_windows.Tpm.Commands.{
  answer, answers_success, clear_slot, send_command, transact, parsed, pcr_read, quote,
  flush_context, create_ek, create_and_load_ak, is_persistent_present, evict_control,
}

-- A TPM resource manager that counts the contexts that it made and those that were closed.
pub record Counts (tbs : Tbs) : Type 0 where
  pub made : tbs.Device → ℕ
  pub closed : tbs.Device → ℕ
  pub submit_made : (d : tbs.Device) (cmd : Bytes) → made (tbs.submit d cmd).1 ≡ made d
  pub submit_closed : (d : tbs.Device) (cmd : Bytes) → closed (tbs.submit d cmd).1 ≡ closed d
  pub create_made :
      (d : tbs.Device)
      → made (tbs.create_context d).1 ≡ made d + (if (tbs.create_context d).0 == 0 then 1 else 0)
  pub create_closed : (d : tbs.Device) → closed (tbs.create_context d).1 ≡ closed d
  pub close_made : (d : tbs.Device) → made (tbs.close_context d) ≡ made d
  pub close_closed : (d : tbs.Device) → closed (tbs.close_context d) ≡ closed d + 1

-- The run does not return, or its value has the property.
pub data IfOk {A : Type 0} (P : A → Type 0) : Outcome A → Type 0 where
  if_ok : {a : A} → P a → IfOk P (ok a)
  if_fault : IfOk P fault
  if_stuck : IfOk P stuck

pub IfOk-weaken :
    {A : Type 0} {P Q : A → Type 0} {m : Outcome A} → ((a : A) → P a → Q a) → IfOk P m → IfOk Q m
IfOk-weaken f (if_ok {a} h) = if_ok (f a h)
IfOk-weaken f if_fault = if_fault
IfOk-weaken f if_stuck = if_stuck

pub IfOk->>= :
    {A B : Type 0} {P : A → Type 0} {Q : B → Type 0} {m : Outcome A} {f : A → Outcome B}
    → IfOk P m
    → ((a : A) → P a → IfOk Q (f a))
    → IfOk Q (Prelude.◌>>=◌ m f)
IfOk->>= (if_ok {a} h) k = k a h
IfOk->>= if_fault k = if_fault
IfOk->>= if_stuck k = if_stuck

pub any_outcome : {A : Type 0} (o : Outcome A) → IfOk (λ (a : A). Unit {0}) o
any_outcome (ok a) = if_ok tt
any_outcome fault = if_fault
any_outcome stuck = if_stuck

pub if-IfOk :
    {A : Type 0} {P : A → Type 0} (b : Bool) {m n : Outcome A}
    → (b ≡ true → IfOk P m)
    → (b ≡ false → IfOk P n)
    → IfOk P (if b then m else n)
if-IfOk true h k = h refl
if-IfOk false h k = k refl

module _ {tbs : Tbs} (c : Counts tbs) where
  -- The same contexts are open.
  pub record Same (t t' : Tpm tbs) : Type 0 where
    pub open_same : t'.is_open ≡ t.is_open
    pub made_same : c.made t'.device ≡ c.made t.device
    pub closed_same : c.closed t'.device ≡ c.closed t.device

  pub Same-trans : {t t' t'' : Tpm tbs} → Same t t' → Same t' t'' → Same t t''
  Same-trans a b = record {
    open_same = b.open_same ∙ a.open_same;
    made_same = b.made_same ∙ a.made_same;
    closed_same = b.closed_same ∙ a.closed_same;
  }

  pub record Stays {A : Type 0} (m : Run tbs A) : Type 0 where
    pub stays : (t : Tpm tbs) → IfOk (λ (out : Result A × Tpm tbs). Same t out.1) (m t)

  and_then-Same :
      {A B : Type 0} {r : Outcome (Result A × Tpm tbs)} {f : A → Run tbs B} (t : Tpm tbs)
      → IfOk (λ (out : Result A × Tpm tbs). Same t out.1) r
      → ((a : A) → Stays (f a))
      → IfOk (λ (out : Result B × Tpm tbs). Same t out.1) (and_then r f)
  and_then-Same t (if_ok {a = (success a, s)} h) k =
      IfOk-weaken (λ out g. Same-trans h g) ((k a).stays s)
  and_then-Same t (if_ok {a = (failure hr, s)} h) k = if_ok h
  and_then-Same t if_fault k = if_fault
  and_then-Same t if_stuck k = if_stuck

  Stays->>= :
      {A B : Type 0} {m : Run tbs A} {f : A → Run tbs B}
      → Stays m
      → ((a : A) → Stays (f a))
      → Stays (m >>= f)
  Stays->>= h k = record { stays = λ t. and_then-Same t (h.stays t) k }

  pub same : (t : Tpm tbs) → Same t t
  same t = record { open_same = refl; made_same = refl; closed_same = refl }

  Stays-return : {A : Type 0} (a : A) → Stays (return {tbs = tbs} a)
  Stays-return a = record { stays = λ t. if_ok (same t) }

  lift-Same :
      {A : Type 0} (o : Outcome A) (t : Tpm tbs)
      → IfOk (λ (out : Result A × Tpm tbs). Same t out.1) (lift o t)
  lift-Same (ok a) t = if_ok (same t)
  lift-Same fault t = if_fault
  lift-Same stuck t = if_stuck

  Stays-lift : {A : Type 0} (o : Outcome A) → Stays (lift {tbs = tbs} o)
  Stays-lift o = record { stays = lift-Same o }

  parsed-Same :
      {A : Type 0} (o : Outcome (Result A)) (t : Tpm tbs)
      → IfOk (λ (out : Result A × Tpm tbs). Same t out.1) (parsed o t)
  parsed-Same (ok (success a)) t = if_ok (same t)
  parsed-Same (ok (failure hr)) t = if_ok (same t)
  parsed-Same fault t = if_fault
  parsed-Same stuck t = if_stuck

  Stays-parsed : {A : Type 0} (o : Outcome (Result A)) → Stays (parsed {tbs = tbs} o)
  Stays-parsed o = record { stays = parsed-Same o }

  guard_not-Same :
      (bad : Bool) (hr : ℕ) (t : Tpm tbs)
      → IfOk (λ (out : Result (Unit {0}) × Tpm tbs). Same t out.1) (guard_not bad hr t)
  guard_not-Same true hr t = if_ok (same t)
  guard_not-Same false hr t = if_ok (same t)

  Stays-guard_not : (bad : Bool) (hr : ℕ) → Stays (guard_not {tbs = tbs} bad hr)
  Stays-guard_not bad hr = record { stays = guard_not-Same bad hr }

  Stays-if :
      {A : Type 0} (b : Bool) {m n : Run tbs A} → Stays m → Stays n → Stays (if b then m else n)
  Stays-if true h k = h
  Stays-if false h k = k

  send_command-Stays : (cmd : Bytes) → Stays (send_command {tbs = tbs} cmd)
  unfolding send_command answer
  send_command-Stays cmd = record { stays = sent }
    where
      answered :
          (t : Tpm tbs) (a : Reply × tbs.Device)
          → t.is_open ≡ true
          → c.made a.1 ≡ c.made t.device
          → c.closed a.1 ≡ c.closed t.device
          → IfOk (λ (out : Result (ℕ × Bytes) × Tpm tbs). Same t out.1) (answer {tbs = tbs} a)
      answered t (refused result, d) e h k =
          if_ok (record { open_same = sym e; made_same = h; closed_same = k })
      answered t (replied response, d) e h k =
          if_ok (record { open_same = sym e; made_same = h; closed_same = k })

      sent :
          (t : Tpm tbs)
          → IfOk (λ (out : Result (ℕ × Bytes) × Tpm tbs). Same t out.1) (send_command cmd t)
      sent t =
          if-IfOk (not t.is_open) (λ _. if_ok (same t))
            λ e.
              answered t (tbs.submit t.device (patch_size cmd)) (ground (arith, e))
                (c.submit_made t.device (patch_size cmd))
                (c.submit_closed t.device (patch_size cmd))

  transact-Stays : (min : ℕ) (cmd : Bytes) → Stays (transact {tbs = tbs} min cmd)
  unfolding transact
  transact-Stays min cmd = Stays->>= (send_command-Stays cmd) λ sent.
      Stays->>= (Stays-guard_not (failed sent.0) sent.0) λ _.
        Stays->>= (Stays-guard_not (ltb (length sent.1) min) rh_e_malformed_response) λ _.
          Stays->>= (Stays-lift (read_u32 sent.1 6)) λ rc.
            Stays->>= (Stays-guard_not (not (rc == 0)) (hr_from_tpm_rc rc)) λ _. Stays-return sent.1

  pub pcr_read-Stays : (index : ℕ) → Stays (pcr_read {tbs = tbs} index)
  unfolding pcr_read
  pcr_read-Stays index =
      Stays->>= (transact-Stays 10 (pcr_read_command index))
        λ resp. Stays-parsed (parse_pcr_read resp)

  pub quote-Stays :
      (ak : ℕ) (nonce : Bytes) (pcrs : List ℕ) → Stays (quote {tbs = tbs} ak nonce pcrs)
  unfolding quote
  quote-Stays ak nonce pcrs =
      Stays->>= (transact-Stays 10 (quote_command ak nonce pcrs))
        λ resp. Stays-parsed (parse_quote resp)

  pub flush_context-Stays : (handle : ℕ) → Stays (flush_context {tbs = tbs} handle)
  unfolding flush_context
  flush_context-Stays handle =
      Stays->>= (send_command-Stays (flush_command handle)) λ sent. Stays-return sent.0

  pub create_and_load_ak-Stays : (parent : ℕ) → Stays (create_and_load_ak {tbs = tbs} parent)
  unfolding create_and_load_ak
  create_and_load_ak-Stays parent =
      Stays->>= (transact-Stays 14 (create_primary_command parent write_ak_template)) λ resp.
        Stays->>= (Stays-lift (read_u32 resp 10)) λ handle.
          Stays->>= (Stays-lift (parse_public_area resp)) λ area. Stays-return (handle, area)

  pub create_ek-Stays : Stays (create_ek {tbs = tbs})
  unfolding create_ek
  create_ek-Stays =
      Stays->>= (transact-Stays 14 (create_primary_command tpm_rh_endorsement write_ek_template))
        λ resp. Stays-lift (read_u32 resp 10)

  pub is_persistent_present-Stays : (handle : ℕ) → Stays (is_persistent_present {tbs = tbs} handle)
  unfolding is_persistent_present answers_success
  is_persistent_present-Stays handle =
      Stays->>= (send_command-Stays (read_public_command handle)) λ sent.
        Stays-if (failed sent.0 || ltb (length sent.1) 10) (Stays-return false)
          (Stays->>= (Stays-lift (read_u32 sent.1 6)) λ rc. Stays-return (rc == 0))

  pub evict_control-Stays :
      (transient persistent : ℕ) → Stays (evict_control {tbs = tbs} transient persistent)
  unfolding evict_control clear_slot
  evict_control-Stays transient persistent =
      Stays->>= (is_persistent_present-Stays persistent) λ present.
        Stays->>=
          (Stays-if present
            (Stays->>= (transact-Stays 10 (evict_command persistent persistent))
              λ resp. Stays-return tt)
            (Stays-return tt))
          λ _.
            Stays->>= (transact-Stays 10 (evict_command transient persistent))
              λ resp. Stays-return tt

  start_session-Stays : Stays (start_session {tbs = tbs})
  unfolding start_session
  start_session-Stays = Stays->>= (transact-Stays 14 start_session_command) λ resp.
      Stays->>= (Stays-lift (read_u16 resp 0)) λ tag.
        Stays->>=
          (Stays-guard_not (ltb (length resp) (handle_offset tag + 4)) rh_e_malformed_response)
          λ _. Stays-lift (read_u32 resp (handle_offset tag))

  activate_in-Stays :
      (session ak ek : ℕ) (blob encrypted : Bytes)
      → Stays (activate_in {tbs = tbs} session ak ek blob encrypted)
  unfolding activate_in
  activate_in-Stays session ak ek blob encrypted =
      Stays->>= (transact-Stays 10 (policy_secret_command session)) λ _.
        Stays->>= (transact-Stays 10 (activate_command session ak ek blob encrypted)) λ resp.
          Stays->>= (Stays-guard_not (ltb (length resp) 16) rh_e_malformed_response) λ _.
            Stays->>= (Stays-lift (read_u32 resp 10)) λ size.
              Stays->>= (Stays-guard_not (ltb size 2) rh_e_malformed_response) λ _.
                Stays->>= (Stays-lift (read_u16 resp 14)) λ n.
                  Stays->>= (Stays-guard_not (ltb (length resp) (16 + n)) rh_e_malformed_response)
                    λ _. Stays-lift (slice resp 16 n)

  kept-Same :
      {o : Outcome (Result ℕ × Tpm tbs)} (r : Result Bytes) (t : Tpm tbs)
      → IfOk (λ (out : Result ℕ × Tpm tbs). Same t out.1) o
      → IfOk (λ (out : Result Bytes × Tpm tbs). Same t out.1) (kept r o)
  unfolding kept
  kept-Same r t (if_ok h) = if_ok h
  kept-Same r t if_fault = if_fault
  kept-Same r t if_stuck = if_stuck

  flush_after-Same :
      {o : Outcome (Result Bytes × Tpm tbs)} (session : ℕ) (t : Tpm tbs)
      → IfOk (λ (out : Result Bytes × Tpm tbs). Same t out.1) o
      → IfOk (λ (out : Result Bytes × Tpm tbs). Same t out.1) (flush_after session o)
  unfolding flush_after
  flush_after-Same session t (if_ok {a = (r, s)} h) =
      if-IfOk (session == 0) (λ _. if_ok h)
        (λ _.
          IfOk-weaken (λ out g. Same-trans h g)
            (kept-Same r s ((flush_context-Stays session).stays s)))
  flush_after-Same session t if_fault = if_fault
  flush_after-Same session t if_stuck = if_stuck

  started-Same :
      {o : Outcome (Result ℕ × Tpm tbs)} (ak ek : ℕ) (blob encrypted : Bytes) (t : Tpm tbs)
      → IfOk (λ (out : Result ℕ × Tpm tbs). Same t out.1) o
      → IfOk
          (λ (out : Result Bytes × Tpm tbs). Same t out.1)
          (activate_started ak ek blob encrypted o)
  unfolding activate_started
  started-Same ak ek blob encrypted t (if_ok {a = (success session, s)} h) =
      flush_after-Same session t (
        IfOk-weaken (λ out g. Same-trans h g)
          ((activate_in-Stays session ak ek blob encrypted).stays s))
  started-Same ak ek blob encrypted t (if_ok {a = (failure hr, s)} h) = if_ok h
  started-Same ak ek blob encrypted t if_fault = if_fault
  started-Same ak ek blob encrypted t if_stuck = if_stuck

  pub activate_credential-Stays :
      (ak ek : ℕ) (blob encrypted : Bytes)
      → Stays (activate_credential {tbs = tbs} ak ek blob encrypted)
  unfolding activate_credential
  activate_credential-Stays ak ek blob encrypted = record {
    stays = λ t. started-Same ak ek blob encrypted t (start_session-Stays.stays t);
  }

  read_chunk-Stays : (index want offset : ℕ) → Stays (read_chunk {tbs = tbs} index want offset)
  unfolding read_chunk
  read_chunk-Stays index want offset =
      Stays->>= (transact-Stays 10 (nv_read_command index want offset))
        λ resp. Stays-parsed (parse_nv_buffer resp)

  finish-Stays : (contents : Bytes) → Stays (finish {tbs = tbs} contents)
  unfolding finish
  finish-Stays [] = record { stays = λ t. if_ok (same t) }
  finish-Stays (b ∷ bs) = Stays-return (b ∷ bs)

  nv_loop-Stays :
      (fuel index data_size offset : ℕ) (contents : Bytes)
      → Stays (nv_loop {tbs = tbs} fuel index data_size offset contents)
  unfolding nv_loop
  nv_loop-Stays zero index data_size offset contents = record { stays = λ t. if_stuck }
  nv_loop-Stays (suc fuel) index data_size offset contents =
      Stays-if (ltb offset data_size)
        (Stays->>= (read_chunk-Stays index (want_of data_size offset) offset) λ got.
          nv_loop-Stays fuel index data_size ((offset + length got) % u16_mod) (contents ++ got))
        (finish-Stays contents)

  read_nv_data-Stays : (fuel index : ℕ) → Stays (read_nv_data {tbs = tbs} fuel index)
  unfolding read_nv_data
  read_nv_data-Stays fuel index =
      Stays->>= (transact-Stays 10 (nv_read_public_command index)) λ resp.
        Stays->>= (Stays-parsed (parse_nv_public resp)) λ size. nv_loop-Stays fuel index size 0 []

  collect_slots-Same :
      (n i : ℕ) (stream : Bytes) (t : Tpm tbs)
      → IfOk (λ (out : Bytes × Tpm tbs). Same t out.1) (collect_slots n i stream t)
  unfolding collect_slots
  collect_slots-Same zero i stream t = if_ok (same t)
  collect_slots-Same (suc n) i stream t =
      IfOk->>= ((read_nv_data-Stays u16_mod (0x01C00100 + i)).stays t)
        λ (r, t') h. IfOk-weaken (λ out g. Same-trans h g) (collect_slots-Same n (i + 1) _ t')

  pub read_intel_odca_intermediates-Same :
      (certificates : List Bytes) (t : Tpm tbs)
      → IfOk
          (λ (out : List Bytes × Tpm tbs). Same t out.1)
          (read_intel_odca_intermediates certificates t)
  unfolding read_intel_odca_intermediates
  read_intel_odca_intermediates-Same certificates t =
      IfOk->>= (collect_slots-Same 16 0 [] t) λ (stream, t') h.
        IfOk->>= (any_outcome (cut_chain 9 stream 0 certificates)) λ cut _. if_ok h
