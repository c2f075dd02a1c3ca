-- ===== src/Client/Contexts/Calls.antt =====
-- The calls of the driver (src/client/rootherald_win.cpp) with their contexts.
use sdk_windows.Prelude.{
  ℕ, ◌+◌, ◌<◌, ◌≡◌, refl, arith, Bool, true, false, not, ◌||◌, List, [], ◌∷◌, Bytes, Text, codes,
  is_empty, Option, none, some, Outcome, ok, Returns, returns, Returns-weaken, if◌then◌else◌, ◌==◌,
}
use sdk_windows.Prelude
use sdk_windows.Json.{json_build, json_get}
use sdk_windows.Tpm.{Tbs, Tpm, Result, success, failure, failed}
use sdk_windows.Tpm.Contexts.{
  Counts, IfOk, if_ok, IfOk-weaken, IfOk->>=, if-IfOk, any_outcome,
  read_intel_odca_intermediates-Same,
}
use sdk_windows.Tpm.KeyProvider.{Provider, new_provider, open_provider, delete_ak}
use sdk_windows.Windows.{Windows}
use sdk_windows.Windows.Pcp.{open_pcp, read_ek_public_key}
use sdk_windows.Windows.Base64.{base64_decode}
use sdk_windows.Client.Status.{
  RootHeraldStatus, tpm_unavailable, ak_failed, activation_failed, internal, Answer,
}
use sdk_windows.Client.Gather.{
  EkEnrollData, gather_cert_pem, gather_intermediates, gather_with_key, gather_ek_enroll_data,
  build_enroll_fields,
}
use sdk_windows.Client.Enroll.{
  State, is_process_elevated, allocated, attach, fail_begin, delete_and_fail, replace_held,
  begin_created, begin_opened, begin_gathered, enroll_begin, end_enrollment, activation_answer,
  complete_persisted, complete_activated, complete_held, enroll_complete,
}
use sdk_windows.Client.Contexts.{
  open_count, Moves, Moves-trans, Moves-add, Moves-end, Moves-hold, Moves-refl, Same-Moves,
  opened-Moves, close_tpm-Moves, delete_ak-Kept, create_ak-Kept, activate-Kept, persist_ak-Kept,
  discard-Moves,
}

module _ {tbs : Tbs} (c : Counts tbs) where
  -- The contexts of the provider that is held.
  abbrev pub held_count : Option (Provider tbs) → ℕ
  held_count none = 0
  held_count (some p) = open_count c p.tpm

  -- A call with so many contexts open ends with those of the held provider only.
  abbrev pub Closes : tbs.Device → ℕ → Answer × State tbs → Type 0
  Closes d h r = Moves c d h r.1.device (held_count r.1.enroll_provider)

  fail_begin-Closes :
      (status : RootHeraldStatus) (held : Option (Provider tbs)) (p : Provider tbs)
      → IfOk (Closes p.tpm.device (open_count c p.tpm + held_count held)) (fail_begin status held p)
  unfolding fail_begin
  fail_begin-Closes status held p =
      IfOk->>= (discard-Moves c p) λ d m. if_ok (Moves-end c (held_count held) m)

  delete_and_fail-Closes :
      (status : RootHeraldStatus) (held : Option (Provider tbs)) (p : Provider tbs)
      → IfOk
          (Closes p.tpm.device (open_count c p.tpm + held_count held))
          (delete_and_fail status held p)
  unfolding delete_and_fail
  delete_and_fail-Closes status held p = IfOk->>= (delete_ak-Kept c p) λ (hr, q) s.
      IfOk-weaken (λ r m. Moves-trans c (Moves-add c (held_count held) (Same-Moves c s)) m)
        (fail_begin-Closes status held q)

  replace_held-Closes :
      (held : Option (Provider tbs)) (p : Provider tbs)
      → IfOk
          (λ (s : State tbs).
            Moves c p.tpm.device
              (open_count c p.tpm + held_count held)
              s.device
              (held_count s.enroll_provider))
          (replace_held held p)
  unfolding replace_held
  replace_held-Closes none p = if_ok (record { balance = omega arith })
  replace_held-Closes (some old) p =
      IfOk->>= (discard-Moves c (attach p.tpm.device old))
        λ d m. let a = m.balance in if_ok (record { balance = omega (arith, a) })

  begin_created-Closes :
      (w : Windows) (held : Option (Provider tbs)) (ek : EkEnrollData) (hr : ℕ) (p : Provider tbs)
      → IfOk
          (Closes p.tpm.device (open_count c p.tpm + held_count held))
          (begin_created w held ek hr p)
  unfolding begin_created
  begin_created-Closes w held ek hr p =
      let json = json_build (build_enroll_fields w.base64 ek p.ak_public_area) in
      if-IfOk (failed hr) (λ _. fail_begin-Closes ak_failed held p)
        λ _.
          if-IfOk (is_empty p.ak_public_area) (λ _. delete_and_fail-Closes ak_failed held p)
            λ _.
              if-IfOk (not (allocated w json)) (λ _. delete_and_fail-Closes internal held p)
                λ _. IfOk->>= (replace_held-Closes held p) λ s m. if_ok m

  begin_opened-Closes :
      (w : Windows) (held : Option (Provider tbs)) (ek : EkEnrollData) (hr : ℕ) (p : Provider tbs)
      → IfOk
          (Closes p.tpm.device (open_count c p.tpm + held_count held))
          (begin_opened w held ek (hr, p))
  unfolding begin_opened
  begin_opened-Closes w held ek hr p =
      if-IfOk (failed hr) (λ _. fail_begin-Closes tpm_unavailable held p)
        λ _. IfOk->>= (create_ak-Kept c p) λ (made, q) s.
          IfOk-weaken (λ r m. Moves-trans c (Moves-add c (held_count held) (Same-Moves c s)) m)
            (begin_created-Closes w held ek made q)

  begin_gathered-Closes :
      (w : Windows) (held : Option (Provider tbs)) (gathered : Option EkEnrollData × tbs.Device)
      → IfOk (Closes gathered.1 (held_count held)) (begin_gathered w held gathered)
  unfolding begin_gathered open_provider new_provider
  begin_gathered-Closes w held (none, d) = if_ok (record { balance = omega arith })
  begin_gathered-Closes w held (some ek, d) =
      IfOk-weaken
        (λ r m.
          let a = m.balance in
          let b = (opened-Moves c d).balance in record { balance = omega (arith, a, b) })
        (begin_opened-Closes w held ek _ _)

  gather_intermediates-Moves :
      (w : Windows) (hr : ℕ) (t : Tpm tbs)
      → IfOk
          (λ (g : List Bytes × tbs.Device). Moves c t.device (open_count c t) g.1 0)
          (gather_intermediates w (hr, t))
  unfolding gather_intermediates
  gather_intermediates-Moves w hr t =
      if-IfOk (failed hr) (λ _. if_ok (close_tpm-Moves c t))
        λ _.
          IfOk->>= (read_intel_odca_intermediates-Same c [] t)
            λ (own, t') s. if_ok (Moves-trans c (Same-Moves c s) (close_tpm-Moves c t'))

  gather_with_key-Moves :
      (fuel : ℕ) (w : Windows) (d : tbs.Device) (provider : Bool) (r : Result Bytes)
      → IfOk
          (λ (g : Option EkEnrollData × tbs.Device). Moves c d 0 g.1 0)
          (gather_with_key tbs fuel w d provider r)
  unfolding gather_with_key
  gather_with_key-Moves fuel w d provider (failure hr) = if_ok (Moves-refl c)
  gather_with_key-Moves fuel w d provider (success ek) =
      if-IfOk (is_empty ek) (λ _. if_ok (Moves-refl c))
        λ _. IfOk->>= (any_outcome (gather_cert_pem fuel w ek provider)) λ pem _.
          IfOk->>= (gather_intermediates-Moves w _ _)
            λ (chain, d') m. if_ok (Moves-trans c (opened-Moves c d) m)

  -- The data is gathered with a context of its own.
  gather-Moves :
      (fuel : ℕ) (w : Windows) (d : tbs.Device)
      → IfOk
          (λ (g : Option EkEnrollData × tbs.Device). Moves c d 0 g.1 0)
          (gather_ek_enroll_data tbs fuel w d)
  unfolding gather_ek_enroll_data
  gather-Moves fuel w d =
      if-IfOk (failed (open_pcp w.ncrypt false).0) (λ _. if_ok (Moves-refl c))
        (λ _.
          gather_with_key-Moves fuel w d (open_pcp w.ncrypt false).1
            (read_ek_public_key w.ncrypt (open_pcp w.ncrypt false).1))

  pub enroll_begin-Closes :
      (fuel : ℕ) (w : Windows) (s : State tbs)
      → IfOk (Closes s.device (held_count s.enroll_provider)) (enroll_begin fuel w s)
  unfolding enroll_begin
  enroll_begin-Closes fuel w s =
      if-IfOk (not (is_process_elevated w)) (λ _. if_ok (Moves-refl c))
        λ _. IfOk->>= (gather-Moves fuel w s.device) λ g m.
          IfOk-weaken (λ r k. Moves-trans c (Moves-hold c (held_count s.enroll_provider) m) k)
            (begin_gathered-Closes w s.enroll_provider g)

  end_enrollment-Closes :
      (answer : Answer) (p : Provider tbs)
      → IfOk (Closes p.tpm.device (open_count c p.tpm)) (end_enrollment answer p)
  unfolding end_enrollment
  end_enrollment-Closes answer p = IfOk->>= (discard-Moves c p) λ d m. if_ok m

  complete_persisted-Closes :
      (w : Windows) (id : Text) (secret : Bytes) (hr : ℕ) (p : Provider tbs)
      → IfOk (Closes p.tpm.device (open_count c p.tpm)) (complete_persisted w id secret (hr, p))
  unfolding complete_persisted
  complete_persisted-Closes w id secret hr p =
      if-IfOk (failed hr) (λ _. end_enrollment-Closes (ak_failed, none) p)
        (λ _. end_enrollment-Closes (activation_answer w id secret) p)

  burned-Closes :
      (p : Provider tbs)
      → IfOk
          (Closes p.tpm.device (open_count c p.tpm))
          (Prelude.◌>>=◌ (delete_ak p) (λ (hr, q). end_enrollment (activation_failed, none) q))
  burned-Closes p = IfOk->>= (delete_ak-Kept c p) λ (hr, q) s.
      IfOk-weaken (λ r m. Moves-trans c (Same-Moves c s) m)
        (end_enrollment-Closes (activation_failed, none) q)

  complete_activated-Closes :
      (w : Windows) (id : Text) (r : Result Bytes) (p : Provider tbs)
      → IfOk (Closes p.tpm.device (open_count c p.tpm)) (complete_activated w id (r, p))
  unfolding complete_activated
  complete_activated-Closes w id (failure hr) p = burned-Closes p
  complete_activated-Closes w id (success []) p = burned-Closes p
  complete_activated-Closes w id (success (b ∷ bs)) p = IfOk->>= (persist_ak-Kept c p) λ (hr, q) s.
      IfOk-weaken (λ r m. Moves-trans c (Same-Moves c s) m)
        (complete_persisted-Closes w id (b ∷ bs) hr q)

  pub complete_from :
      (w : Windows) (challenge : Text) (d : tbs.Device) (held : Option (Provider tbs))
      → IfOk
          (Closes d (held_count held))
          (enroll_complete w challenge (record { device = d; enroll_provider = held }))
  unfolding enroll_complete complete_held
  complete_from w challenge d none = if_ok (Moves-refl c)
  complete_from w challenge d (some p) =
      let id = json_get challenge (codes "deviceId") in
      let blob = json_get challenge (codes "credentialBlob") in
      let encrypted = json_get challenge (codes "encryptedSecret") in
      if-IfOk (is_empty id || is_empty blob || is_empty encrypted) (λ _. if_ok (Moves-refl c))
        λ _.
          IfOk->>=
            (activate-Kept c (base64_decode w.base64 blob) (base64_decode w.base64 encrypted)
              (attach d p))
            λ (r, q) s.
              IfOk-weaken (λ out m. Moves-trans c (Same-Moves c s) m)
                (complete_activated-Closes w id r q)
