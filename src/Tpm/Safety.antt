-- ===== src/Tpm/Safety.antt =====
-- The rules by which an operation is shown to end with its reads inside the replies, and the
-- readers of responses.
pub mod Operations
use sdk_windows.Prelude.{
  ℕ, zero, suc, ◌+◌, ◌%◌, ◌^◌, ◌≤◌, ◌<◌, ◌≡◌, ◌≢◌, refl, arith, Bool, true, false, not, ◌&&◌, ◌||◌,
  List, [], ◌∷◌, Bytes, length, length-drop, Option, none, some, Outcome, ok, Returns, returns,
  Returns->>=, Returns-weaken, Bool-cases, inl, inr, ltb, leb, ◌==◌, if◌then◌else◌,
}
use sdk_windows.Wire.{read_u8, read_u16, read_u32, slice}
use sdk_windows.Wire.Reads.{read_u8-Returns, read_u16-Returns, read_u32-Returns, slice-Returns}
use sdk_windows.Tpm.{
  Reply, refused, replied, Tbs, Tpm, Run, Result, success, failure, and_then, ◌>>=◌, ◌>>◌, return,
  throw, lift, guard_not, failed, rh_e_malformed_response, hr_from_tpm_rc,
}
use sdk_windows.Tpm.Marshal.{patch_size}
use sdk_windows.Tpm.Replies.{
  skip_selections, parse_digest, digest_behind, parse_pcr_read, parse_quote, parse_public_area,
}
use sdk_windows.Tpm.Commands.{
  answer, send_command, transact, flush_context, parsed, pcr_read, quote, create_and_load_ak,
  create_ek, is_persistent_present, evict_control,
}

-- The operation ends; its value has the property, or its HRESULT says FAILED.
pub data Sound {A S : Type 0} (P : A → Type 0) : Result A × S → Type 0 where
  sound : {a : A} {s : S} → P a → Sound P (success a, s)
  failing : {hr : ℕ} {s : S} → failed hr ≡ true → Sound P (failure hr, s)

pub record Ensures {tbs : Tbs} {A : Type 0} (P : A → Type 0) (m : Run tbs A) : Type 0 where
  pub run : (t : Tpm tbs) → Returns (Sound P) (m t)

abbrev pub Any : {A : Type 0} → A → Type 0
Any a = Unit

and_then-Returns :
    {tbs : Tbs} {A B : Type 0} {P : A → Type 0} {Q : B → Type 0} {r : Outcome (Result A × Tpm tbs)}
    {f : A → Run tbs B}
    → Returns (Sound P) r
    → ((a : A) → P a → Ensures Q (f a))
    → Returns (Sound Q) (and_then r f)
and_then-Returns (returns (sound {a} {s} p)) k = (k a p).run s
and_then-Returns (returns (failing e)) k = returns (failing e)

module _ {tbs : Tbs} where
  pub Ensures->>= :
      {A B : Type 0} {P : A → Type 0} {Q : B → Type 0} {m : Run tbs A} {f : A → Run tbs B}
      → Ensures P m
      → ((a : A) → P a → Ensures Q (f a))
      → Ensures Q (m >>= f)
  Ensures->>= h k = record { run = λ t. and_then-Returns (h.run t) k }

  pub Ensures-return :
      {A : Type 0} {P : A → Type 0} {a : A} → P a → Ensures {tbs = tbs} P (return a)
  Ensures-return p = record { run = λ t. returns (sound p) }

  pub Ensures-lift :
      {A : Type 0} {P : A → Type 0} {o : Outcome A} → Returns P o → Ensures {tbs = tbs} P (lift o)
  Ensures-lift (returns p) = record { run = λ t. returns (sound p) }

  pub Ensures-guard_not :
      (bad : Bool) (hr : ℕ)
      → (bad ≡ true → failed hr ≡ true)
      → Ensures {tbs = tbs} (λ (done : Unit {0}). bad ≡ false) (guard_not bad hr)
  Ensures-guard_not true hr e = record { run = λ t. returns (failing (e refl)) }
  Ensures-guard_not false hr e = record { run = λ t. returns (sound refl) }

  pub Ensures-if :
      {A : Type 0} {P : A → Type 0} (b : Bool) {m n : Run tbs A}
      → (b ≡ true → Ensures P m)
      → (b ≡ false → Ensures P n)
      → Ensures P (if b then m else n)
  Ensures-if true h k = h refl
  Ensures-if false h k = k refl

Sound-weaken :
    {A S : Type 0} {P Q : A → Type 0} {r : Result A × S}
    → ((a : A) → P a → Q a)
    → Sound P r
    → Sound Q r
Sound-weaken f (sound {a} p) = sound (f a p)
Sound-weaken f (failing e) = failing e

pub Ensures-weaken :
    {tbs : Tbs} {A : Type 0} {P Q : A → Type 0} {m : Run tbs A}
    → ((a : A) → P a → Q a)
    → Ensures P m
    → Ensures Q m
Ensures-weaken f h = record { run = λ t. Returns-weaken (λ r. Sound-weaken f) (h.run t) }

-- A reader of a response: it stays inside, and fails with a failing HRESULT only.
pub data Reads {A : Type 0} (P : A → Type 0) : Result A → Type 0 where
  read : {a : A} → P a → Reads P (success a)
  refuses : {hr : ℕ} → failed hr ≡ true → Reads P (failure hr)

pub Ensures-parsed :
    {tbs : Tbs} {A : Type 0} {P : A → Type 0} {o : Outcome (Result A)}
    → Returns (Reads P) o
    → Ensures {tbs = tbs} P (parsed o)
Ensures-parsed (returns (read p)) = record { run = λ t. returns (sound p) }
Ensures-parsed (returns (refuses e)) = record { run = λ t. returns (failing e) }

pub malformed : failed rh_e_malformed_response ≡ true
malformed = refl

hr_from_tpm_rc-failed : (rc : ℕ) → not (rc == 0) ≡ true → failed (hr_from_tpm_rc rc) ≡ true
unfolding hr_from_tpm_rc
hr_from_tpm_rc-failed rc h = ground arith

abbrev pub IsReply : (Bytes → Type 0) → Reply → Type 0
IsReply P (refused result) = Unit
IsReply P (replied response) = P response

-- What a TPM replies to a command has the property.
abbrev pub AllReplies : Tbs → (Bytes → Type 0) → Bytes → Type 0
AllReplies tbs P cmd = (d : tbs.Device) → IsReply P (tbs.submit d (patch_size cmd)).0

Any-replies : (tbs : Tbs) (cmd : Bytes) → AllReplies tbs Any cmd
Any-replies tbs cmd d = any_of (tbs.submit d (patch_size cmd)).0
  where
    any_of : (r : Reply) → IsReply Any r
    any_of (refused result) = tt
    any_of (replied response) = tt

module _ {tbs : Tbs} where
  send_command-Answers :
      (P : Bytes → Type 0) (cmd : Bytes)
      → AllReplies tbs P cmd
      → Ensures {tbs = tbs} (λ (r : ℕ × Bytes). 0 < length r.1 → P r.1) (send_command cmd)
  unfolding send_command
  send_command-Answers P cmd h = record { run = sent }
    where
      answered :
          (a : Reply × tbs.Device)
          → IsReply P a.0
          → Returns (Sound (λ (r : ℕ × Bytes). 0 < length r.1 → P r.1)) (answer {tbs = tbs} a)
      answered (refused result, d) p = returns (sound (λ some_bytes. absurd (omega arith)))
      answered (replied response, d) p = returns (sound (λ _. p))

      sent :
          (t : Tpm tbs)
          → Returns (Sound (λ (r : ℕ × Bytes). 0 < length r.1 → P r.1)) (send_command cmd t)
      sent t = elim (Bool-cases (not t.is_open)) [
        | inl e ↦ rw e (returns (sound (λ some_bytes. absurd (omega arith))))
        | inr e ↦ rw e (answered (tbs.submit t.device (patch_size cmd)) (h t.device))
      ]

  -- A response that passes has the header and the length that the operation asks for.
  pub transact-Answers :
      (P : Bytes → Type 0) (min : ℕ) (cmd : Bytes)
      → 10 ≤ min
      → AllReplies tbs P cmd
      → Ensures {tbs = tbs} (λ (resp : Bytes). (min ≤ length resp) × P resp) (transact min cmd)
  unfolding transact
  transact-Answers P min cmd h replies = Ensures->>= (send_command-Answers P cmd replies) λ sent p.
      Ensures->>= (Ensures-guard_not (failed sent.0) sent.0 (λ e. e)) λ _ _.
        Ensures->>=
          (Ensures-guard_not (ltb (length sent.1) min) rh_e_malformed_response (λ _. malformed))
          λ _ long.
            let enough : min ≤ length sent.1 = ground arith in
            Ensures->>= (Ensures-lift (read_u32-Returns sent.1 6 (omega arith))) λ rc _.
              Ensures->>=
                (Ensures-guard_not (not (rc == 0)) (hr_from_tpm_rc rc) (hr_from_tpm_rc-failed rc))
                λ _ _. Ensures-return (enough, p (omega arith))

  pub send_command-Ensures :
      (cmd : Bytes) → Ensures {tbs = tbs} (λ (r : ℕ × Bytes). Unit {0}) (send_command cmd)
  send_command-Ensures cmd =
      Ensures-weaken (λ _ _. tt) (send_command-Answers Any cmd (Any-replies tbs cmd))

  pub transact-Ensures :
      (min : ℕ) (cmd : Bytes)
      → 10 ≤ min
      → Ensures {tbs = tbs} (λ (resp : Bytes). min ≤ length resp) (transact min cmd)
  transact-Ensures min cmd h =
      Ensures-weaken (λ _ p. p.0) (transact-Answers Any min cmd h (Any-replies tbs cmd))

-- The response readers.
skip_selections-Returns :
    (count : ℕ) (resp : Bytes) (offset : ℕ)
    → Returns (λ (o : Option ℕ). Unit {0}) (skip_selections count resp offset)
unfolding skip_selections
skip_selections-Returns zero resp offset = returns tt
skip_selections-Returns (suc count) resp offset =
    elim (Bool-cases (leb (length resp) (offset + 2))) [
      | inl e ↦ rw e (returns tt)
      | inr e ↦ rw e (
          Returns->>= (read_u8-Returns resp (offset + 2) (ground arith))
            λ select _. skip_selections-Returns count resp (offset + 2 + (1 + select)))
    ]

pub if-Returns :
    {A : Type 0} {P : A → Type 0} (b : Bool) {m n : Outcome A}
    → (b ≡ true → Returns P m)
    → (b ≡ false → Returns P n)
    → Returns P (if b then m else n)
if-Returns true h k = h refl
if-Returns false h k = k refl

pub parse_digest-Reads :
    (resp : Bytes) (offset : ℕ)
    → Returns (Reads (λ (d : Bytes). length d < 2 ^ 16)) (parse_digest resp offset)
unfolding parse_digest
parse_digest-Reads resp offset =
    if-Returns (ltb (length resp) (offset + 4)) (λ _. returns (refuses malformed))
      λ e. Returns->>= (read_u32-Returns resp offset (ground arith)) λ count _.
        if-Returns (ltb 0 count && leb (offset + 6) (length resp))
          (λ k. Returns->>= (read_u16-Returns resp (offset + 4) (ground arith)) λ size hs.
            if-Returns (leb (offset + 6 + size) (length resp))
              (λ fits.
                Returns->>= (slice-Returns resp (offset + 6) size (ground arith))
                  λ d hd. returns (read (omega arith)))
              (λ _. returns (refuses malformed)))
          (λ _. returns (refuses malformed))

pub parse_pcr_read-Reads :
    (resp : Bytes) → Returns (Reads (λ (d : Bytes). length d < 2 ^ 16)) (parse_pcr_read resp)
unfolding parse_pcr_read digest_behind
parse_pcr_read-Reads resp =
    if-Returns (ltb (length resp) 18) (λ _. returns (refuses malformed))
      λ e.
        Returns->>= (read_u32-Returns resp 14 (ground arith))
          λ count _. Returns->>= (skip_selections-Returns count resp 18) λ o _. behind o
  where
    behind :
        (o : Option ℕ) → Returns (Reads (λ (d : Bytes). length d < 2 ^ 16)) (digest_behind resp o)
    behind none = returns (refuses malformed)
    behind (some offset) = parse_digest-Reads resp offset

-- The attestation and the signature together are the response behind its header.
pub parse_quote-Reads :
    (resp : Bytes)
    → Returns
        (Reads (λ (q : Bytes × Bytes). length q.0 + length q.1 + 16 ≡ length resp))
        (parse_quote resp)
unfolding parse_quote
parse_quote-Reads resp =
    if-Returns (ltb (length resp) 14) (λ _. returns (refuses malformed))
      λ e.
        if-Returns (ltb (length resp) 16) (λ _. returns (refuses malformed))
          λ e'. Returns->>= (read_u16-Returns resp 14 (ground arith)) λ size _.
            if-Returns (ltb (length resp) (16 + size)) (λ _. returns (refuses malformed))
              λ k.
                Returns->>= (slice-Returns resp 16 size (ground arith))
                  λ q hq. returns (read (ground (arith, length-drop (16 + size) resp)))

pub parse_public_area-Returns :
    (resp : Bytes) → Returns (λ (a : Bytes). Unit {0}) (parse_public_area resp)
unfolding parse_public_area
parse_public_area-Returns resp =
    if-Returns (ltb (length resp) 20) (λ _. returns tt)
      λ e. Returns->>= (read_u32-Returns resp 14 (ground arith)) λ param_size _.
        if-Returns (ltb 0 param_size && leb (18 + param_size) (length resp))
          (λ k. Returns->>= (read_u16-Returns resp 18 (ground arith)) λ pub_size _.
            if-Returns (ltb 0 pub_size && leb (20 + pub_size) (length resp))
              (λ fits. anything (slice-Returns resp 18 (2 + pub_size) (ground arith)))
              (λ _. returns tt))
          (λ _. returns tt)
  where
    anything :
        {P : Bytes → Type 0} {o : Outcome Bytes} → Returns P o → Returns (λ (a : Bytes). Unit {0}) o
    anything (returns h) = returns tt
