-- ===== src/Boot/EventLog/Analysis/Verdicts.antt =====
-- Lemmas on the verdict and the Secure Boot flag of the analysis (src/boot/event_log_parser.cpp).
use sdk_windows.Prelude.{
  ℕ, zero, suc, ◌<◌, ◌≡◌, ◌↔◌, refl, sym, ◌∙◌, arith, List, [], ◌∷◌, ◌++◌, Bool, true, false, Bytes,
  Text, codes, text_eq, length, Option, none, some, Outcome, ok, Returns, returns, Returns-eq_ok,
  Returns-at, >>=-eq_ok, leb, if◌then◌else◌, Bool-cases, inl, inr, ◌>>=◌, Returns-of_eq, ap,
}
use sdk_windows.Wire.Cursor.{Cursor}
use sdk_windows.Boot.EventLog.{EventLogEntry, EventLogAnalysis, unknown, pass, fail, warning}
use sdk_windows.Boot.EventLog.Describe.{extract_efi_variable_name, is_secure_boot_enabled}
use sdk_windows.Boot.EventLog.Entry.{read_entry}
use sdk_windows.Boot.EventLog.Analysis.{
  Case, efi_variable, case_of, as_unknown, note_variable, note_flags, note_other, note_case,
  note_entry, walk, skip_spec_id_header, conclude, blank_analysis, parse_and_analyze_event_log,
}
use sdk_windows.Boot.EventLog.Analysis.Counts.{
  tally, Noted-unknown, RawEvent, raw_of, Noted, note_entry-Noted,
  parse_and_analyze_event_log-IsPaid,
}

-- What every noted entry keeps holds at the end of a walk that returns.
pub walk_inv :
    (P : EventLogAnalysis → Type 0)
    → ((a : EventLogAnalysis) (e : EventLogEntry) (a' : EventLogAnalysis)
        → note_entry a e ≡ ok a'
        → P a
        → P a')
    → (fuel : ℕ) (raw : Bytes) (c : Cursor) (a : EventLogAnalysis) {r : EventLogAnalysis}
    → walk fuel raw c a ≡ ok r
    → P a
    → P r
unfolding walk
walk_inv P keep zero raw c a e h = cc
walk_inv P keep (suc fuel) raw c a {r} e h = elim (Bool-cases (leb 12 c.remaining)) [
  | inr over ↦ here P (rw over at e) h
  | inl more ↦
      let (o, read, later) = >>=-eq_ok (read_entry raw c) _ (rw more at e) in
      next (λ c' a'. walk_inv P keep fuel raw c' a') o later
]
  where
    here : (Q : EventLogAnalysis → Type 0) {x y : EventLogAnalysis} → ok x ≡ ok y → Q x → Q y
    here Q p q = Returns-at {P = Q} (returns q) p

    next :
        ((c' : Cursor) (a' : EventLogAnalysis) → walk fuel raw c' a' ≡ ok r → P a' → P r)
        → (o : Option (EventLogEntry × Cursor))
        → elim o [ none ↦ ok a | some (e', c') ↦ note_entry a e' >>= λ a'. walk fuel raw c' a' ]
          ≡ ok r
        → P r
    next rest none p = here P p h
    next rest (some (e', c')) p =
        let (a', noted, q) = >>=-eq_ok (note_entry a e') _ p in rest c' a' q (keep a e' a' noted h)

-- The entry's statement on Secure Boot: only an EFI variable event named "SecureBoot" makes one.
unfoldable pub read_switch : Bytes → Outcome Text → Option Bool
read_switch raw (ok name) =
    if text_eq name (codes "SecureBoot")
    then elim (is_secure_boot_enabled name raw) [ ok b ↦ some b | _ ↦ none ]
    else none
read_switch raw _ = none

unfoldable pub switch_in : Case → Bytes → Option Bool
unfolding read_switch
switch_in efi_variable raw = read_switch raw (extract_efi_variable_name raw)
switch_in _ raw = none

abbrev pub switch_of : RawEvent → Option Bool
switch_of e = switch_in (case_of e.event_type) e.event_data

abbrev pub switched : Option Bool → Bool → Bool
switched none b = b
switched (some b') b = b'

-- The last statement among the entries, `false` without one.
abbrev pub final_switch : Bool → List EventLogEntry → Bool
final_switch b [] = b
final_switch b (e ∷ es) = final_switch (switched (switch_of (raw_of e)) b) es

final_switch-concat :
    (b : Bool) (es : List EventLogEntry) (e : EventLogEntry)
    → final_switch b (es ++ e ∷ []) ≡ switched (switch_of (raw_of e)) (final_switch b es)
final_switch-concat b [] e = refl
final_switch-concat b (x ∷ es) e = final_switch-concat (switched (switch_of (raw_of x)) b) es e

note_case-switch :
    (k : Case) (a : EventLogAnalysis) (e : EventLogEntry) {a' : EventLogAnalysis}
    → note_case k a e ≡ ok a'
    → a'.secure_boot_enabled ≡ switched (switch_in k e.event_data) a.secure_boot_enabled
unfolding note_case switch_in note_variable note_flags note_other as_unknown
note_case-switch efi_variable a e p = ground arith
note_case-switch _ a e p = ground arith

abbrev IsSwitched : EventLogAnalysis → Type 0
IsSwitched a = a.secure_boot_enabled ≡ final_switch false a.entries

note_entry-IsSwitched :
    (a : EventLogAnalysis) (e : EventLogEntry) (a' : EventLogAnalysis)
    → note_entry a e ≡ ok a'
    → IsSwitched a
    → IsSwitched a'
note_entry-IsSwitched a e a' p h =
    let n : Noted a e a' = Returns-at (note_entry-Noted a e) p in
    note_case-switch (case_of e.event_type) a e p
    ∙ rw h (
        ap (λ (r : RawEvent). switched (switch_of r) (final_switch false a.entries)) (sym n.as_read)
        ∙ sym (final_switch-concat false a.entries n.noted)
        ∙ ap (final_switch false) (sym n.pushed))

-- The verdict and the flag, read off the entries.
pub record IsJudged (a : EventLogAnalysis) : Type 0 where
  pub flag_is : a.secure_boot_enabled ≡ final_switch false a.entries
  pub pass_iff :
      (a.verdict ≡ pass) ↔ ((final_switch false a.entries ≡ true) × (tally unknown a.entries ≡ 0))
  pub warning_iff :
      (a.verdict ≡ warning)
      ↔ ((final_switch false a.entries ≡ true) × (0 < tally unknown a.entries))
  pub fail_iff : (a.verdict ≡ fail) ↔ (final_switch false a.entries ≡ false)

conclude-IsJudged :
    (a : EventLogAnalysis)
    → a.unknown_count ≡ tally unknown a.entries
    → IsSwitched a
    → IsJudged (conclude a)
unfolding conclude
conclude-IsJudged a t s = ground arith

parse-IsJudged :
    (raw : Bytes) (a : EventLogAnalysis) → parse_and_analyze_event_log raw ≡ ok a → IsJudged a
unfolding parse_and_analyze_event_log
parse-IsJudged raw a e =
    let (c, _, e1) = >>=-eq_ok (skip_spec_id_header raw) _ e in
    let (b, walked, e2) = >>=-eq_ok (walk (suc (length raw)) raw c blank_analysis) _ e1 in
    let t =
      walk_inv (λ a. (a.unknown_count ≡ tally unknown a.entries) × IsSwitched a) keep
        (suc (length raw)) raw c blank_analysis walked (refl, refl) in
    Returns-at {P = IsJudged} (returns (conclude-IsJudged b t.0 t.1)) e2
  where
    keep :
        (a : EventLogAnalysis) (e : EventLogEntry) (a' : EventLogAnalysis)
        → note_entry a e ≡ ok a'
        → (a.unknown_count ≡ tally unknown a.entries) × IsSwitched a
        → (a'.unknown_count ≡ tally unknown a'.entries) × IsSwitched a'
    keep a e a' p h =
        let n : Noted a e a' = Returns-at (note_entry-Noted a e) p in
        (Noted-unknown n h.0, note_entry-IsSwitched a e a' p h.1)

-- On every log the analysis returns, its Secure Boot flag is what the last EFI variable event named
-- "SecureBoot" states (false without one), and its verdict is PASS exactly when the flag is set and
-- no entry is unknown, WARNING exactly when the flag is set and some entry is unknown, and FAIL
-- exactly when the flag is not set.
pub parse_and_analyze_event_log-IsJudged :
    (raw : Bytes) → Returns IsJudged (parse_and_analyze_event_log raw)
parse_and_analyze_event_log-IsJudged raw =
    let (a, e, _) = Returns-eq_ok (parse_and_analyze_event_log-IsPaid raw) in
    Returns-of_eq a e (parse-IsJudged raw a e)
