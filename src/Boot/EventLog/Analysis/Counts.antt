-- ===== src/Boot/EventLog/Analysis/Counts.antt =====
-- Lemmas on the walk over the entries (src/boot/event_log_parser.cpp), its counters and its end.
use sdk_windows.Prelude.{
  ℕ, zero, suc, ◌+◌, ◌*◌, ◌≤◌, ◌<◌, ◌≡◌, refl, arith, List, [], ◌∷◌, ◌++◌, Bool, Bytes, Text,
  length, length-append, Option, none, some, ok, Returns, returns, Returns->>=, Returns-weaken, leb,
  ltb, ◌==◌, Bool-cases, inl, inr, ◌>>=◌, ◌%◌, ◌&&◌,
}
use sdk_windows.Wire.{size_mod}
use sdk_windows.Wire.Reads.{read_u32_le-Returns}
use sdk_windows.Wire.Cursor.{Cursor, InBounds, advance-Returns}
use sdk_windows.Boot.EventLog.{
  EventLogEntry, EventLogAnalysis, Classification, verified, unknown, policy, ev_no_action,
}
use sdk_windows.Boot.EventLog.Safety.{
  extract_efi_variable_name-Returns, is_secure_boot_enabled-Returns, extract_boot_app_path-Returns,
  crtm_version-Returns, EntryEnds, read_entry-Returns,
}
use sdk_windows.Boot.EventLog.Analysis.{
  Case, efi_variable, boot_application, boot_driver, firmware_blob, crtm, named_component,
  separator, efi_action, variable_authority, gpt_event, no_action, handoff_tables, config_flags,
  compact_hash, runtime_driver, other_type, case_of, as_verified, as_policy, as_unknown,
  note_variable, note_flags, describe_variable, note_other, note_case, note_entry, walk,
  skip_header, skip_spec_id_header, conclude, blank_analysis, parse_and_analyze_event_log,
}

-- 1 if the two are the same.
abbrev pub one_if : Classification → Classification → ℕ
one_if verified verified = 1
one_if unknown unknown = 1
one_if policy policy = 1
one_if _ _ = 0

-- How many entries are classified so.
abbrev pub tally : Classification → List EventLogEntry → ℕ
tally k [] = 0
tally k (e ∷ es) = one_if k e.classification + tally k es

tally-concat :
    (k : Classification) (es : List EventLogEntry) (e : EventLogEntry)
    → tally k (es ++ e ∷ []) ≡ tally k es + one_if k e.classification
tally-concat k [] e = omega arith
tally-concat k (x ∷ es) e = omega (arith, tally-concat k es e)

-- What an entry holds as it was read from the log.
pub record RawEvent : Type 0 where
  pub pcr_index : ℕ
  pub event_type : ℕ
  pub digests : List (ℕ × Bytes)
  pub event_data : Bytes

abbrev pub raw_of : EventLogEntry → RawEvent
raw_of e = record {
  pcr_index = e.pcr_index;
  event_type = e.event_type;
  digests = e.digests;
  event_data = e.event_data;
}

-- `e` is pushed as `noted`, with its description and classification, and counted once.
pub record Noted (a : EventLogAnalysis) (e : EventLogEntry) (a' : EventLogAnalysis) : Type 0 where
  pub noted : EventLogEntry
  pub pushed : a'.entries ≡ a.entries ++ noted ∷ []
  pub as_read : raw_of noted ≡ raw_of e
  pub verified_is : a'.verified_count ≡ a.verified_count + one_if verified noted.classification
  pub unknown_is : a'.unknown_count ≡ a.unknown_count + one_if unknown noted.classification
  pub policy_is : a'.policy_count ≡ a.policy_count + one_if policy noted.classification

module _ (a : EventLogAnalysis) (e : EventLogEntry) where
  as_verified-Noted : (text : Text) → Noted a e (as_verified a e text)
  unfolding as_verified
  as_verified-Noted text = record {
    noted = record e { description = text; classification = verified };
    pushed = refl;
    as_read = refl;
    verified_is = refl;
    unknown_is = omega arith;
    policy_is = omega arith;
  }

  as_policy-Noted : (text : Text) → Noted a e (as_policy a e text)
  unfolding as_policy
  as_policy-Noted text = record {
    noted = record e { description = text; classification = policy };
    pushed = refl;
    as_read = refl;
    verified_is = omega arith;
    unknown_is = omega arith;
    policy_is = refl;
  }

  as_unknown-Noted : (text : Text) → Noted a e (as_unknown a e text)
  unfolding as_unknown
  as_unknown-Noted text = record {
    noted = record e { description = text; classification = unknown };
    pushed = refl;
    as_read = refl;
    verified_is = omega arith;
    unknown_is = refl;
    policy_is = omega arith;
  }

  note_variable-Noted : (name : Text) (enabled : Bool) → Noted a e (note_variable a e name enabled)
  unfolding note_variable note_flags
  note_variable-Noted name enabled = record {
    noted = record e { description = describe_variable name enabled; classification = policy };
    pushed = refl;
    as_read = refl;
    verified_is = omega arith;
    unknown_is = omega arith;
    policy_is = refl;
  }

  note_other-Noted : Noted a e (note_other a e)
  unfolding note_other
  note_other-Noted = elim (Bool-cases (leb 11 e.pcr_index && leb e.pcr_index 14)) [
    | inl t ↦ rw t (as_verified-Noted _)
    | inr t ↦ rw t (as_unknown-Noted _)
  ]

  note_case-Noted : (k : Case) → Returns (Noted a e) (note_case k a e)
  unfolding note_case
  note_case-Noted efi_variable =
      Returns->>= (extract_efi_variable_name-Returns e.event_data) λ name _.
        Returns->>= (is_secure_boot_enabled-Returns name e.event_data)
          λ enabled _. returns (note_variable-Noted name enabled)
  note_case-Noted boot_application =
      Returns->>= (extract_boot_app_path-Returns e.event_data)
        λ path _. returns (as_verified-Noted _)
  note_case-Noted boot_driver =
      Returns->>= (extract_boot_app_path-Returns e.event_data)
        λ path _. returns (as_verified-Noted _)
  note_case-Noted firmware_blob = returns (as_verified-Noted _)
  note_case-Noted crtm =
      Returns->>= (crtm_version-Returns e.event_data) λ version _. returns (as_verified-Noted _)
  note_case-Noted named_component = returns (as_verified-Noted _)
  note_case-Noted separator = returns (as_policy-Noted _)
  note_case-Noted efi_action = returns (as_policy-Noted _)
  note_case-Noted variable_authority = returns (as_policy-Noted _)
  note_case-Noted gpt_event = returns (as_policy-Noted _)
  note_case-Noted no_action = returns (as_policy-Noted _)
  note_case-Noted handoff_tables = returns (as_policy-Noted _)
  note_case-Noted config_flags = returns (as_policy-Noted _)
  note_case-Noted compact_hash = returns (as_verified-Noted _)
  note_case-Noted runtime_driver =
      Returns->>= (extract_boot_app_path-Returns e.event_data)
        λ path _. returns (as_verified-Noted _)
  note_case-Noted other_type = returns note_other-Noted

pub note_entry-Noted :
    (a : EventLogAnalysis) (e : EventLogEntry) → Returns (Noted a e) (note_entry a e)
note_entry-Noted a e = note_case-Noted a e (case_of e.event_type)

-- The counters are the numbers of entries of each classification.
pub record IsTallied (a : EventLogAnalysis) : Type 0 where
  pub verified_tally : a.verified_count ≡ tally verified a.entries
  pub unknown_tally : a.unknown_count ≡ tally unknown a.entries
  pub policy_tally : a.policy_count ≡ tally policy a.entries

Noted-IsTallied :
    {a : EventLogAnalysis} {e : EventLogEntry} {a' : EventLogAnalysis}
    → Noted a e a'
    → IsTallied a
    → IsTallied a'
Noted-IsTallied {a} n t = record {
  verified_tally = rw n.pushed (omega (arith, tally-concat verified a.entries n.noted));
  unknown_tally = rw n.pushed (omega (arith, tally-concat unknown a.entries n.noted));
  policy_tally = rw n.pushed (omega (arith, tally-concat policy a.entries n.noted));
}

-- What the walk keeps: every entry has taken at least 16 bytes of the log.
pub record WalkInv (raw : Bytes) (c : Cursor) (a : EventLogAnalysis) : Type 0 where
  pub tallied : IsTallied a
  pub paid : 16 * length a.entries + c.remaining ≤ length raw

WalkInv-step :
    (raw : Bytes) {c c' : Cursor} {a a' : EventLogAnalysis} {e : EventLogEntry}
    → WalkInv raw c a
    → c'.remaining + 16 ≤ c.remaining
    → Noted a e a'
    → WalkInv raw c' a'
WalkInv-step raw {a = a} w le n = record {
  tallied = Noted-IsTallied n w.tallied;
  paid = rw n.pushed (omega (arith, w.paid, length-append a.entries (n.noted ∷ [])));
}

abbrev pub IsPaid : Bytes → EventLogAnalysis → Type 0
IsPaid raw a = IsTallied a × (16 * length a.entries ≤ length raw)

walk-Returns :
    (fuel : ℕ) (raw : Bytes) (c : Cursor) (a : EventLogAnalysis)
    → InBounds raw c
    → c.remaining < fuel
    → WalkInv raw c a
    → Returns (IsPaid raw) (walk fuel raw c a)
unfolding walk
walk-Returns zero raw c a b h w = absurd (omega arith)
walk-Returns (suc fuel) raw c a b h w = elim (Bool-cases (leb 12 c.remaining)) [
  | inr over ↦ rw over (returns (w.tallied, omega (arith, w.paid)))
  | inl more ↦
      rw more
        (Returns->>= (read_entry-Returns raw c b (ground arith)) (next (walk-Returns fuel raw)))
]
  where
    next :
        ((c' : Cursor) (a' : EventLogAnalysis)
          → InBounds raw c'
          → c'.remaining < fuel
          → WalkInv raw c' a'
          → Returns (IsPaid raw) (walk fuel raw c' a'))
        → (o : Option (EventLogEntry × Cursor)) → EntryEnds raw c o
        → Returns
            (IsPaid raw)
            (elim o [ none ↦ ok a | some (e, c') ↦ note_entry a e >>= λ a'. walk fuel raw c' a' ])
    next rest none k = returns (w.tallied, omega (arith, w.paid))
    next rest (some (e, c')) (b', le) =
        Returns->>= (note_entry-Noted a e)
          λ a' n. rest c' a' b' (omega arith) (WalkInv-step raw w le n)

skip_header-Returns :
    (raw : Bytes) (skip : ℕ)
    → Returns (InBounds raw) (skip_header raw (record { pos = 0; remaining = length raw }) skip)
unfolding skip_header
skip_header-Returns raw skip = elim (Bool-cases (leb skip (length raw))) [
  | inr e ↦ rw e (returns (omega arith))
  | inl e ↦ rw e (
      Returns-weaken (λ c a. a.in_bounds) (advance-Returns raw _ skip (omega arith) (ground arith)))
]

pub skip_spec_id_header-Returns : (raw : Bytes) → Returns (InBounds raw) (skip_spec_id_header raw)
unfolding skip_spec_id_header
skip_spec_id_header-Returns raw = elim (Bool-cases (ltb (length raw) 32)) [
  | inl e ↦ rw e (returns (omega arith))
  | inr e ↦
      let fits : 32 ≤ length raw = ground arith in
      rw e (
        Returns->>= (read_u32_le-Returns raw 4 (omega arith)) λ type _.
          elim (Bool-cases (type == ev_no_action)) [
            | inr k ↦ rw k (returns (omega arith))
            | inl k ↦ rw k (
                Returns->>= (read_u32_le-Returns raw 28 (omega arith))
                  λ size _. skip_header-Returns raw ((32 + size) % size_mod))
          ])
]

conclude-IsPaid : (raw : Bytes) (a : EventLogAnalysis) → IsPaid raw a → IsPaid raw (conclude a)
unfolding conclude
conclude-IsPaid raw a h = ground arith

-- On every log, well formed or not, the analysis comes to an end with no access outside of the log.
-- Its three counters are the numbers of entries of each classification, and each entry has taken
-- at least 16 bytes of the log.
pub parse_and_analyze_event_log-IsPaid :
    (raw : Bytes) → Returns (IsPaid raw) (parse_and_analyze_event_log raw)
unfolding parse_and_analyze_event_log
parse_and_analyze_event_log-IsPaid raw = Returns->>= (skip_spec_id_header-Returns raw) λ c b.
    Returns->>=
      (walk-Returns (suc (length raw)) raw c blank_analysis b (omega arith)
        (record { tallied = omega arith; paid = omega arith }))
      λ a h. returns (conclude-IsPaid raw a h)

pub Noted-unknown :
    {a : EventLogAnalysis} {e : EventLogEntry} {a' : EventLogAnalysis}
    → Noted a e a'
    → a.unknown_count ≡ tally unknown a.entries
    → a'.unknown_count ≡ tally unknown a'.entries
Noted-unknown {a} n t = rw n.pushed (omega (arith, tally-concat unknown a.entries n.noted))
