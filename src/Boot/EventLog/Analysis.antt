-- ===== src/Boot/EventLog/Analysis.antt =====
-- `ParseAndAnalyzeEventLog` of src/boot/event_log_parser.cpp: the Spec ID header, the walk over the
-- entries, the switch that classifies each, and the verdict.
pub mod Counts
pub mod Verdicts
use sdk_windows.Prelude.{
  ℕ, zero, suc, ◌+◌, ◌%◌, Bool, true, false, ◌&&◌, ◌||◌, List, [], ◌∷◌, ◌++◌, Bytes, Text, codes,
  text_eq, to_string, length, Option, none, some, Outcome, ok, stuck, ◌>>=◌, ltb, leb, ◌==◌,
  if◌then◌else◌,
}
use sdk_windows.Wire.{read_u32_le, size_mod}
use sdk_windows.Wire.Cursor.{Cursor, advance}
use sdk_windows.Boot.EventLog.{
  EventLogEntry, EventLogAnalysis, Classification, verified, unknown, policy, Verdict, pass, fail,
  warning, event_type_name, ev_efi_variable_driver_config, ev_efi_variable_boot,
  ev_efi_variable_boot2, ev_efi_boot_services_application, ev_efi_boot_services_driver,
  ev_efi_platform_firmware_blob, ev_efi_platform_firmware_blob2, ev_s_crtm_version, ev_post_code,
  ev_s_crtm_contents, ev_cpu_microcode, ev_separator, ev_efi_action, ev_efi_variable_authority,
  ev_efi_gpt_event, ev_no_action, ev_efi_handoff_tables, ev_efi_handoff_tables2,
  ev_platform_config_flags, ev_compact_hash, ev_efi_runtime_services_driver,
}
use sdk_windows.Boot.EventLog.Describe.{
  extract_efi_variable_name, extract_boot_app_path, crtm_version, is_secure_boot_enabled,
}
use sdk_windows.Boot.EventLog.Entry.{read_entry}

-- The case groups of the switch over the event type.
pub data Case : Type 0 where
  efi_variable boot_application boot_driver firmware_blob crtm named_component : Case
  separator efi_action variable_authority gpt_event no_action handoff_tables : Case
  config_flags compact_hash runtime_driver other_type : Case

unfoldable pub case_of : ℕ → Case
case_of t =
    if t == ev_efi_variable_driver_config || t == ev_efi_variable_boot || t == ev_efi_variable_boot2
    then efi_variable
    else if t == ev_efi_boot_services_application
    then boot_application
    else if t == ev_efi_boot_services_driver
    then boot_driver
    else if t == ev_efi_platform_firmware_blob || t == ev_efi_platform_firmware_blob2
    then firmware_blob
    else if t == ev_s_crtm_version
    then crtm
    else if t == ev_post_code || t == ev_s_crtm_contents || t == ev_cpu_microcode
    then named_component
    else if t == ev_separator
    then separator
    else if t == ev_efi_action
    then efi_action
    else if t == ev_efi_variable_authority
    then variable_authority
    else if t == ev_efi_gpt_event
    then gpt_event
    else if t == ev_no_action
    then no_action
    else if t == ev_efi_handoff_tables || t == ev_efi_handoff_tables2
    then handoff_tables
    else if t == ev_platform_config_flags
    then config_flags
    else if t == ev_compact_hash
    then compact_hash
    else if t == ev_efi_runtime_services_driver
    then runtime_driver
    else other_type

-- Each ends a case: the entry is described, classified, counted and pushed.
unfoldable pub as_verified : EventLogAnalysis → EventLogEntry → Text → EventLogAnalysis
as_verified a e text = record a {
  entries = a.entries ++ (record e { description = text; classification = verified }) ∷ [];
  verified_count = a.verified_count + 1;
}

unfoldable pub as_policy : EventLogAnalysis → EventLogEntry → Text → EventLogAnalysis
as_policy a e text = record a {
  entries = a.entries ++ (record e { description = text; classification = policy }) ∷ [];
  policy_count = a.policy_count + 1;
}

unfoldable pub as_unknown : EventLogAnalysis → EventLogEntry → Text → EventLogAnalysis
as_unknown a e text = record a {
  entries = a.entries ++ (record e { description = text; classification = unknown }) ∷ [];
  unknown_count = a.unknown_count + 1;
}

-- The case of an EFI variable, with its name read and `IsSecureBootEnabled` evaluated on it: its
-- description, and the two flags of the analysis.
unfoldable pub describe_variable : Text → Bool → Text
describe_variable name enabled =
    let text = codes "EFI Variable: " ++ name in
    let switched =
      if text_eq name (codes "SecureBoot")
      then text ++ (if enabled then codes " (ENABLED)" else codes " (DISABLED)")
      else text in
    let is_key =
      text_eq name (codes "PK")
      || text_eq name (codes "KEK")
      || text_eq name (codes "db")
      || text_eq name (codes "dbx") in
    if is_key then switched ++ codes " (Secure Boot key database)" else switched

unfoldable pub note_flags : EventLogAnalysis → Text → Bool → EventLogAnalysis
note_flags a name enabled = record a {
  secure_boot_enabled =
      if text_eq name (codes "SecureBoot") then enabled else a.secure_boot_enabled;
  secure_boot_microsoft_keys =
      if text_eq name (codes "db") || text_eq name (codes "KEK")
      then true
      else a.secure_boot_microsoft_keys;
}

unfoldable pub note_variable : EventLogAnalysis → EventLogEntry → Text → Bool → EventLogAnalysis
unfolding as_policy
note_variable a e name enabled =
    as_policy (note_flags a name enabled) e (describe_variable name enabled)

-- The case of any other type: PCR 11 to 14 are the operating system's.
unfoldable pub note_other : EventLogAnalysis → EventLogEntry → EventLogAnalysis
unfolding as_verified as_unknown
note_other a e =
    if leb 11 e.pcr_index && leb e.pcr_index 14
    then as_verified a e
        (codes "Windows OS measurement (PCR[" ++ (to_string e.pcr_index ++ codes "])"))
    else as_unknown a e
        (event_type_name e.event_type ++ (codes " (PCR[" ++ (to_string e.pcr_index ++ codes "])")))

-- The switch.
unfoldable pub note_case : Case → EventLogAnalysis → EventLogEntry → Outcome EventLogAnalysis
unfolding as_verified as_policy
note_case efi_variable a e = do
  name ← extract_efi_variable_name e.event_data
  enabled ← is_secure_boot_enabled name e.event_data
  ok (note_variable a e name enabled)
note_case boot_application a e = do
  path ← extract_boot_app_path e.event_data
  ok (as_verified a e (codes "Boot Application: " ++ path))
note_case boot_driver a e = do
  path ← extract_boot_app_path e.event_data
  ok (as_verified a e (codes "Boot Driver: " ++ path))
note_case firmware_blob a e = ok (as_verified a e (codes "Platform Firmware Blob"))
note_case crtm a e = do
  version ← crtm_version e.event_data
  ok (as_verified a e (codes "CRTM/BIOS Version: " ++ version))
note_case named_component a e = ok (as_verified a e (event_type_name e.event_type))
note_case separator a e = ok (as_policy a e (codes "Separator (transition to OS measurements)"))
note_case efi_action a e = ok (as_policy a e (codes "EFI Action: " ++ e.event_data))
note_case variable_authority a e =
    ok (
      as_policy a e
        (codes "EFI Variable Authority (certificate used for Secure Boot verification)"))
note_case gpt_event a e = ok (as_policy a e (codes "GPT Partition Table"))
note_case no_action a e = ok (as_policy a e (codes "No Action (informational)"))
note_case handoff_tables a e = ok (as_policy a e (codes "EFI Handoff Tables (SMBIOS/ACPI)"))
note_case config_flags a e = ok (as_policy a e (codes "Platform Configuration Flags"))
note_case compact_hash a e =
    ok (as_verified a e (codes "Compact Hash (Windows integrity measurement)"))
note_case runtime_driver a e = do
  path ← extract_boot_app_path e.event_data
  ok (as_verified a e (codes "Runtime Driver: " ++ path))
note_case other_type a e = ok (note_other a e)

abbrev pub note_entry : EventLogAnalysis → EventLogEntry → Outcome EventLogAnalysis
note_entry a e = note_case (case_of e.event_type) a e

-- The walk. A round reads at least 16 bytes, so that one round for each byte is more than enough.
unfoldable pub walk : ℕ → Bytes → Cursor → EventLogAnalysis → Outcome EventLogAnalysis
walk zero raw c a = stuck
walk (suc fuel) raw c a =
    let round : Outcome EventLogAnalysis = do
      read ← read_entry raw c
      elim read [ none ↦ ok a | some (e, c') ↦ note_entry a e >>= λ a'. walk fuel raw c' a' ]
    in if leb 12 c.remaining then round else ok a

unfoldable pub skip_header : Bytes → Cursor → ℕ → Outcome Cursor
skip_header raw start skip = if leb skip (length raw) then advance start skip else ok start

-- The legacy TCG_PCR_EVENT header, where there is one.
unfoldable pub skip_spec_id_header : Bytes → Outcome Cursor
unfolding skip_header
skip_spec_id_header raw =
    let start : Cursor = record { pos = 0; remaining = length raw } in
    if ltb (length raw) 32 then ok start else do
      type ← read_u32_le raw 4
      if type == ev_no_action
          then (do size ← read_u32_le raw 28; skip_header raw start ((32 + size) % size_mod))
          else ok start

-- The UTF-8 bytes of the dash in the code's message.
abbrev em_dash : Text
em_dash = 0xE2 ∷ 0x80 ∷ 0x94 ∷ []

unfoldable pub conclude : EventLogAnalysis → EventLogAnalysis
conclude a =
    if a.secure_boot_enabled
    then if a.unknown_count == 0
      then record a {
        verdict = pass;
        verdict_reason = codes "Secure Boot enabled, all boot components verified";
      }
      else record a {
        verdict = warning;
        verdict_reason =
            codes "Secure Boot enabled, but "
            ++ (to_string a.unknown_count ++ codes " unknown measurement(s) detected");
      }
    else record a {
      verdict = fail;
      verdict_reason =
          codes "Secure Boot is DISABLED "
          ++ (em_dash ++ codes " boot chain integrity cannot be guaranteed");
    }

-- A verdict stands only after `conclude`; the code's string is empty before.
abbrev pub blank_analysis : EventLogAnalysis
blank_analysis = record {
  entries = [];
  secure_boot_enabled = false;
  secure_boot_microsoft_keys = false;
  verified_count = 0;
  unknown_count = 0;
  policy_count = 0;
  verdict = fail;
  verdict_reason = [];
}

unfoldable pub parse_and_analyze_event_log : Bytes → Outcome EventLogAnalysis
parse_and_analyze_event_log raw = do
  c ← skip_spec_id_header raw
  a ← walk (suc (length raw)) raw c blank_analysis
  ok (conclude a)
