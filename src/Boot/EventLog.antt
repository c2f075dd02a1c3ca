-- ===== src/Boot/EventLog.antt =====
-- The data of src/boot/event_log_parser.h and the event type names of event_log_parser.cpp.
-- `Describe` holds the helpers that read an entry's event data, `Entry` the reader of one
-- TCG_PCR_EVENT2 entry, `Analysis` the walk and the verdict.
pub mod Describe
pub mod Entry
pub mod Analysis
pub mod Safety
pub mod RoundTrip
use sdk_windows.Prelude.{ℕ, List, [], ◌∷◌, Bytes, Text, codes, Bool, ◌==◌, if◌then◌else◌}

-- The enumerators of `EventType` that the code names.
abbrev pub ev_preboot_cert : ℕ
ev_preboot_cert = 0x00000000

abbrev pub ev_post_code : ℕ
ev_post_code = 0x00000001

abbrev pub ev_no_action : ℕ
ev_no_action = 0x00000003

abbrev pub ev_separator : ℕ
ev_separator = 0x00000004

abbrev pub ev_action : ℕ
ev_action = 0x00000005

abbrev pub ev_s_crtm_contents : ℕ
ev_s_crtm_contents = 0x00000007

abbrev pub ev_s_crtm_version : ℕ
ev_s_crtm_version = 0x00000008

abbrev pub ev_cpu_microcode : ℕ
ev_cpu_microcode = 0x00000009

abbrev pub ev_platform_config_flags : ℕ
ev_platform_config_flags = 0x0000000A

abbrev pub ev_table_of_devices : ℕ
ev_table_of_devices = 0x0000000B

abbrev pub ev_compact_hash : ℕ
ev_compact_hash = 0x0000000C

abbrev pub ev_ipl : ℕ
ev_ipl = 0x0000000D

abbrev pub ev_nonhost_code : ℕ
ev_nonhost_code = 0x0000000F

abbrev pub ev_nonhost_config : ℕ
ev_nonhost_config = 0x00000010

abbrev pub ev_efi_variable_driver_config : ℕ
ev_efi_variable_driver_config = 0x80000001

abbrev pub ev_efi_variable_boot : ℕ
ev_efi_variable_boot = 0x80000002

abbrev pub ev_efi_boot_services_application : ℕ
ev_efi_boot_services_application = 0x80000003

abbrev pub ev_efi_boot_services_driver : ℕ
ev_efi_boot_services_driver = 0x80000004

abbrev pub ev_efi_runtime_services_driver : ℕ
ev_efi_runtime_services_driver = 0x80000005

abbrev pub ev_efi_gpt_event : ℕ
ev_efi_gpt_event = 0x80000006

abbrev pub ev_efi_action : ℕ
ev_efi_action = 0x80000007

abbrev pub ev_efi_platform_firmware_blob : ℕ
ev_efi_platform_firmware_blob = 0x80000008

abbrev pub ev_efi_platform_firmware_blob2 : ℕ
ev_efi_platform_firmware_blob2 = 0x8000000A

abbrev pub ev_efi_handoff_tables : ℕ
ev_efi_handoff_tables = 0x80000009

abbrev pub ev_efi_variable_authority : ℕ
ev_efi_variable_authority = 0x800000E0

abbrev pub ev_efi_spdm_firmware_blob : ℕ
ev_efi_spdm_firmware_blob = 0x800000E1

abbrev pub ev_efi_variable_boot2 : ℕ
ev_efi_variable_boot2 = 0x8000000C

abbrev pub ev_efi_handoff_tables2 : ℕ
ev_efi_handoff_tables2 = 0x8000000B

-- The table of the switch in `EventTypeName`.
abbrev event_type_names : List (ℕ × Text)
event_type_names =
    (ev_preboot_cert, codes "EV_PREBOOT_CERT")
    ∷ (ev_post_code, codes "EV_POST_CODE")
    ∷ (ev_no_action, codes "EV_NO_ACTION")
    ∷ (ev_separator, codes "EV_SEPARATOR")
    ∷ (ev_action, codes "EV_ACTION")
    ∷ (ev_s_crtm_contents, codes "EV_S_CRTM_CONTENTS")
    ∷ (ev_s_crtm_version, codes "EV_S_CRTM_VERSION")
    ∷ (ev_cpu_microcode, codes "EV_CPU_MICROCODE")
    ∷ (ev_platform_config_flags, codes "EV_PLATFORM_CONFIG_FLAGS")
    ∷ (ev_table_of_devices, codes "EV_TABLE_OF_DEVICES")
    ∷ (ev_compact_hash, codes "EV_COMPACT_HASH")
    ∷ (ev_ipl, codes "EV_IPL")
    ∷ (ev_nonhost_code, codes "EV_NONHOST_CODE")
    ∷ (ev_nonhost_config, codes "EV_NONHOST_CONFIG")
    ∷ (ev_efi_variable_driver_config, codes "EV_EFI_VARIABLE_DRIVER_CONFIG")
    ∷ (ev_efi_variable_boot, codes "EV_EFI_VARIABLE_BOOT")
    ∷ (ev_efi_boot_services_application, codes "EV_EFI_BOOT_SERVICES_APPLICATION")
    ∷ (ev_efi_boot_services_driver, codes "EV_EFI_BOOT_SERVICES_DRIVER")
    ∷ (ev_efi_runtime_services_driver, codes "EV_EFI_RUNTIME_SERVICES_DRIVER")
    ∷ (ev_efi_gpt_event, codes "EV_EFI_GPT_EVENT")
    ∷ (ev_efi_action, codes "EV_EFI_ACTION")
    ∷ (ev_efi_platform_firmware_blob, codes "EV_EFI_PLATFORM_FIRMWARE_BLOB")
    ∷ (ev_efi_platform_firmware_blob2, codes "EV_EFI_PLATFORM_FIRMWARE_BLOB2")
    ∷ (ev_efi_handoff_tables, codes "EV_EFI_HANDOFF_TABLES")
    ∷ (ev_efi_variable_authority, codes "EV_EFI_VARIABLE_AUTHORITY")
    ∷ (ev_efi_spdm_firmware_blob, codes "EV_EFI_SPDM_FIRMWARE_BLOB")
    ∷ []

look_up_name : ℕ → List (ℕ × Text) → Text
look_up_name t [] = codes "UNKNOWN"
look_up_name t ((k, name) ∷ rest) = if k == t then name else look_up_name t rest

unfoldable pub event_type_name : ℕ → Text
unfolding look_up_name
event_type_name t = look_up_name t event_type_names

-- The three strings of `classification`, and the three of `verdict`.
pub data Classification : Type 0 where
  verified unknown policy : Classification

pub data Verdict : Type 0 where
  pass fail warning : Verdict

pub record EventLogEntry : Type 0 where
  pub pcr_index : ℕ
  pub event_type : ℕ
  pub event_type_name : Text
  pub digests : List (ℕ × Bytes)
  pub event_data : Bytes
  pub description : Text
  pub classification : Classification

pub record EventLogAnalysis : Type 0 where
  pub entries : List EventLogEntry
  pub secure_boot_enabled : Bool
  pub secure_boot_microsoft_keys : Bool
  pub verified_count : ℕ
  pub unknown_count : ℕ
  pub policy_count : ℕ
  pub verdict : Verdict
  pub verdict_reason : Text
