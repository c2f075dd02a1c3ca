-- ===== src/Tests/Paths.antt =====
-- Boot application records and event type names (src/boot/event_log_parser.cpp).
use sdk_windows.Prelude.{
  ◌≡◌, refl, [], ◌∷◌, ◌++◌, Bytes, Text, codes, contains, begins_with, replicate, ok,
}
use sdk_windows.Wire.{read_u16_le}
use sdk_windows.Boot.EventLog.{event_type_name, ev_efi_variable_boot2}
use sdk_windows.Boot.EventLog.Describe.{extract_boot_app_path, path_loop, path_step}

-- UCS-2LE.
abbrev wide : Text → Bytes
wide [] = []
wide (c ∷ cs) = c ∷ 0 ∷ wide cs

abbrev load_event : Text → Bytes
load_event path = replicate 32 0 ++ (wide path ++ (0 ∷ 0 ∷ []))

letters_kept :
    extract_boot_app_path (load_event (codes "\\EFI\\shim.efi")) ≡ ok (codes "\\EFI\\shim.efi")
unfolding extract_boot_app_path path_loop path_step read_u16_le contains begins_with
letters_kept = refl

-- A digit drops what stands before it.
digits_cut :
    extract_boot_app_path (load_event (codes "\\EFI\\BOOT\\BOOTX64.EFI"))
    ≡ ok (codes "(binary device path)")
unfolding extract_boot_app_path path_loop path_step read_u16_le contains begins_with
digits_cut = refl

boot2_unknown : event_type_name ev_efi_variable_boot2 ≡ codes "UNKNOWN"
unfolding event_type_name
boot2_unknown = refl
