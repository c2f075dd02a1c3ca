-- ===== src/Tests/Logs.antt =====
-- Event logs and EFI variables (src/boot/event_log_parser.cpp, src/boot/efi_variable.h).
use mathlib.Core.List.{map}
use sdk_windows.Prelude.{
  ◌≡◌, ◌≤◌, refl, List, [], ◌∷◌, ◌++◌, Bytes, Text, length, replicate, some, ok, Returns, arith,
}
use sdk_windows.Wire.{read_u64_le}
use sdk_windows.Boot.EfiVariable.{try_parse_efi_variable_data, efi_variable_name, EfiVariableData}
use sdk_windows.Boot.EfiVariable.Bounds.{
  spans_of, InsideIfSome, try_parse_efi_variable_data_lem, try_parse_efi_variable_data-Inside,
  efi_variable_name-Returns,
}
use sdk_windows.Boot.EventLog.Analysis.{parse_and_analyze_event_log}
use sdk_windows.Boot.EventLog.Analysis.Counts.{IsPaid, parse_and_analyze_event_log-IsPaid}
use sdk_windows.Boot.EventLog.Analysis.Verdicts.{IsJudged, parse_and_analyze_event_log-IsJudged}
use sdk_windows.Boot.EventLog.RoundTrip.{sha1, sha256, sha384, LogEvent, IsWritable, put_event}
use sdk_windows.Boot.EventLog.Entry.{read_entry}
use sdk_windows.Boot.EventLog.RoundTrip.Digests.{ReadsDigests, read_entry-last_digest}
use sdk_windows.Boot.EventLog.RoundTrip.Log.{
  put_log, AreWritable, raw_event, Holds, spec_id_header, parse_and_analyze_event_log-put_log,
}

-- The variable "SecureBoot" with the value 1.
abbrev secure_boot_variable : Bytes
secure_boot_variable =
    replicate 16 0xAB
    ++ (10 ∷ 0 ∷ 0 ∷ 0 ∷ 0 ∷ 0 ∷ 0 ∷ 0 ∷ 1 ∷ 0 ∷ 0 ∷ 0 ∷ 0 ∷ 0 ∷ 0 ∷ 0 ∷ 83 ∷ 0 ∷ 101 ∷ 0 ∷ 99 ∷ 0
        ∷ 117 ∷ 0 ∷ 114 ∷ 0 ∷ 101 ∷ 0 ∷ 66 ∷ 0 ∷ 111 ∷ 0 ∷ 111 ∷ 0 ∷ 116 ∷ 0 ∷ 1 ∷ [])

abbrev secure_boot_spans : EfiVariableData
secure_boot_spans = record { name_utf16 = 32; name_chars = 10; contents = 52; data_bytes = 1 }

secure_boot_parsed : try_parse_efi_variable_data secure_boot_variable ≡ ok (some secure_boot_spans)
unfolding try_parse_efi_variable_data read_u64_le
secure_boot_parsed = refl

try_parse_efi_variable_data_lem_example :
    try_parse_efi_variable_data secure_boot_variable ≡ ok (spans_of 53 10 1)
unfolding read_u64_le
try_parse_efi_variable_data_lem_example =
    try_parse_efi_variable_data_lem secure_boot_variable 10 1 (omega arith) refl refl

try_parse_efi_variable_data-Inside_example :
    Returns (InsideIfSome 53) (try_parse_efi_variable_data secure_boot_variable)
try_parse_efi_variable_data-Inside_example = try_parse_efi_variable_data-Inside secure_boot_variable

efi_variable_name-Returns_example :
    Returns (λ (s : Text). length s ≤ 10) (efi_variable_name secure_boot_variable secure_boot_spans)
efi_variable_name-Returns_example =
    efi_variable_name-Returns secure_boot_variable secure_boot_spans (record {
      name_behind = omega arith;
      name_inside = omega arith;
      data_inside = omega arith;
      name_bounded = omega arith;
    })

-- Secure Boot on in PCR 7, with a SHA-1 and a SHA-256 digest, and a separator.
abbrev sample_events : List LogEvent
sample_events =
    record {
      pcr_index = 7;
      event_type = 0x80000001;
      digests = (0x0004, replicate 20 0x11) ∷ (0x000B, replicate 32 0x22) ∷ [];
      event_data = secure_boot_variable;
    }
    ∷ record {
      pcr_index = 0;
      event_type = 4;
      digests = (0x000B, replicate 32 0x33) ∷ [];
      event_data = 0 ∷ 0 ∷ 0 ∷ 0 ∷ [];
    }
    ∷ []

abbrev sample_log : Bytes
sample_log = spec_id_header 0 (replicate 20 0) (1 ∷ 2 ∷ []) ++ put_log sample_events (7 ∷ 0 ∷ [])

sample_events-AreWritable : AreWritable sample_events
sample_events-AreWritable = (
  record {
    pcr_fits = omega arith;
    type_fits = omega arith;
    few = omega arith;
    sized = (sha1 refl, (sha256 refl, tt));
    data_fits = omega arith;
  },
  (
    record {
      pcr_fits = omega arith;
      type_fits = omega arith;
      few = omega arith;
      sized = (sha256 refl, tt);
      data_fits = omega arith;
    },
    tt,
  ),
)

parse_and_analyze_event_log-put_log_example :
    Returns (Holds (map raw_event sample_events)) (parse_and_analyze_event_log sample_log)
parse_and_analyze_event_log-put_log_example =
    parse_and_analyze_event_log-put_log 0 (replicate 20 0) (1 ∷ 2 ∷ []) sample_events (7 ∷ 0 ∷ [])
      refl (omega arith) sample_events-AreWritable (omega arith)

parse_and_analyze_event_log-IsPaid_example :
    Returns (IsPaid sample_log) (parse_and_analyze_event_log sample_log)
parse_and_analyze_event_log-IsPaid_example = parse_and_analyze_event_log-IsPaid sample_log

parse_and_analyze_event_log-IsJudged_example :
    Returns IsJudged (parse_and_analyze_event_log sample_log)
parse_and_analyze_event_log-IsJudged_example = parse_and_analyze_event_log-IsJudged sample_log

-- Digests out of order, one of them twice.
abbrev sample_event : LogEvent
sample_event = record {
  pcr_index = 0;
  event_type = 8;
  digests = (0x000C, replicate 48 2) ∷ (0x0004, replicate 20 1) ∷ (0x000C, replicate 48 3) ∷ [];
  event_data = [];
}

sample_event-IsWritable : IsWritable sample_event
sample_event-IsWritable = record {
  pcr_fits = omega arith;
  type_fits = omega arith;
  few = omega arith;
  sized = (sha384 refl, (sha1 refl, (sha384 refl, tt)));
  data_fits = omega arith;
}

read_entry-last_digest_example :
    Returns
      (ReadsDigests sample_event)
      (read_entry (put_event sample_event (7 ∷ [])) (record { pos = 0; remaining = 139 }))
read_entry-last_digest_example =
    read_entry-last_digest sample_event (7 ∷ []) (record { pos = 0; remaining = 139 })
      sample_event-IsWritable (record { in_bounds = refl; ahead = refl })
