-- ===== src/Windows/Logs.antt =====
-- `ReadEventLog` of src/boot/event_log.cpp.
use sdk_windows.Prelude.{ℕ, not, ◌||◌, [], Bytes, ◌==◌, if◌then◌else◌}
use sdk_windows.Windows.{LogApi}
use sdk_windows.Windows.Digests.{resize}

unfoldable pub log_of_read : ℕ × (Bytes × ℕ) → Bytes
log_of_read (result, (log, size)) = if not (result == 0) then [] else resize size log

unfoldable pub read_event_log : LogApi → Bytes
unfolding log_of_read
read_event_log api =
    let (result, size) = api.log_size in
    if not (result == 0) || size == 0 then [] else log_of_read (api.read_log size)
