-- ===== src/Boot/EventLog/RoundTrip/Log.antt =====
-- Whole logs: the Spec ID header, the events, and what is left of a cut one behind them.
use mathlib.Core.List.{map, map-append, append_assoc, append-nil}
use sdk_windows.Prelude.{
  ℕ, zero, suc, ◌+◌, ◌%◌, ◌≤◌, ◌<◌, ◌≡◌, refl, sym, ap, ◌∙◌, arith, List, [], ◌∷◌, ◌++◌, false,
  Bytes, length, length-append, drop-append, some, ok, Returns, returns, Returns->>=, Returns-at,
  ltb, gt→leb, le→leb,
}
use sdk_windows.Wire.{read_u32_le, u32_mod, size_mod}
use sdk_windows.Wire.Reads.{bytes_u32_le, read_u32_le-bytes}
use sdk_windows.Wire.Cursor.{Cursor, Faces, past, advance-Faces, Faces-remaining}
use sdk_windows.Boot.EventLog.Safety.{EntryEnds, read_entry-Returns}
use mathlib.Core.Path.{subst}
use sdk_windows.Boot.EventLog.{EventLogEntry, EventLogAnalysis, ev_no_action}
use sdk_windows.Boot.EventLog.Analysis.{
  walk, skip_header, skip_spec_id_header, conclude, blank_analysis, parse_and_analyze_event_log,
}
use sdk_windows.Boot.EventLog.Analysis.Counts.{RawEvent, raw_of, Noted, note_entry-Noted}
use sdk_windows.Boot.EventLog.RoundTrip.{LogEvent, put_event, IsWritable, entry_of, read_entry_lem}

abbrev pub put_log : List LogEvent → Bytes → Bytes
put_log [] tail = tail
put_log (e ∷ es) tail = put_event e (put_log es tail)

abbrev pub AreWritable : List LogEvent → Type 0
AreWritable [] = Unit
AreWritable (e ∷ es) = IsWritable e × AreWritable es

-- The event as an entry holds it: the digests as an ordered map.
abbrev pub raw_event : LogEvent → RawEvent
raw_event e = raw_of (entry_of e)

abbrev pub Holds : List RawEvent → EventLogAnalysis → Type 0
Holds es a = map raw_of a.entries ≡ es

Noted-Holds :
    {a : EventLogAnalysis} {e : EventLogEntry} {a' : EventLogAnalysis} (es : List RawEvent)
    → Noted a e a'
    → Holds es a
    → Holds (es ++ raw_of e ∷ []) a'
Noted-Holds {a} es n h =
    rw (n.pushed, map-append)
      (ap (λ (x : List RawEvent). x ++ raw_of n.noted ∷ []) h
        ∙ ap (λ (x : RawEvent). es ++ x ∷ []) n.as_read)

walk-put_log :
    {raw : Bytes} (es : List LogEvent) (tail : Bytes) (fuel : ℕ) (c : Cursor) (a : EventLogAnalysis)
    (before : List RawEvent)
    → AreWritable es
    → length tail < 12
    → Faces raw c (put_log es tail)
    → c.remaining < fuel
    → Holds before a
    → Returns (Holds (before ++ map raw_event es)) (walk fuel raw c a)
unfolding walk
walk-put_log es tail zero c a before w short f h held = absurd (omega arith)
walk-put_log [] tail (suc fuel) c a before w short f h held =
    rw (gt→leb 12 c.remaining (omega (arith, Faces-remaining f))) (returns (rw append-nil held))
walk-put_log {raw} (e ∷ es) tail (suc fuel) c a before (w, ws) short f h held =
    let (c', read, g) = read_entry_lem e w (put_log es tail) c f in
    let long : 12 ≤ c.remaining = omega (arith, Faces-remaining f) in
    let ends : EntryEnds raw c (some (entry_of e, c')) =
      Returns-at (read_entry-Returns raw c f.in_bounds long) read in
    rw (le→leb 12 c.remaining long, read)
      (Returns->>= (note_entry-Noted a (entry_of e)) λ a' n.
        subst (λ (x : List RawEvent). Returns (Holds x) (walk fuel raw c' a'))
          (append_assoc before (raw_event e ∷ []) (map raw_event es))
          (walk-put_log es tail fuel c' a' (before ++ raw_event e ∷ []) ws short g
            (omega (arith, ends.1)) (Noted-Holds before n held)))

-- The TCG_PCR_EVENT header: PCR index, EV_NO_ACTION, a SHA-1 digest, and its event data.
abbrev pub spec_id_header : ℕ → Bytes → Bytes → Bytes
spec_id_header pcr digest spec_id =
    bytes_u32_le pcr
    ++ (bytes_u32_le ev_no_action ++ (digest ++ (bytes_u32_le (length spec_id) ++ spec_id)))

length-spec_id_header :
    (pcr : ℕ) (digest spec_id : Bytes)
    → length digest ≡ 20
    → length (spec_id_header pcr digest spec_id) ≡ 32 + length spec_id
length-spec_id_header pcr digest spec_id h =
    omega (arith, length-append digest (bytes_u32_le (length spec_id) ++ spec_id))

skip_spec_id_header_lem :
    (pcr : ℕ) (digest spec_id rest : Bytes)
    → length digest ≡ 20
    → length spec_id < u32_mod
    → let raw = spec_id_header pcr digest spec_id ++ rest in
      (c : Cursor) × (skip_spec_id_header raw ≡ ok c) × Faces raw c rest
unfolding skip_spec_id_header skip_header
skip_spec_id_header_lem pcr digest spec_id rest h fits =
    let front = spec_id_header pcr digest spec_id in
    let raw = front ++ rest in
    let size = length spec_id in
    let start : Cursor = record { pos = 0; remaining = length raw } in
    let total = length-append front rest in
    let width = length-spec_id_header pcr digest spec_id h in
    let typed : read_u32_le raw 4 ≡ ok ev_no_action =
      read_u32_le-bytes raw 4 ev_no_action _ refl (omega arith) in
    let sized : read_u32_le raw 28 ≡ ok size =
      read_u32_le-bytes raw 28 size (spec_id ++ rest)
        (rw (append_assoc digest (bytes_u32_le size ++ spec_id) rest)
          (drop-append digest (bytes_u32_le size ++ (spec_id ++ rest)) 20 (sym h)))
        fits in
    let no_wrap : (32 + size) % size_mod ≡ 32 + size = omega arith in
    let (go, f) =
      advance-Faces (32 + size) front rest (record { in_bounds = omega arith; ahead = refl })
        (sym width) in
    (
      past start (32 + size),
      rw
          (
            gt→ltb (length raw) 32 (omega (arith, total, width)),
            typed,
            sized,
            no_wrap,
            le→leb (32 + size) (length raw) (omega (arith, total, width)),
          )
          go,
      f,
    )
  where
    gt→ltb : (m n : ℕ) → n ≤ m → ltb m n ≡ false
    gt→ltb m n h = ground arith

conclude-Holds : (es : List RawEvent) (a : EventLogAnalysis) → Holds es a → Holds es (conclude a)
unfolding conclude
conclude-Holds es a h = ground arith

-- A log of a Spec ID header and well-formed events, with fewer than 12 bytes of a cut event behind
-- them, is read back whole: the analysis returns, and its entries hold the PCR indices, types,
-- digests and event data that were written, in the order of the log, and nothing else.
pub parse_and_analyze_event_log-put_log :
    (pcr : ℕ) (digest spec_id : Bytes) (es : List LogEvent) (tail : Bytes)
    → length digest ≡ 20
    → length spec_id < u32_mod
    → AreWritable es
    → length tail < 12
    → Returns
        (Holds (map raw_event es))
        (parse_and_analyze_event_log (spec_id_header pcr digest spec_id ++ put_log es tail))
unfolding parse_and_analyze_event_log
parse_and_analyze_event_log-put_log pcr digest spec_id es tail h fits ws short =
    let raw = spec_id_header pcr digest spec_id ++ put_log es tail in
    let (c, skipped, f) = skip_spec_id_header_lem pcr digest spec_id (put_log es tail) h fits in
    rw skipped (
      Returns->>=
        (walk-put_log es tail (suc (length raw)) c blank_analysis [] ws short f
          (omega (arith, f.in_bounds)) refl)
        λ a held. returns (conclude-Holds (map raw_event es) a held))
