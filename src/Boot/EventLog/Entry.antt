-- ===== src/Boot/EventLog/Entry.antt =====
-- The reader of one TCG_PCR_EVENT2 entry: the part of the loop of `ParseAndAnalyzeEventLog`
-- (src/boot/event_log_parser.cpp) that stands before its switch. `none` is a `break` out of the
-- walk, by which the entry is dropped.
use sdk_windows.Prelude.{
  ℕ, zero, suc, List, [], ◌∷◌, Bytes, Option, none, some, Outcome, ok, ◌>>=◌, ltb, ◌==◌,
  if◌then◌else◌,
}
use sdk_windows.Wire.{read_u16_le, read_u32_le, slice}
use sdk_windows.Wire.Cursor.{Cursor, advance}
use sdk_windows.Boot.EventLog.{EventLogEntry, event_type_name, unknown}

-- 0 where the size is unknown.
unfoldable pub digest_size_of : ℕ → ℕ
digest_size_of alg =
    if alg == 0x0004
    then 20
    else if alg == 0x000B
    then 32
    else if alg == 0x000C
    then 48
    else if alg == 0x000D
    then 64
    else if alg == 0x0012
    then 32
    else 0

-- `digests[alg] = digest` on the ordered map.
unfoldable pub insert_digest : ℕ → Bytes → List (ℕ × Bytes) → List (ℕ × Bytes)
insert_digest alg digest [] = (alg, digest) ∷ []
insert_digest alg digest ((k, d) ∷ rest) =
    if alg == k
    then (alg, digest) ∷ rest
    else if ltb alg k
    then (alg, digest) ∷ (k, d) ∷ rest
    else (k, d) ∷ insert_digest alg digest rest

pub record DigestState : Type 0 where
  pub cursor : Cursor
  pub digests : List (ℕ × Bytes)

-- One round of the digest loop.
unfoldable pub read_digest : Bytes → DigestState → Outcome (Option DigestState)
read_digest raw s = if ltb s.cursor.remaining 2 then ok none else do
  alg ← read_u16_le raw s.cursor.pos
  c ← advance s.cursor 2
  if digest_size_of alg == 0
      then ok none
      else if ltb c.remaining (digest_size_of alg)
      then ok none
      else do
        digest ← slice raw c.pos (digest_size_of alg)
        c' ← advance c (digest_size_of alg)
        ok (some (record { cursor = c'; digests = insert_digest alg digest s.digests }))

unfoldable pub read_digests : ℕ → Bytes → DigestState → Outcome (Option DigestState)
read_digests zero raw s = ok (some s)
read_digests (suc n) raw s = do
  step ← read_digest raw s
  elim step [ none ↦ ok none | some s' ↦ read_digests n raw s' ]

-- From the event data's size on.
unfoldable pub read_event_data :
    Bytes → ℕ → ℕ → DigestState → Outcome (Option (EventLogEntry × Cursor))
read_event_data raw pcr type s = if ltb s.cursor.remaining 4 then ok none else do
  size ← read_u32_le raw s.cursor.pos
  c ← advance s.cursor 4
  if ltb c.remaining size then ok none else do
    contents ← slice raw c.pos size
    c' ← advance c size
    ok (
        some (
          record {
            pcr_index = pcr;
            event_type = type;
            event_type_name = event_type_name type;
            digests = s.digests;
            event_data = contents;
            description = [];
            classification = unknown;
          },
          c',
        ))

-- With at least 12 bytes remaining.
unfoldable pub read_entry : Bytes → Cursor → Outcome (Option (EventLogEntry × Cursor))
read_entry raw c = do
  pcr ← read_u32_le raw c.pos
  c1 ← advance c 4
  type ← read_u32_le raw c1.pos
  c2 ← advance c1 4
  if ltb c2.remaining 4 then ok none else do
    count ← read_u32_le raw c2.pos
    c3 ← advance c2 4
    if ltb 8 count then ok none else do
      read ← read_digests count raw (record { cursor = c3; digests = [] })
      elim read [ none ↦ ok none | some s ↦ read_event_data raw pcr type s ]
