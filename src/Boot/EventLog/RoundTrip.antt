-- ===== src/Boot/EventLog/RoundTrip.antt =====
-- Event logs as the firmware writes them, and the analysis that reads them back.
pub mod Digests
pub mod Log
use sdk_windows.Prelude.{
  ℕ, zero, suc, ◌+◌, ◌*◌, ◌≤◌, ◌<◌, ◌≡◌, ◌≢◌, refl, sym, ap, ◌∙◌, arith, List, [], ◌∷◌, ◌++◌, Bool,
  true, false, Bytes, length, length-append, Option, none, some, Outcome, ok, Returns, returns,
  Returns-eq_ok, Returns-of_eq, leb, ltb, ◌==◌, if◌then◌else◌, Bool-cases, inl, inr, ◌>>=◌, gt→leb,
}
use sdk_windows.Wire.{read_u16_le, read_u32_le, slice, u16_mod, u32_mod}
use sdk_windows.Wire.Reads.{bytes_u16_le, bytes_u32_le, read_u16_le-bytes, read_u32_le-bytes}
use sdk_windows.Wire.Cursor.{
  Cursor, advance, Faces, past, advance-Faces, slice-Faces, Faces-remaining,
}
use sdk_windows.Boot.EventLog.{EventLogEntry, EventLogAnalysis, unknown, event_type_name}
use sdk_windows.Boot.EventLog.Entry.{
  digest_size_of, insert_digest, DigestState, read_digest, read_digests, read_event_data,
  read_entry,
}

-- One event to be written: the digests in the order of the log.
pub record LogEvent : Type 0 where
  pub pcr_index : ℕ
  pub event_type : ℕ
  pub digests : List (ℕ × Bytes)
  pub event_data : Bytes

-- The bytes of the digests, and of an event, with those of what follows behind them.
abbrev pub put_digests : List (ℕ × Bytes) → Bytes → Bytes
put_digests [] rest = rest
put_digests ((alg, d) ∷ ds) rest = bytes_u16_le alg ++ (d ++ put_digests ds rest)

abbrev pub put_event : LogEvent → Bytes → Bytes
put_event e rest =
    bytes_u32_le e.pcr_index
    ++ (bytes_u32_le e.event_type
        ++ (bytes_u32_le (length e.digests)
            ++ put_digests e.digests
                (bytes_u32_le (length e.event_data) ++ (e.event_data ++ rest))))

-- A digest of an algorithm of the TCG registry that a log may carry: SHA-1, SHA-256, SHA-384,
-- SHA-512 or SM3-256.
pub data IsDigest : ℕ → Bytes → Type 0 where
  sha1 : {d : Bytes} → length d ≡ 20 → IsDigest 0x0004 d
  sha256 : {d : Bytes} → length d ≡ 32 → IsDigest 0x000B d
  sha384 : {d : Bytes} → length d ≡ 48 → IsDigest 0x000C d
  sha512 : {d : Bytes} → length d ≡ 64 → IsDigest 0x000D d
  sm3 : {d : Bytes} → length d ≡ 32 → IsDigest 0x0012 d

length-IsDigest :
    {alg : ℕ} {d : Bytes}
    → IsDigest alg d
    → (alg < u16_mod) × (digest_size_of alg ≢ 0) × (length d ≡ digest_size_of alg)
unfolding digest_size_of
length-IsDigest (sha1 h) = (omega arith, λ e. omega (arith, e), h)
length-IsDigest (sha256 h) = (omega arith, λ e. omega (arith, e), h)
length-IsDigest (sha384 h) = (omega arith, λ e. omega (arith, e), h)
length-IsDigest (sha512 h) = (omega arith, λ e. omega (arith, e), h)
length-IsDigest (sm3 h) = (omega arith, λ e. omega (arith, e), h)

abbrev pub AreSized : List (ℕ × Bytes) → Type 0
AreSized [] = Unit
AreSized ((alg, d) ∷ ds) = IsDigest alg d × AreSized ds

pub record IsWritable (e : LogEvent) : Type 0 where
  pub pcr_fits : e.pcr_index < u32_mod
  pub type_fits : e.event_type < u32_mod
  pub few : length e.digests ≤ 8
  pub sized : AreSized e.digests
  pub data_fits : length e.event_data < u32_mod

-- The ordered map that the digests come to.
abbrev pub collected : List (ℕ × Bytes) → List (ℕ × Bytes) → List (ℕ × Bytes)
collected [] m = m
collected ((alg, d) ∷ ds) m = collected ds (insert_digest alg d m)

read_digest_lem :
    {raw : Bytes} (s : DigestState) (alg : ℕ) (d rest : Bytes)
    → Faces raw s.cursor (bytes_u16_le alg ++ (d ++ rest))
    → alg < u16_mod
    → digest_size_of alg ≢ 0
    → length d ≡ digest_size_of alg
    → (c : Cursor) × (read_digest raw s
        ≡ ok (some (record { cursor = c; digests = insert_digest alg d s.digests })))
      × Faces raw c rest
unfolding read_digest
read_digest_lem {raw} s alg d rest f fits known size =
    let (go1, f1) = advance-Faces 2 (bytes_u16_le alg) (d ++ rest) f (omega arith) in
    let c1 = past s.cursor 2 in
    let (go2, f2) = advance-Faces (digest_size_of alg) d rest f1 (sym size) in
    let room : digest_size_of alg ≤ c1.remaining =
      omega (arith, Faces-remaining f1, length-append d rest) in
    (
      past c1 (digest_size_of alg),
      rw (
        two,
        read_u16_le-bytes raw s.cursor.pos alg (d ++ rest) f.ahead fits,
        go1,
        nonzero,
        enough room,
        slice-Faces (digest_size_of alg) d rest f1 (sym size),
        go2,
      ),
      f2,
    )
  where
    two : ltb s.cursor.remaining 2 ≡ false
    two = ground (arith, Faces-remaining f)

    nonzero : (digest_size_of alg == 0) ≡ false
    nonzero = ground arith

    enough : {n m : ℕ} → n ≤ m → ltb m n ≡ false
    enough h = ground arith

read_digests_lem :
    {raw : Bytes} (ds : List (ℕ × Bytes)) (s : DigestState) (rest : Bytes)
    → Faces raw s.cursor (put_digests ds rest)
    → AreSized ds
    → (c : Cursor) × (read_digests (length ds) raw s
        ≡ ok (some (record { cursor = c; digests = collected ds s.digests })))
      × Faces raw c rest
unfolding read_digests
read_digests_lem [] s rest f z = (s.cursor, refl, f)
read_digests_lem ((alg, d) ∷ ds) s rest f (kind, z) =
    let (fits, known, size) = length-IsDigest kind in
    let (c, read, g) = read_digest_lem s alg d (put_digests ds rest) f fits known size in
    let next : DigestState = record { cursor = c; digests = insert_digest alg d s.digests } in
    let (c', done, g') = read_digests_lem ds next rest g z in (c', rw read done, g')

-- The entry as it is read, before it is described.
abbrev pub entry_of : LogEvent → EventLogEntry
entry_of e = record {
  pcr_index = e.pcr_index;
  event_type = e.event_type;
  event_type_name = event_type_name e.event_type;
  digests = collected e.digests [];
  event_data = e.event_data;
  description = [];
  classification = unknown;
}

module _ {raw : Bytes} (e : LogEvent) (w : IsWritable e) (rest : Bytes) where
  read_event_data_lem :
      (s : DigestState)
      → Faces raw s.cursor (bytes_u32_le (length e.event_data) ++ (e.event_data ++ rest))
      → (c : Cursor) × (read_event_data raw e.pcr_index e.event_type s
          ≡ ok (some (record (entry_of e) { digests = s.digests }, c)))
        × Faces raw c rest
  unfolding read_event_data
  read_event_data_lem s f =
      let size = length e.event_data in
      let (go1, f1) = advance-Faces 4 (bytes_u32_le size) (e.event_data ++ rest) f (omega arith) in
      let c1 = past s.cursor 4 in
      let (go2, f2) = advance-Faces size e.event_data rest f1 refl in
      let four : ltb s.cursor.remaining 4 ≡ false = ground (arith, Faces-remaining f) in
      let room : ltb c1.remaining size ≡ false =
        ground (arith, Faces-remaining f1, length-append e.event_data rest) in
      (
        past c1 size,
        rw (
          four,
          read_u32_le-bytes raw s.cursor.pos size (e.event_data ++ rest) f.ahead w.data_fits,
          go1,
          room,
          slice-Faces size e.event_data rest f1 refl,
          go2,
        ),
        f2,
      )

  -- An event is read as it was written, and the cursor is left at what follows.
  pub read_entry_lem :
      (c : Cursor)
      → Faces raw c (put_event e rest)
      → (c' : Cursor) × (read_entry raw c ≡ ok (some (entry_of e, c'))) × Faces raw c' rest
  unfolding read_entry
  read_entry_lem c f =
      let behind = bytes_u32_le (length e.event_data) ++ (e.event_data ++ rest) in
      let measured = put_digests e.digests behind in
      let counted = bytes_u32_le (length e.digests) ++ measured in
      let typed = bytes_u32_le e.event_type ++ counted in
      let (go1, f1) = advance-Faces 4 (bytes_u32_le e.pcr_index) typed f (omega arith) in
      let (go2, f2) = advance-Faces 4 (bytes_u32_le e.event_type) counted f1 (omega arith) in
      let (go3, f3) = advance-Faces 4 (bytes_u32_le (length e.digests)) measured f2 (omega arith) in
      let c2 = past (past c 4) 4 in
      let start : DigestState = record { cursor = past c2 4; digests = [] } in
      let (c3, read, g) = read_digests_lem e.digests start behind f3 w.sized in
      let (c4, done, g') =
        read_event_data_lem (record { cursor = c3; digests = collected e.digests [] }) g in
      let four : ltb c2.remaining 4 ≡ false = ground (arith, Faces-remaining f2) in
      let few : ltb 8 (length e.digests) ≡ false = ground (arith, w.few) in
      (
        c4,
        rw (
          read_u32_le-bytes raw c.pos e.pcr_index typed f.ahead w.pcr_fits,
          go1,
          read_u32_le-bytes raw (c.pos + 4) e.event_type counted f1.ahead w.type_fits,
          go2,
          four,
          read_u32_le-bytes raw (c.pos + 4 + 4) (length e.digests) measured f2.ahead
              (omega (arith, w.few)),
          go3,
          few,
          read,
          done,
        ),
        g',
      )
