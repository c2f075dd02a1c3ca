-- ===== src/Boot/EventLog/RoundTrip/Digests.antt =====
-- `std::map` of digests in an entry: what is found there after the writes of one event.
use mathlib.Core.Path.{subst}
use sdk_windows.Prelude.{
  ◌+◌, ℕ, ◌≤◌, ◌≡◌, refl, ◌∙◌, arith, Bool, true, false, List, [], ◌∷◌, Bytes, Option, none, some,
  Returns, returns, ltb, ◌==◌, if◌then◌else◌, Bool-cases, inl, inr,
}
use sdk_windows.Wire.Cursor.{Cursor, Faces}
use sdk_windows.Boot.EventLog.{EventLogEntry}
use sdk_windows.Boot.EventLog.Entry.{insert_digest, read_entry}
use sdk_windows.Boot.EventLog.RoundTrip.{
  LogEvent, collected, entry_of, IsWritable, put_event, read_entry_lem,
}

abbrev pub find_digest : ℕ → List (ℕ × Bytes) → Option Bytes
find_digest k [] = none
find_digest k ((a, d) ∷ m) = if k == a then some d else find_digest k m

abbrev pub or_else : Option Bytes → Option Bytes → Option Bytes
or_else (some d) o = some d
or_else none o = o

-- The last digest that an event carries for an algorithm.
abbrev pub last_digest : ℕ → List (ℕ × Bytes) → Option Bytes
last_digest k [] = none
last_digest k ((a, d) ∷ ds) = or_else (last_digest k ds) (if k == a then some d else none)

-- Every key is above `low`, and they ascend.
abbrev pub AscendsFrom : ℕ → List (ℕ × Bytes) → Type 0
AscendsFrom low [] = Unit
AscendsFrom low ((a, d) ∷ m) = (low ≤ a) × AscendsFrom (a + 1) m

find_digest-insert_digest :
    (k alg : ℕ) (d : Bytes) (m : List (ℕ × Bytes))
    → find_digest k (insert_digest alg d m) ≡ (if k == alg then some d else find_digest k m)
unfolding insert_digest
find_digest-insert_digest k alg d [] = refl
find_digest-insert_digest k alg d ((a, x) ∷ m) =
    let later = find_digest-insert_digest k alg d m in ground arith

insert_digest-AscendsFrom :
    (alg low : ℕ) (d : Bytes) (m : List (ℕ × Bytes))
    → low ≤ alg
    → AscendsFrom low m
    → AscendsFrom low (insert_digest alg d m)
unfolding insert_digest
insert_digest-AscendsFrom alg low d [] h u = (h, tt)
insert_digest-AscendsFrom alg low d ((a, x) ∷ m) h (l, u) = elim (Bool-cases (alg == a)) [
  | inl e ↦ rw e (h, AscendsFrom-same a alg (ground arith) m u)
  | inr e ↦ rw e (elim (Bool-cases (ltb alg a)) [
    | inl b ↦ rw b (h, (ground arith, u))
    | inr b ↦ rw b (l, insert_digest-AscendsFrom alg (a + 1) d m (ground arith) u)
  ])
]
  where
    AscendsFrom-same :
        (a alg : ℕ)
        → a ≡ alg
        → (m : List (ℕ × Bytes)) → AscendsFrom (a + 1) m
        → AscendsFrom (alg + 1) m
    AscendsFrom-same a alg e m u = subst (λ (n : ℕ). AscendsFrom (n + 1) m) e u

collected-last_digest :
    (k : ℕ) (ds m : List (ℕ × Bytes))
    → find_digest k (collected ds m) ≡ or_else (last_digest k ds) (find_digest k m)
collected-last_digest k [] m = refl
collected-last_digest k ((a, d) ∷ ds) m =
    collected-last_digest k ds (insert_digest a d m)
    ∙ rw (find_digest-insert_digest k a d m)
        (elim_or (last_digest k ds) (k == a) d (find_digest k m))
  where
    elim_or :
        (o : Option Bytes) (b : Bool) (d : Bytes) (rest : Option Bytes)
        → or_else o (if b then some d else rest)
          ≡ or_else (or_else o (if b then some d else none)) rest
    elim_or (some x) b d rest = refl
    elim_or none true d rest = refl
    elim_or none false d rest = refl

collected-AscendsFrom : (ds m : List (ℕ × Bytes)) → AscendsFrom 0 m → AscendsFrom 0 (collected ds m)
collected-AscendsFrom [] m u = u
collected-AscendsFrom ((a, d) ∷ ds) m u =
    collected-AscendsFrom ds (insert_digest a d m)
      (insert_digest-AscendsFrom a 0 d m (omega arith) u)

entry_of-last_digest :
    (e : LogEvent)
    → AscendsFrom 0 (entry_of e).digests
      × ((k : ℕ) → find_digest k (entry_of e).digests ≡ last_digest k e.digests)
entry_of-last_digest e = (
  collected-AscendsFrom e.digests [] tt,
  λ k. collected-last_digest k e.digests [] ∙ or_none (last_digest k e.digests),
)
  where
    or_none : (o : Option Bytes) → or_else o none ≡ o
    or_none none = refl
    or_none (some d) = refl

-- An entry was read, with the digests of the event: in ascending order, and for every algorithm the last.
pub data ReadsDigests (e : LogEvent) : Option (EventLogEntry × Cursor) → Type 0 where
  reads :
      {entry : EventLogEntry} {c : Cursor}
      → AscendsFrom 0 entry.digests
      → ((k : ℕ) → find_digest k entry.digests ≡ last_digest k e.digests)
      → ReadsDigests e (some (entry, c))

-- From a cursor that faces a well-formed event, whatever follows behind it, an entry is read. Its digests
-- ascend by their algorithm, so that each has one at most, and for every algorithm the entry has the
-- digest that the event carries last, and none where it carries none.
pub read_entry-last_digest :
    {raw : Bytes} (e : LogEvent) (rest : Bytes) (c : Cursor)
    → IsWritable e
    → Faces raw c (put_event e rest)
    → Returns (ReadsDigests e) (read_entry raw c)
read_entry-last_digest e rest c w f =
    let (c', read, _) = read_entry_lem e w rest c f in
    let (ascends, found) = entry_of-last_digest e in rw read (returns (reads ascends found))
