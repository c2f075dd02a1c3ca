-- ===== src/Boot/EventLog/Safety.antt =====
-- Lemmas on the accesses to the log, by the readers of one entry and the helpers on its data
-- (src/boot/event_log_parser.cpp).
use sdk_windows.Prelude.{
  ℕ, zero, suc, ◌+◌, ◌*◌, ◌≤◌, ◌<◌, arith, [], ◌∷◌, ◌++◌, Bool, true, false, Bytes, Text, length,
  Option, none, some, Outcome, ok, Returns, returns, Returns->>=, Returns-weaken, ltb, ◌==◌,
  if◌then◌else◌, Bool-cases, inl, inr, not, text_eq, codes,
}
use sdk_windows.Wire.Reads.{
  read_u8-Returns, read_u16_le-Returns, read_u32_le-Returns, slice-Returns,
}
use sdk_windows.Wire.Cursor.{Cursor, InBounds, advance-Returns}
use sdk_windows.Boot.EfiVariable.{EfiVariableData}
use sdk_windows.Boot.EfiVariable.Bounds.{
  InsideIfSome, try_parse_efi_variable_data-Inside, efi_variable_name-Returns,
}
use sdk_windows.Boot.EventLog.{EventLogEntry}
use sdk_windows.Boot.EventLog.Describe.{
  extract_efi_variable_name, name_of_parsed, PathStep, found, go_on, path_step, path_loop,
  extract_boot_app_path, version_loop, crtm_version, enabled_of_parsed, is_secure_boot_enabled,
}
use sdk_windows.Boot.EventLog.Entry.{
  digest_size_of, DigestState, read_digest, read_digests, read_event_data, read_entry,
}

abbrev Any {ℓ} : {A : Type ℓ} → A → Type 0
Any a = Unit

name_of_parsed-Returns :
    (raw : Bytes) (o : Option EfiVariableData)
    → InsideIfSome (length raw) o
    → Returns Any (name_of_parsed raw o)
unfolding name_of_parsed
name_of_parsed-Returns raw none h = returns tt
name_of_parsed-Returns raw (some var) h =
    Returns-weaken (λ s k. tt) (efi_variable_name-Returns raw var h)

pub extract_efi_variable_name-Returns : (raw : Bytes) → Returns Any (extract_efi_variable_name raw)
unfolding extract_efi_variable_name
extract_efi_variable_name-Returns raw =
    Returns->>= (try_parse_efi_variable_data-Inside raw) (name_of_parsed-Returns raw)

enabled_of_parsed-Returns :
    (raw : Bytes) (o : Option EfiVariableData)
    → InsideIfSome (length raw) o
    → Returns Any (enabled_of_parsed raw o)
unfolding enabled_of_parsed
enabled_of_parsed-Returns raw none h = returns tt
enabled_of_parsed-Returns raw (some var) h = elim (Bool-cases (ltb var.data_bytes 1)) [
  | inl e ↦ rw e (returns tt)
  | inr e ↦
      let fits : var.contents + 1 ≤ length raw = ground arith in
      rw e (Returns->>= (read_u8-Returns raw var.contents fits) λ b _. returns tt)
]

pub is_secure_boot_enabled-Returns :
    (name : Text) (raw : Bytes) → Returns Any (is_secure_boot_enabled name raw)
unfolding is_secure_boot_enabled
is_secure_boot_enabled-Returns name raw =
    elim (Bool-cases (not (text_eq name (codes "SecureBoot")))) [
      | inl e ↦ rw e (returns tt)
      | inr e ↦ rw e (elim (Bool-cases (ltb (length raw) 33)) [
        | inl s ↦ rw s (returns tt)
        | inr s ↦
            rw s
              (Returns->>= (try_parse_efi_variable_data-Inside raw) (enabled_of_parsed-Returns raw))
      ])
    ]

-- A loop at `i` steps by two to the last byte or the one behind it.
path_loop-Returns :
    (fuel : ℕ) (raw : Bytes) (i : ℕ) (result : Text)
    → i ≤ length raw + 1
    → length raw + 1 < i + 2 * fuel
    → Returns Any (path_loop fuel raw i result)
unfolding path_loop
path_loop-Returns zero raw i result lo hi = absurd (omega arith)
path_loop-Returns (suc fuel) raw i result lo hi = elim (Bool-cases (ltb (i + 1) (length raw))) [
  | inr over ↦ rw over (returns tt)
  | inl more ↦ rw more (
      Returns->>= (read_u16_le-Returns raw i (ground arith)) λ ch _.
        step (path_step ch result)
          λ next. path_loop-Returns fuel raw (i + 2) next (ground arith) (omega arith))
]
  where
    step :
        (s : PathStep)
        → ((next : Text) → Returns Any (path_loop fuel raw (i + 2) next))
        → Returns Any
            (elim s [ found path ↦ ok path | go_on next ↦ path_loop fuel raw (i + 2) next ])
    step (found path) k = returns tt
    step (go_on next) k = k next

pub extract_boot_app_path-Returns : (raw : Bytes) → Returns Any (extract_boot_app_path raw)
unfolding extract_boot_app_path
extract_boot_app_path-Returns raw = elim (Bool-cases (ltb (length raw) 32)) [
  | inl e ↦ rw e (returns tt)
  | inr e ↦ rw e (path_loop-Returns (length raw) raw 32 [] (ground arith) (ground arith))
]

version_loop-Returns :
    (fuel : ℕ) (raw : Bytes) (i : ℕ) (version : Text)
    → i ≤ length raw + 1
    → length raw + 1 < i + 2 * fuel
    → Returns Any (version_loop fuel raw i version)
unfolding version_loop
version_loop-Returns zero raw i version lo hi = absurd (omega arith)
version_loop-Returns (suc fuel) raw i version lo hi = elim (Bool-cases (ltb (i + 1) (length raw))) [
  | inr over ↦ rw over (returns tt)
  | inl more ↦ rw more (
      Returns->>= (read_u16_le-Returns raw i (ground arith)) λ ch _. step (ch == 0) (
        version_loop-Returns fuel raw (i + 2) (if ltb ch 128 then version ++ ch ∷ [] else version)
          (ground arith) (omega arith)))
]
  where
    step :
        (b : Bool) {rest : Outcome Text}
        → Returns Any rest
        → Returns Any (if b then ok version else rest)
    step true k = returns tt
    step false k = k

pub crtm_version-Returns : (raw : Bytes) → Returns Any (crtm_version raw)
unfolding crtm_version
crtm_version-Returns raw =
    version_loop-Returns (suc (length raw)) raw 0 [] (omega arith) (omega arith)

-- A round of the digest loop ends in bounds, and further on in the log.
abbrev DigestsEnd : Bytes → ℕ → Option DigestState → Type 0
DigestsEnd raw m none = Unit
DigestsEnd raw m (some s) = InBounds raw s.cursor × (s.cursor.remaining ≤ m)

read_digest-Returns :
    (raw : Bytes) (m : ℕ) (s : DigestState)
    → InBounds raw s.cursor
    → s.cursor.remaining ≤ m
    → Returns (DigestsEnd raw m) (read_digest raw s)
unfolding read_digest
read_digest-Returns raw m s b le = elim (Bool-cases (ltb s.cursor.remaining 2)) [
  | inl e ↦ rw e (returns tt)
  | inr e ↦ rw e (
      Returns->>= (read_u16_le-Returns raw s.cursor.pos (ground arith)) λ alg _.
        Returns->>= (advance-Returns raw s.cursor 2 b (ground arith)) λ c a.
          elim (Bool-cases (digest_size_of alg == 0)) [
            | inl z ↦ rw z (returns tt)
            | inr z ↦ rw z (elim (Bool-cases (ltb c.remaining (digest_size_of alg))) [
              | inl k ↦ rw k (returns tt)
              | inr k ↦
                  let fits : digest_size_of alg ≤ c.remaining = ground arith in
                  rw k (
                    Returns->>=
                      (slice-Returns raw c.pos (digest_size_of alg) (omega (arith, a.in_bounds)))
                      λ digest _.
                        Returns->>= (advance-Returns raw c (digest_size_of alg) a.in_bounds fits)
                          λ c' a'. returns (a'.in_bounds, omega arith))
            ])
          ])
]

read_digests-Returns :
    (n : ℕ) (raw : Bytes) (m : ℕ) (s : DigestState)
    → InBounds raw s.cursor
    → s.cursor.remaining ≤ m
    → Returns (DigestsEnd raw m) (read_digests n raw s)
unfolding read_digests
read_digests-Returns zero raw m s b le = returns (b, le)
read_digests-Returns (suc n) raw m s b le =
    Returns->>= (read_digest-Returns raw m s b le) (next (read_digests-Returns n raw m))
  where
    next :
        ((s' : DigestState)
          → InBounds raw s'.cursor
          → s'.cursor.remaining ≤ m
          → Returns (DigestsEnd raw m) (read_digests n raw s'))
        → (o : Option DigestState) → DigestsEnd raw m o
        → Returns (DigestsEnd raw m) (elim o [ none ↦ ok none | some s' ↦ read_digests n raw s' ])
    next rest none h = returns tt
    next rest (some s') (b', le') = rest s' b' le'

-- An entry that is read leaves the cursor in bounds, and at least 16 bytes further on.
abbrev pub EntryEnds : Bytes → Cursor → Option (EventLogEntry × Cursor) → Type 0
EntryEnds raw c none = Unit
EntryEnds raw c (some (e, c')) = InBounds raw c' × (c'.remaining + 16 ≤ c.remaining)

read_event_data-Returns :
    (raw : Bytes) (c : Cursor) (pcr type : ℕ) (s : DigestState)
    → InBounds raw s.cursor
    → s.cursor.remaining + 12 ≤ c.remaining
    → Returns (EntryEnds raw c) (read_event_data raw pcr type s)
unfolding read_event_data
read_event_data-Returns raw c pcr type s b le = elim (Bool-cases (ltb s.cursor.remaining 4)) [
  | inl e ↦ rw e (returns tt)
  | inr e ↦ rw e (
      Returns->>= (read_u32_le-Returns raw s.cursor.pos (ground arith)) λ size _.
        Returns->>= (advance-Returns raw s.cursor 4 b (ground arith)) λ d a.
          elim (Bool-cases (ltb d.remaining size)) [
            | inl k ↦ rw k (returns tt)
            | inr k ↦
                let fits : size ≤ d.remaining = ground arith in
                rw k (
                  Returns->>= (slice-Returns raw d.pos size (omega (arith, a.in_bounds)))
                    λ contents _.
                      Returns->>= (advance-Returns raw d size a.in_bounds fits)
                        λ d' a'. returns (a'.in_bounds, omega arith))
          ])
]

-- With 12 bytes remaining an entry is read, or dropped, with no access outside of the log.
pub read_entry-Returns :
    (raw : Bytes) (c : Cursor)
    → InBounds raw c
    → 12 ≤ c.remaining
    → Returns (EntryEnds raw c) (read_entry raw c)
unfolding read_entry
read_entry-Returns raw c b h = Returns->>= (read_u32_le-Returns raw c.pos (omega arith)) λ pcr _.
    Returns->>= (advance-Returns raw c 4 b (omega arith)) λ c1 a1.
      Returns->>= (read_u32_le-Returns raw c1.pos (omega (arith, a1.in_bounds))) λ type _.
        Returns->>= (advance-Returns raw c1 4 a1.in_bounds (omega arith)) λ c2 a2.
          elim (Bool-cases (ltb c2.remaining 4)) [
            | inl e ↦ rw e (returns tt)
            | inr e ↦ rw e (
                Returns->>= (read_u32_le-Returns raw c2.pos (omega (arith, a2.in_bounds)))
                  λ count _.
                    Returns->>= (advance-Returns raw c2 4 a2.in_bounds (omega arith)) λ c3 a3.
                      elim (Bool-cases (ltb 8 count)) [
                        | inl k ↦ rw k (returns tt)
                        | inr k ↦ rw k (
                            Returns->>=
                              (read_digests-Returns count raw c3.remaining
                                (record { cursor = c3; digests = [] }) a3.in_bounds (omega arith))
                              (tail pcr type c3 (omega arith)))
                      ])
          ]
  where
    tail :
        (pcr type : ℕ) (c3 : Cursor)
        → c3.remaining + 12 ≤ c.remaining
        → (o : Option DigestState) → DigestsEnd raw c3.remaining o
        → Returns
            (EntryEnds raw c)
            (elim o [ none ↦ ok none | some s ↦ read_event_data raw pcr type s ])
    tail pcr type c3 le none k = returns tt
    tail pcr type c3 le (some s) (b', k) = read_event_data-Returns raw c pcr type s b' (omega arith)
