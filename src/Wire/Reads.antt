-- ===== src/Wire/Reads.antt =====
-- A read inside its buffer returns a value of its width, and reads back what was written there.
use sdk_windows.Prelude.{
  ℕ, ◌+◌, ◌/◌, ◌%◌, ◌^◌, ◌≤◌, ◌<◌, ◌≡◌, refl, sym, ◌∙◌, ap, [], ◌∷◌, ◌++◌, arith, Bytes, length,
  length-append, length-drop, take-append, drop-drop, length-take, drop, ok, Returns, returns,
  le→leb,
}
use sdk_windows.Wire.{
  le16, le32, le64, be16, be32, byte, read_u8, read_u16_le, read_u32_le, read_u64_le, read_u16,
  read_u32, slice, write_u16, write_u32, u16_mod, u32_mod, u64_mod,
}

byte-Returns : (xs : Bytes) → 1 ≤ length xs → Returns (λ v. Unit {0}) (byte xs)
unfolding byte
byte-Returns (a ∷ _) h = returns tt
byte-Returns [] h = absurd (omega arith)

le16-Returns : (xs : Bytes) → 2 ≤ length xs → Returns (λ v. v < u16_mod) (le16 xs)
unfolding le16
le16-Returns (a ∷ b ∷ _) h = returns (omega arith)
le16-Returns (a ∷ []) h = absurd (omega arith)
le16-Returns [] h = absurd (omega arith)

le32-Returns : (xs : Bytes) → 4 ≤ length xs → Returns (λ v. v < u32_mod) (le32 xs)
unfolding le32
le32-Returns (a ∷ b ∷ c ∷ d ∷ _) h = returns (omega arith)
le32-Returns (a ∷ b ∷ c ∷ []) h = absurd (omega arith)
le32-Returns (a ∷ b ∷ []) h = absurd (omega arith)
le32-Returns (a ∷ []) h = absurd (omega arith)
le32-Returns [] h = absurd (omega arith)

le64-Returns : (xs : Bytes) → 8 ≤ length xs → Returns (λ v. v < u64_mod) (le64 xs)
unfolding le64
le64-Returns (a ∷ b ∷ c ∷ d ∷ e ∷ f ∷ g ∷ i ∷ _) h = returns (omega arith)
le64-Returns (a ∷ b ∷ c ∷ d ∷ e ∷ f ∷ g ∷ []) h = absurd (omega arith)
le64-Returns (a ∷ b ∷ c ∷ d ∷ e ∷ f ∷ []) h = absurd (omega arith)
le64-Returns (a ∷ b ∷ c ∷ d ∷ e ∷ []) h = absurd (omega arith)
le64-Returns (a ∷ b ∷ c ∷ d ∷ []) h = absurd (omega arith)
le64-Returns (a ∷ b ∷ c ∷ []) h = absurd (omega arith)
le64-Returns (a ∷ b ∷ []) h = absurd (omega arith)
le64-Returns (a ∷ []) h = absurd (omega arith)
le64-Returns [] h = absurd (omega arith)

be16-Returns : (xs : Bytes) → 2 ≤ length xs → Returns (λ v. v < u16_mod) (be16 xs)
unfolding be16
be16-Returns (a ∷ b ∷ _) h = returns (omega arith)
be16-Returns (a ∷ []) h = absurd (omega arith)
be16-Returns [] h = absurd (omega arith)

be32-Returns : (xs : Bytes) → 4 ≤ length xs → Returns (λ v. v < u32_mod) (be32 xs)
unfolding be32
be32-Returns (a ∷ b ∷ c ∷ d ∷ _) h = returns (omega arith)
be32-Returns (a ∷ b ∷ c ∷ []) h = absurd (omega arith)
be32-Returns (a ∷ b ∷ []) h = absurd (omega arith)
be32-Returns (a ∷ []) h = absurd (omega arith)
be32-Returns [] h = absurd (omega arith)

module _ (raw : Bytes) (i : ℕ) where
  pub read_u8-Returns : i + 1 ≤ length raw → Returns (λ v. Unit {0}) (read_u8 raw i)
  unfolding read_u8
  read_u8-Returns h = byte-Returns (drop i raw) (omega (arith, length-drop i raw))

  pub read_u16_le-Returns : i + 2 ≤ length raw → Returns (λ v. v < u16_mod) (read_u16_le raw i)
  unfolding read_u16_le
  read_u16_le-Returns h = le16-Returns (drop i raw) (omega (arith, length-drop i raw))

  pub read_u32_le-Returns : i + 4 ≤ length raw → Returns (λ v. v < u32_mod) (read_u32_le raw i)
  unfolding read_u32_le
  read_u32_le-Returns h = le32-Returns (drop i raw) (omega (arith, length-drop i raw))

  pub read_u64_le-Returns : i + 8 ≤ length raw → Returns (λ v. v < u64_mod) (read_u64_le raw i)
  unfolding read_u64_le
  read_u64_le-Returns h = le64-Returns (drop i raw) (omega (arith, length-drop i raw))

  pub read_u16-Returns : i + 2 ≤ length raw → Returns (λ v. v < u16_mod) (read_u16 raw i)
  unfolding read_u16
  read_u16-Returns h = be16-Returns (drop i raw) (omega (arith, length-drop i raw))

  pub read_u32-Returns : i + 4 ≤ length raw → Returns (λ v. v < u32_mod) (read_u32 raw i)
  unfolding read_u32
  read_u32-Returns h = be32-Returns (drop i raw) (omega (arith, length-drop i raw))

  pub slice-Returns :
      (n : ℕ) → i + n ≤ length raw → Returns (λ (s : Bytes). length s ≡ n) (slice raw i n)
  unfolding slice
  slice-Returns n h =
      rw (le→leb (i + n) (length raw) h)
        (returns (omega (arith, length-take n (drop i raw), length-drop i raw)))

-- The little-endian bytes of a value, as the firmware writes them.
abbrev pub bytes_u16_le : ℕ → Bytes
bytes_u16_le v = v % 2 ^ 8 ∷ v / 2 ^ 8 % 2 ^ 8 ∷ []

abbrev pub bytes_u32_le : ℕ → Bytes
bytes_u32_le v = v % 2 ^ 8 ∷ v / 2 ^ 8 % 2 ^ 8 ∷ v / 2 ^ 16 % 2 ^ 8 ∷ v / 2 ^ 24 % 2 ^ 8 ∷ []

module _ (raw : Bytes) (i v : ℕ) (rest : Bytes) where
  pub read_u16_le-bytes :
      drop i raw ≡ bytes_u16_le v ++ rest → v < u16_mod → read_u16_le raw i ≡ ok v
  unfolding read_u16_le
  read_u16_le-bytes e h = rw (e, le16) (ap ok (omega arith))

  pub read_u32_le-bytes :
      drop i raw ≡ bytes_u32_le v ++ rest → v < u32_mod → read_u32_le raw i ≡ ok v
  unfolding read_u32_le
  read_u32_le-bytes e h = rw (e, le32) (ap ok (omega arith))

  pub read_u16-write_u16 : drop i raw ≡ write_u16 v ++ rest → v < u16_mod → read_u16 raw i ≡ ok v
  unfolding read_u16 write_u16
  read_u16-write_u16 e h = rw (e, be16) (ap ok (omega arith))

  pub read_u32-write_u32 : drop i raw ≡ write_u32 v ++ rest → v < u32_mod → read_u32 raw i ≡ ok v
  unfolding read_u32 write_u32
  read_u32-write_u32 e h = rw (e, be32) (ap ok (omega arith))

pub drop-at_cons :
    (raw : Bytes) (i b : ℕ) (rest : Bytes) → drop i raw ≡ b ∷ rest → drop (i + 1) raw ≡ rest
drop-at_cons raw i b rest e =
    sym (drop-drop i 1 (i + 1) raw refl) ∙ ap (λ (xs : Bytes). drop 1 xs) e

pub read_u8-cons :
    (raw : Bytes) (i b : ℕ) (rest : Bytes) → drop i raw ≡ b ∷ rest → read_u8 raw i ≡ ok b
unfolding read_u8
read_u8-cons raw i b rest e = rw (e, byte) refl

-- What stands ahead of an offset ends where the buffer ends.
pub ahead_fits :
    (raw : Bytes) (i : ℕ) (front rest : Bytes)
    → drop i raw ≡ front ++ rest
    → 0 < length front
    → i + length front + length rest ≡ length raw
ahead_fits raw i front rest e h =
    omega (arith, ap length e, length-drop i raw, length-append front rest)

pub slice-ahead :
    (raw : Bytes) (i : ℕ) (front rest : Bytes)
    → drop i raw ≡ front ++ rest
    → 0 < length front
    → slice raw i (length front) ≡ ok front
unfolding slice
slice-ahead raw i front rest e h =
    let fits : i + length front ≤ length raw = omega (arith, ahead_fits raw i front rest e h) in
    rw (le→leb (i + length front) (length raw) fits, e)
      (ap ok (take-append front rest (length front) refl))
