-- ===== src/Wire.antt =====
-- Fixed-width integers in byte buffers: `ReadU16LE`, `ReadU32LE` (src/boot), the 64-bit `memcpy`
-- of efi_variable.h, and `ReadU16`, `ReadU32`, `WriteU16`, `WriteU32` (src/tpm/tpm_commands.cpp).
-- A pointer is an offset into its buffer, and a read outside the buffer is a fault. The disjoint
-- byte lanes that the code joins by `|` are added.
pub mod Reads
pub mod Cursor
use sdk_windows.Prelude.{
  ℕ, zero, suc, ◌+◌, ◌*◌, ◌/◌, ◌%◌, ◌^◌, List, [], ◌∷◌, ◌++◌, Bytes, length, take, drop, Outcome,
  ok, fault, leb, if◌then◌else◌,
}

abbrev pub u16_mod : ℕ
u16_mod = 2 ^ 16

abbrev pub u32_mod : ℕ
u32_mod = 2 ^ 32

abbrev pub u64_mod : ℕ
u64_mod = 2 ^ 64

-- `size_t` of the 64-bit target.
abbrev pub size_mod : ℕ
size_mod = 2 ^ 64

le16 : Bytes → Outcome ℕ
le16 (a ∷ b ∷ _) = ok ((a + b * 2 ^ 8) % u16_mod)
le16 _ = fault

le32 : Bytes → Outcome ℕ
le32 (a ∷ b ∷ c ∷ d ∷ _) = ok ((a + b * 2 ^ 8 + c * 2 ^ 16 + d * 2 ^ 24) % u32_mod)
le32 _ = fault

le64 : Bytes → Outcome ℕ
le64 (a ∷ b ∷ c ∷ d ∷ e ∷ f ∷ g ∷ h ∷ _) = ok (
    (a + b * 2 ^ 8 + c * 2 ^ 16 + d * 2 ^ 24 + e * 2 ^ 32 + f * 2 ^ 40 + g * 2 ^ 48 + h * 2 ^ 56)
    % u64_mod)
le64 _ = fault

be16 : Bytes → Outcome ℕ
be16 (a ∷ b ∷ _) = ok ((a * 2 ^ 8 + b) % u16_mod)
be16 _ = fault

be32 : Bytes → Outcome ℕ
be32 (a ∷ b ∷ c ∷ d ∷ _) = ok ((a * 2 ^ 24 + b * 2 ^ 16 + c * 2 ^ 8 + d) % u32_mod)
be32 _ = fault

byte : Bytes → Outcome ℕ
byte (a ∷ _) = ok a
byte [] = fault

unfoldable pub read_u8 : Bytes → ℕ → Outcome ℕ
unfolding byte
read_u8 raw i = byte (drop i raw)

unfoldable pub read_u16_le : Bytes → ℕ → Outcome ℕ
unfolding le16
read_u16_le raw i = le16 (drop i raw)

unfoldable pub read_u32_le : Bytes → ℕ → Outcome ℕ
unfolding le32
read_u32_le raw i = le32 (drop i raw)

unfoldable pub read_u64_le : Bytes → ℕ → Outcome ℕ
unfolding le64
read_u64_le raw i = le64 (drop i raw)

unfoldable pub read_u16 : Bytes → ℕ → Outcome ℕ
unfolding be16
read_u16 raw i = be16 (drop i raw)

unfoldable pub read_u32 : Bytes → ℕ → Outcome ℕ
unfolding be32
read_u32 raw i = be32 (drop i raw)

-- `std::vector<uint8_t>(p + i, p + i + n)`.
unfoldable pub slice : Bytes → ℕ → ℕ → Outcome Bytes
slice raw i n = if leb (i + n) (length raw) then ok (take n (drop i raw)) else fault

-- What `WriteU16` and `WriteU32` append.
unfoldable pub write_u16 : ℕ → Bytes
write_u16 v = v / 2 ^ 8 % 2 ^ 8 ∷ v % 2 ^ 8 ∷ []

unfoldable pub write_u32 : ℕ → Bytes
write_u32 v = v / 2 ^ 24 % 2 ^ 8 ∷ v / 2 ^ 16 % 2 ^ 8 ∷ v / 2 ^ 8 % 2 ^ 8 ∷ v % 2 ^ 8 ∷ []
