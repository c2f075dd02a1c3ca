-- ===== src/Certs/Amd.antt =====
-- src/certs/amd_aia_fetch.cpp: the modulus of the endorsement key, and the certificate that AMD serves
-- for it.
pub mod Modulus
use sdk_windows.Prelude.{
  ℕ, ◌+◌, ◌-◌, ◌≤◌, Bool, not, ◌||◌, List, [], ◌∷◌, ◌++◌, Bytes, Text, codes, is_empty, length,
  Option, none, some, Outcome, ok, ◌>>=◌, ltb, leb, ◌==◌, if◌then◌else◌,
}
use sdk_windows.Wire.{read_u32_le, slice, size_mod}
use sdk_windows.Windows.{Digest, WinHttp}
use sdk_windows.Windows.Digests.{resize, bytes_to_hex}
use sdk_windows.Windows.Http.{HttpResponse, http_get}

abbrev pub bcrypt_rsa_public_magic : ℕ
bcrypt_rsa_public_magic = 0x31415352

abbrev pub max_modulus_bytes : ℕ
max_modulus_bytes = 1024

-- `SizeTAdd`, none where the sum overflows.
abbrev pub size_t_add : ℕ → ℕ → Option ℕ
size_t_add a b = if ltb (a + b) size_mod then some (a + b) else none

-- The bytes between the two offsets.
unfoldable pub modulus_between : Bytes → Option ℕ → ℕ → Outcome Bytes
modulus_between blob none size = ok []
modulus_between blob (some offset) size = elim (size_t_add offset size) [
  | none ↦ ok []
  | some end ↦ if ltb (length blob) end then ok [] else slice blob offset size
]

unfoldable pub extract_rsa_modulus_from_ek_pub : Bytes → Outcome Bytes
extract_rsa_modulus_from_ek_pub blob = if ltb (length blob) 24 then ok [] else do
  magic ← read_u32_le blob 0
  exponent_size ← read_u32_le blob 8
  modulus_size ← read_u32_le blob 12
  if not (magic == bcrypt_rsa_public_magic)
      then ok []
      else if modulus_size == 0 || ltb max_modulus_bytes modulus_size
      then ok []
      else modulus_between blob (size_t_add 24 exponent_size) modulus_size

-- `Sha256` of this file, which takes the length for granted.
unfoldable pub sha256_of : Digest → Bytes → Option Bytes
sha256_of api contents =
    if not (api.open_status == 0)
    then none
    else if not (api.create_status == 0)
    then none
    else if not (api.update_status contents == 0)
    then none
    else if not (api.finish_status contents == 0)
    then none
    else some (resize 32 (api.finished contents))

unfoldable pub fetch_amd_aia_ek_cert : ℕ → Digest → WinHttp → Bytes → Outcome Bytes
fetch_amd_aia_ek_cert fuel api http modulus =
    if is_empty modulus then ok [] else elim (sha256_of api modulus) [
      | none ↦ ok []
      | some digest ↦
          http_get fuel http (codes "https://ftpm.amd.com/pki/aia/" ++ bytes_to_hex digest)
          >>= λ response. if not (response.status_code == 200) then ok [] else ok response.body
    ]
