-- ===== src/Windows/Digests.antt =====
-- `BcryptDigest` and the hex writers of src/client/rootherald_win.cpp and src/certs/amd_aia_fetch.cpp.
pub mod Lengths
use sdk_windows.Prelude.{
  ℕ, ◌+◌, ◌-◌, ◌/◌, ◌%◌, Bool, not, List, [], ◌∷◌, ◌++◌, Bytes, Text, length, take, drop, replicate,
  ltb, ◌==◌, if◌then◌else◌,
}
use sdk_windows.Windows.{Digest}

-- `v.resize(n)`: cut, or filled up with zeros.
unfoldable pub resize : ℕ → Bytes → Bytes
resize n v = take n v ++ replicate (n - length v) 0

unfoldable pub bcrypt_digest : Digest → Bytes → Bytes
bcrypt_digest api contents =
    if not (api.open_status == 0)
    then []
    else if not (api.length_status == 0)
    then []
    else if api.hash_length == 0
    then []
    else if not (api.create_status == 0)
    then []
    else if not (api.update_status contents == 0)
    then []
    else if not (api.finish_status contents == 0)
    then []
    else resize api.hash_length (api.finished contents)

-- One character of the table "0123456789abcdef".
unfoldable pub hex_lower : ℕ → ℕ
hex_lower d = if ltb d 10 then b'0' + d else b'a' + (d - 10)

unfoldable pub hex_byte : ℕ → Text
unfolding hex_lower
hex_byte b = hex_lower (b / 16) ∷ hex_lower (b % 16) ∷ []

unfoldable pub bytes_to_hex : Bytes → Text
bytes_to_hex [] = []
bytes_to_hex (b ∷ bs) = hex_byte b ++ bytes_to_hex bs
