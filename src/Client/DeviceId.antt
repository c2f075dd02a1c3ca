-- ===== src/Client/DeviceId.antt =====
-- `DeriveLocalDeviceId` and `ComputeDeviceIdFromFingerprint` of src/client/rootherald_win.cpp.
pub mod Format
use sdk_windows.Prelude.{
  ℕ, ◌+◌, ◌*◌, ◌%◌, Bool, true, false, not, List, [], ◌∷◌, ◌++◌, Bytes, Text, codes, is_empty,
  length, Outcome, ok, ◌>>=◌, ltb, ◌==◌, if◌then◌else◌,
}
use sdk_windows.Tpm.{Result, success, failure, failed}
use sdk_windows.Windows.{Windows, Digest}
use sdk_windows.Windows.Digests.{bcrypt_digest, hex_byte}
use sdk_windows.Windows.Pcp.{open_pcp, read_ek_public_key}
use sdk_windows.Certs.Store.{read_ek_cert_from_windows_store}

abbrev pub device_id_namespace : Bytes
device_id_namespace =
    0x52 ∷ 0x6F ∷ 0x6F ∷ 0x74 ∷ 0x48 ∷ 0x65 ∷ 0x72 ∷ 0x61 ∷ 0x6C ∷ 0x64 ∷ 0x44 ∷ 0x65 ∷ 0x76 ∷ 0x49
    ∷ 0x44 ∷ 0x76 ∷ []

-- `(b & 0x0F) | 0x50`.
abbrev pub version_byte : ℕ → ℕ
version_byte b = 0x50 + b % 16

-- `(b & 0x3F) | 0x80`.
abbrev pub variant_byte : ℕ → ℕ
variant_byte b = 0x80 + b % 64

-- The first 16 bytes of the digest as text, empty where there are fewer.
unfoldable pub format_guid : Bytes → Text
format_guid
      (b0 ∷ b1 ∷ b2 ∷ b3 ∷ b4 ∷ b5 ∷ b6 ∷ b7 ∷ b8 ∷ b9 ∷ b10 ∷ b11 ∷ b12 ∷ b13 ∷ b14 ∷ b15 ∷ _) =
    hex_byte b3
    ++ (hex_byte b2
        ++ (hex_byte b1
            ++ (hex_byte b0
                ++ (b'-'
                    ∷ (hex_byte b5
                        ++ (hex_byte b4
                            ++ (b'-'
                                ∷ (hex_byte b7
                                    ++ (hex_byte (version_byte b6)
                                        ++ (b'-'
                                            ∷ (hex_byte (variant_byte b8)
                                                ++ (hex_byte b9
                                                    ++ (b'-'
                                                        ∷ (hex_byte b10
                                                            ++ (hex_byte b11
                                                            ++ (hex_byte b12
                                                            ++ (hex_byte b13
                                                            ++ (hex_byte b14
                                                            ++ hex_byte b15))))))))))))))))))
format_guid _ = []

unfoldable pub compute_device_id_from_fingerprint : Digest → Bytes → Text
compute_device_id_from_fingerprint sha1 fingerprint =
    if not (length fingerprint == 32)
    then []
    else format_guid (bcrypt_digest sha1 (device_id_namespace ++ fingerprint))

-- The identifier of a key, or nothing where the key is not read.
unfoldable pub device_id_of_key : Windows → Result Bytes → Text
device_id_of_key w (failure hr) = []
device_id_of_key w (success ek) =
    if is_empty ek
    then []
    else compute_device_id_from_fingerprint w.sha1 (bcrypt_digest w.sha256 ek)

unfoldable pub device_id_of_pcp : Windows → ℕ × Bool → Text
device_id_of_pcp w (hr, provider) =
    if failed hr then [] else device_id_of_key w (read_ek_public_key w.ncrypt provider)

unfoldable pub derive_local_device_id : ℕ → Windows → Outcome Text
derive_local_device_id fuel w = do
  ek_cert ← read_ek_cert_from_windows_store fuel w.ek_store
  ok (
      if ltb 32 (length ek_cert)
      then compute_device_id_from_fingerprint w.sha1 (bcrypt_digest w.sha256 ek_cert)
      else device_id_of_pcp w (open_pcp w.ncrypt false))
