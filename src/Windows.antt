-- ===== src/Windows.antt =====
-- What the library calls of Windows, as parameters: a record for each interface, with a function for
-- each call. A status is the number that the call returns. The children are the code that only wraps
-- such calls.
pub mod Digests
pub mod Base64
pub mod Pcp
pub mod Logs
pub mod Http
pub mod Handles
use sdk_windows.Prelude.{ℕ, Bool, Bytes, Text, Option}
use sdk_windows.Boot.SecureBoot.{CertApi}

-- BCrypt, for one algorithm. A call of `BCryptFinishHash` fails, or fills the buffer.
pub record Digest : Type 0 where
  pub open_status : ℕ
  pub length_status : ℕ
  pub hash_length : ℕ
  pub create_status : ℕ
  pub update_status : Bytes → ℕ
  pub finish_status : Bytes → ℕ
  pub finished : Bytes → Bytes

-- `CryptBinaryToStringA` and `CryptStringToBinaryA`: the length that the first call gives, and what
-- the second one leaves in a buffer of that length, with the length it gives.
pub record Base64Api : Type 0 where
  pub encoded_length : Bytes → ℕ
  pub encoded : Bytes → ℕ → Text × ℕ
  pub decoded_length : Text → ℕ
  pub decoded : Text → ℕ → Bytes × ℕ

-- The platform crypto provider behind NCrypt: `NCryptOpenStorageProvider`, and
-- `NCryptGetProperty` for the size of a property and for its value.
pub data Property : Type 0 where
  ek_nv_cert ek_pub : Property

pub record Ncrypt : Type 0 where
  pub open_status : ℕ
  pub size_of_property : Property → ℕ × ℕ
  pub read_property : Property → ℕ → ℕ × (Bytes × ℕ)

-- A key of the registry with certificates: whether it opens, the status and count of
-- `RegQueryInfoKeyW`, `RegEnumKeyExW` at an index, the opening of a subkey, and the type and size of
-- its value "Blob", and the value read into a buffer of that size.
pub record Registry : Type 1 where
  pub Name : Type 0
  pub opens : Bool
  pub info : Option ℕ
  pub enum_key : ℕ → Option Name
  pub opens_subkey : Name → Bool
  pub blob_size : Name → Option (ℕ × ℕ)
  pub blob : Name → ℕ → Option (Bytes × ℕ)

-- WinHTTP: each call fails or not. `data_available` and `read_data` are those of one round of the
-- loop that reads the body.
pub record WinHttp : Type 0 where
  pub crack_url : Text → Option Bool
  pub open_session : Bool
  pub connect : Text → Bool
  pub open_request : Text → Text → Bool → Bool
  pub send_request : Text → Bytes → Bool
  pub receive_response : Text → Bool
  pub status_code : Text → ℕ
  pub data_available : Text → ℕ → Option ℕ
  pub read_data : Text → ℕ → ℕ → Bytes × ℕ

-- `Tbsi_Get_TCG_Log_Ex`: result and size of the first call, and of the second with the buffer.
pub record LogApi : Type 0 where
  pub log_size : ℕ × ℕ
  pub read_log : ℕ → ℕ × (Bytes × ℕ)

-- The basic constraints of a certificate: none where it has no such extension, or what
-- `CryptDecodeObjectEx` makes of it, `none` where it fails.
pub record Constraints (api : CertApi) : Type 0 where
  pub basic_constraints : api.Context → Option (Option Bool)

-- A process on a machine, during one call of the library.
pub record Windows : Type 1 where
  pub sha256 : Digest
  pub sha1 : Digest
  pub base64 : Base64Api
  pub ncrypt : Ncrypt
  pub ek_store : Registry
  pub intermediate_store : Registry
  pub http : WinHttp
  pub logs : LogApi
  pub certs : CertApi
  pub constraints : Constraints certs
  pub token_opens : Bool
  pub elevation : Option ℕ
  pub allocates : ℕ → Bool
