-- ===== src/Windows/Pcp.antt =====
-- Class `TpmPcp` of src/tpm/tpm_pcp.cpp. The object's state is whether it holds a provider.
use sdk_windows.Prelude.{ℕ, Bool, true, false, not, Bytes, ◌==◌, if◌then◌else◌}
use sdk_windows.Windows.{Ncrypt, Property, ek_nv_cert, ek_pub}
use sdk_windows.Windows.Digests.{resize}
use sdk_windows.Tpm.{
  Result, success, failure, failed, s_ok, rh_e_not_open, rh_e_malformed_response,
  hr_from_security_status,
}

unfoldable pub is_available : Ncrypt → Bool
is_available api = not (failed api.open_status)

unfoldable pub open_pcp : Ncrypt → Bool → ℕ × Bool
open_pcp api provider =
    if provider
    then (s_ok, true)
    else if failed api.open_status
    then (hr_from_security_status api.open_status, false)
    else (s_ok, true)

unfoldable pub read_value_of : ℕ × (Bytes × ℕ) → Result Bytes
read_value_of (status, (value, size)) =
    if failed status then failure (hr_from_security_status status) else success (resize size value)

unfoldable pub sized_value_of : Ncrypt → Property → ℕ × ℕ → Result Bytes
unfolding read_value_of
sized_value_of api property (status, size) =
    if failed status
    then failure (hr_from_security_status status)
    else if size == 0
    then failure rh_e_malformed_response
    else read_value_of (api.read_property property size)

unfoldable pub read_pcp_property : Ncrypt → Bool → Property → Result Bytes
unfolding sized_value_of
read_pcp_property api provider property =
    if not provider
    then failure rh_e_not_open
    else sized_value_of api property (api.size_of_property property)

unfoldable pub read_ek_certificate : Ncrypt → Bool → Result Bytes
read_ek_certificate api provider = read_pcp_property api provider ek_nv_cert

unfoldable pub read_ek_public_key : Ncrypt → Bool → Result Bytes
read_ek_public_key api provider = read_pcp_property api provider ek_pub
