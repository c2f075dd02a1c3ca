-- ===== src/Windows/Base64.antt =====
-- `Base64Encode`, `Base64Decode` and `DerToPem` of src/client/rootherald_win.cpp.
use sdk_windows.Prelude.{◌||◌, [], ◌∷◌, ◌++◌, Bytes, Text, codes, is_empty, ◌==◌, if◌then◌else◌}
use sdk_windows.Windows.{Base64Api}
use sdk_windows.Windows.Digests.{resize}

-- The `pop_back` loop: what stands in front of the terminators and line ends at the end.
unfoldable pub trim_end : Text → Text
trim_end [] = []
trim_end (c ∷ cs) =
    let rest = trim_end cs in
    if is_empty rest then (if c == 0 || c == b'\n' || c == b'\r' then [] else c ∷ []) else c ∷ rest

unfoldable pub base64_encode : Base64Api → Bytes → Text
base64_encode api contents =
    let (written, size) = api.encoded contents (api.encoded_length contents) in
    trim_end (resize size written)

unfoldable pub base64_decode : Base64Api → Text → Bytes
base64_decode api encoded =
    let (read, size) = api.decoded encoded (api.decoded_length encoded) in resize size read

unfoldable pub der_to_pem : Base64Api → Bytes → Text
der_to_pem api der =
    codes "-----BEGIN CERTIFICATE-----\n"
    ++ (base64_encode api der ++ codes "\n-----END CERTIFICATE-----")
