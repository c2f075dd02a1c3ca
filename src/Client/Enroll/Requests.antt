-- ===== src/Client/Enroll/Requests.antt =====
-- What the backend reads in the texts that the two legs hand out (src/client/rootherald_win.cpp).
use sdk_windows.Prelude.{◌≡◌, refl, false, List, [], ◌∷◌, Bytes, Text, codes, text_eq}
use sdk_windows.Json.{strip, is_verbatim, json_build, json_get}
use sdk_windows.Json.RoundTrip.Fields.{json_get-json_build}
use sdk_windows.Windows.{Windows, Base64Api}
use sdk_windows.Windows.Base64.{base64_encode}
use sdk_windows.Client.Fields.{
  Fields, text_lt, put_field, put_all, put_if_any, put_chain_field, pem_array,
}
use sdk_windows.Client.Gather.{EkEnrollData, build_enroll_fields}
use sdk_windows.Client.Enroll.{activation_json}

-- A text that `JsonBuild` writes as a string, and that is read as one.
abbrev pub IsPlain : Text → Type 0
IsPlain value = is_verbatim value ≡ false

-- The field stands first.
abbrev IsFirst : Text → Text → Fields → Type 0
IsFirst key value fields = (rest : Fields) × (fields ≡ (key, value) ∷ rest)

put_field-IsFirst :
    (key value k v : Text) (fields : Fields)
    → text_eq k key ≡ false
    → text_lt k key ≡ false
    → IsFirst key value fields
    → IsFirst key value (put_field k v fields)
unfolding put_field
put_field-IsFirst key value k v fields other behind (rest, e) =
    (put_field k v rest, rw (e, put_field, other, behind) refl)

put_if_any-IsFirst :
    (key value k v : Text) (fields : Fields)
    → text_eq k key ≡ false
    → text_lt k key ≡ false
    → IsFirst key value fields
    → IsFirst key value (put_if_any k v fields)
unfolding put_if_any
put_if_any-IsFirst key value k [] fields other behind f = f
put_if_any-IsFirst key value k (c ∷ cs) fields other behind f =
    put_field-IsFirst key value k (c ∷ cs) fields other behind f

put_chain_field-IsFirst :
    (api : Base64Api) (value : Text) (ders : List Bytes) (fields : Fields)
    → IsFirst (codes "akPublicArea") value fields
    → IsFirst (codes "akPublicArea") value (put_chain_field api ders fields)
unfolding put_chain_field text_eq text_lt
put_chain_field-IsFirst api value [] fields f = f
put_chain_field-IsFirst api value (der ∷ ders) fields f =
    put_field-IsFirst (codes "akPublicArea") value (codes "ekCertificateChain")
      (pem_array api (der ∷ ders)) fields refl refl f

build_enroll_fields-IsFirst :
    (api : Base64Api) (ek : EkEnrollData) (area : Bytes)
    → IsFirst (codes "akPublicArea") (base64_encode api area) (build_enroll_fields api ek area)
unfolding build_enroll_fields put_all put_field text_eq text_lt
build_enroll_fields-IsFirst api ek area =
    put_chain_field-IsFirst api (base64_encode api area) ek.intermediates _ (
      put_if_any-IsFirst (codes "akPublicArea") (base64_encode api area) (codes "ekCertPem")
        ek.ek_cert_pem _ refl refl (_, refl))

-- In the request of EnrollBegin, with whatever certificates, the field akPublicArea reads back to the
-- encoding of the key's public area, where JsonBuild writes that encoding as a string.
pub build_enroll_fields-area :
    (api : Base64Api) (ek : EkEnrollData) (area : Bytes)
    → IsPlain (base64_encode api area)
    → json_get (json_build (build_enroll_fields api ek area)) (codes "akPublicArea")
      ≡ base64_encode api area
unfolding strip
build_enroll_fields-area api ek area plain =
    let (rest, e) = build_enroll_fields-IsFirst api ek area in
    rw e
      (json_get-json_build [] (codes "akPublicArea") (base64_encode api area) rest plain (refl, tt))

-- In the text of EnrollComplete, whatever the identifier is, the field decryptedSecret reads back to the
-- encoding of the secret, where JsonBuild writes that encoding as a string.
pub activation_json-secret :
    (w : Windows) (device_id : Text) (secret : Bytes)
    → IsPlain (base64_encode w.base64 secret)
    → json_get (activation_json w device_id secret) (codes "decryptedSecret")
      ≡ base64_encode w.base64 secret
unfolding activation_json put_all put_field text_eq text_lt strip
activation_json-secret w device_id secret plain =
    json_get-json_build [] (codes "decryptedSecret") (base64_encode w.base64 secret)
      ((codes "deviceId", device_id) ∷ []) plain (refl, tt)
