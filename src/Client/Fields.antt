-- ===== src/Client/Fields.antt =====
-- `std::map<std::string, std::string>` as src/client/rootherald_win.cpp uses it, and the JSON array of
-- certificates that it puts in a field.
use sdk_windows.Prelude.{
  Bool, true, false, ◌&&◌, ◌||◌, List, [], ◌∷◌, ◌++◌, Bytes, Text, codes, text_eq, ltb, ◌==◌,
  if◌then◌else◌,
}
use sdk_windows.Json.{escape}
use sdk_windows.Windows.{Base64Api}
use sdk_windows.Windows.Base64.{der_to_pem}

abbrev pub Fields : Type 0
Fields = List (Text × Text)

-- The order of the keys.
unfoldable pub text_lt : Text → Text → Bool
text_lt [] [] = false
text_lt [] (d ∷ ds) = true
text_lt (c ∷ cs) [] = false
text_lt (c ∷ cs) (d ∷ ds) = ltb c d || (c == d && text_lt cs ds)

-- `fields[key] = value`.
unfoldable pub put_field : Text → Text → Fields → Fields
put_field key value [] = (key, value) ∷ []
put_field key value ((k, v) ∷ fields) =
    let rest = put_field key value fields in
    if text_eq key k
    then (k, value) ∷ fields
    else if text_lt key k
    then (key, value) ∷ (k, v) ∷ fields
    else (k, v) ∷ rest

-- A list of fields with different keys, put one after the other.
unfoldable pub put_all : Fields → Fields → Fields
put_all [] fields = fields
put_all ((key, value) ∷ more) fields = put_all more (put_field key value fields)

abbrev pub fields_of : Fields → Fields
fields_of more = put_all more []

-- The escapes of the loop over a PEM are those of `JsonBuild`.
unfoldable pub pem_elements : Bool → Base64Api → List Bytes → Text
pem_elements first api [] = []
pem_elements first api (der ∷ ders) =
    (if first then [] else codes ",")
    ++ (codes "\"" ++ (escape (der_to_pem api der) ++ (codes "\"" ++ pem_elements false api ders)))

unfoldable pub pem_array : Base64Api → List Bytes → Text
pem_array api ders = codes "[" ++ (pem_elements true api ders ++ codes "]")

-- The field of the chain, where there is a chain.
unfoldable pub put_chain_field : Base64Api → List Bytes → Fields → Fields
put_chain_field api [] fields = fields
put_chain_field api (der ∷ ders) fields =
    put_field (codes "ekCertificateChain") (pem_array api (der ∷ ders)) fields

-- `if (!value.empty()) fields[key] = value;`
unfoldable pub put_if_any : Text → Text → Fields → Fields
put_if_any key [] fields = fields
put_if_any key (c ∷ cs) fields = put_field key (c ∷ cs) fields
