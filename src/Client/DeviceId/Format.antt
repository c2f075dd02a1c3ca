-- ===== src/Client/DeviceId/Format.antt =====
-- Lemmas on the format of a device identifier (src/client/rootherald_win.cpp).
use sdk_windows.Prelude.{
  ℕ, zero, suc, ◌-◌, ◌/◌, ◌%◌, ◌≤◌, ◌<◌, ◌≡◌, ◌⊎◌, inl, inr, refl, arith, Bool, true, false, not,
  ◌&&◌, ◌||◌, List, [], ◌∷◌, ◌++◌, Bytes, Text, length, none, Returns, returns, Returns->>=, take,
  replicate, Bool-cases, ltb, leb, ◌==◌,
}
use sdk_windows.Tpm.{Result, success, failure, failed}
use sdk_windows.Windows.{Windows, Digest}
use sdk_windows.Windows.Pcp.{open_pcp, read_ek_public_key}
use sdk_windows.Certs.Store.Reads.{read_ek_cert_from_windows_store-IsCertOrEmpty}
use sdk_windows.Windows.Digests.{bcrypt_digest, resize, hex_byte, hex_lower}
use sdk_windows.Client.DeviceId.{
  device_id_namespace, device_id_of_key, device_id_of_pcp, derive_local_device_id, format_guid,
  compute_device_id_from_fingerprint, version_byte, variant_byte,
}

unfoldable pub is_hex : ℕ → Bool
is_hex c = (leb b'0' c && leb c b'9') || (leb b'a' c && leb c b'f')

-- The places of a GUID.
pub data Place : Type 0 where
  hex hyphen version variant : Place

unfoldable pub fills : Place → ℕ → Bool
unfolding is_hex
fills hex c = is_hex c
fills hyphen c = c == b'-'
fills version c = c == b'5'
fills variant c = c == b'8' || c == b'9' || c == b'a' || c == b'b'

-- Each character fills its place, and there are as many.
pub data IsFilled : List Place → Text → Type 0 where
  ended : IsFilled [] []
  filled :
      {p : Place} {ps : List Place} {c : ℕ} {cs : Text}
      → fills p c ≡ true
      → IsFilled ps cs
      → IsFilled (p ∷ ps) (c ∷ cs)

-- 8, 4, 4, 4 and 12 digits.
abbrev pub guid : List Place
guid =
    hex ∷ hex ∷ hex ∷ hex ∷ hex ∷ hex ∷ hex ∷ hex ∷ hyphen ∷ hex ∷ hex ∷ hex ∷ hex ∷ hyphen ∷ hex
    ∷ hex ∷ version ∷ hex ∷ hyphen ∷ variant ∷ hex ∷ hex ∷ hex ∷ hyphen ∷ hex ∷ hex ∷ hex ∷ hex
    ∷ hex ∷ hex ∷ hex ∷ hex ∷ hex ∷ hex ∷ hex ∷ hex ∷ []

-- Every entry is a byte.
abbrev pub IsBytes : Bytes → Type 0
IsBytes [] = Unit
IsBytes (b ∷ bs) = (b < 256) × IsBytes bs

fills-hex : (d : ℕ) → d < 16 → fills hex (hex_lower d) ≡ true
unfolding fills is_hex hex_lower
fills-hex d h = ground arith

fills-version : (d : ℕ) → fills version (hex_lower (version_byte d / 16)) ≡ true
unfolding fills hex_lower
fills-version d = let high : version_byte d / 16 ≡ 5 = omega arith in rw high refl

fills-variant : (d : ℕ) → fills variant (hex_lower (variant_byte d / 16)) ≡ true
unfolding fills hex_lower
fills-variant d =
    let high : 8 ≤ variant_byte d / 16 = omega arith in
    let low : variant_byte d / 16 < 12 = omega arith in ground arith

hex_byte-IsFilled :
    (b : ℕ) {ps : List Place} {cs : Text}
    → b < 256
    → IsFilled ps cs
    → IsFilled (hex ∷ hex ∷ ps) (hex_byte b ++ cs)
unfolding hex_byte
hex_byte-IsFilled b small h =
    filled (fills-hex (b / 16) (omega arith)) (filled (fills-hex (b % 16) (omega arith)) h)

hyphen-IsFilled :
    {ps : List Place} {cs : Text} → IsFilled ps cs → IsFilled (hyphen ∷ ps) (b'-' ∷ cs)
unfolding fills
hyphen-IsFilled h = filled refl h

version_byte-IsFilled :
    (b : ℕ) {ps : List Place} {cs : Text}
    → IsFilled ps cs
    → IsFilled (version ∷ hex ∷ ps) (hex_byte (version_byte b) ++ cs)
unfolding hex_byte
version_byte-IsFilled b h =
    filled (fills-version b) (filled (fills-hex (version_byte b % 16) (omega arith)) h)

variant_byte-IsFilled :
    (b : ℕ) {ps : List Place} {cs : Text}
    → IsFilled ps cs
    → IsFilled (variant ∷ hex ∷ ps) (hex_byte (variant_byte b) ++ cs)
unfolding hex_byte
variant_byte-IsFilled b h =
    filled (fills-variant b) (filled (fills-hex (variant_byte b % 16) (omega arith)) h)

last_byte-IsFilled : (b : ℕ) → b < 256 → IsFilled (hex ∷ hex ∷ []) (hex_byte b)
unfolding hex_byte
last_byte-IsFilled b small =
    filled (fills-hex (b / 16) (omega arith)) (filled (fills-hex (b % 16) (omega arith)) ended)

-- Nothing, or a GUID.
abbrev pub IsDeviceId : Text → Type 0
IsDeviceId id = (id ≡ []) ⊎ IsFilled guid id

format_guid-IsDeviceId : (v : Bytes) → IsBytes v → IsDeviceId (format_guid v)
unfolding format_guid
format_guid-IsDeviceId
      (b0 ∷ b1 ∷ b2 ∷ b3 ∷ b4 ∷ b5 ∷ b6 ∷ b7 ∷ b8 ∷ b9 ∷ b10 ∷ b11 ∷ b12 ∷ b13 ∷ b14 ∷ b15 ∷ rest)
      (
        h0,
        (
          h1,
          (
            h2,
            (h3, (h4, (h5, (h6, (h7, (h8, (h9, (h10, (h11, (h12, (h13, (h14, (h15, hs))))))))))))),
          ),
        ),
      ) =
    inr (
      hex_byte-IsFilled b3 h3 (
        hex_byte-IsFilled b2 h2 (
          hex_byte-IsFilled b1 h1 (
            hex_byte-IsFilled b0 h0 (
              hyphen-IsFilled (
                hex_byte-IsFilled b5 h5 (
                  hex_byte-IsFilled b4 h4 (
                    hyphen-IsFilled (
                      hex_byte-IsFilled b7 h7 (
                        version_byte-IsFilled b6 (
                          hyphen-IsFilled (
                            variant_byte-IsFilled b8 (
                              hex_byte-IsFilled b9 h9 (
                                hyphen-IsFilled (
                                  hex_byte-IsFilled b10 h10 (
                                    hex_byte-IsFilled b11 h11 (
                                      hex_byte-IsFilled b12 h12 (
                                        hex_byte-IsFilled b13 h13 (
                                          hex_byte-IsFilled b14 h14
                                            (last_byte-IsFilled b15 h15))))))))))))))))))))
format_guid-IsDeviceId _ h = inl refl

take-IsBytes : (n : ℕ) (v : Bytes) → IsBytes v → IsBytes (take n v)
take-IsBytes zero v h = tt
take-IsBytes (suc n) [] h = tt
take-IsBytes (suc n) (b ∷ bs) (h, hs) = (h, take-IsBytes n bs hs)

append-IsBytes : (v : Bytes) (n : ℕ) → IsBytes v → IsBytes (v ++ replicate n 0)
append-IsBytes [] zero h = tt
append-IsBytes [] (suc n) h = (omega arith, append-IsBytes [] n tt)
append-IsBytes (b ∷ bs) n (h, hs) = (h, append-IsBytes bs n hs)

-- `BCryptFinishHash` leaves bytes in the buffer.
abbrev pub LeavesBytes : Digest → Type 0
LeavesBytes api = (contents : Bytes) → IsBytes (api.finished contents)

bcrypt_digest-cases :
    (api : Digest) (contents : Bytes)
    → (bcrypt_digest api contents ≡ [])
      ⊎ (bcrypt_digest api contents ≡ resize api.hash_length (api.finished contents))
unfolding bcrypt_digest
bcrypt_digest-cases api contents = ground arith

bcrypt_digest-IsBytes :
    (api : Digest) (contents : Bytes) → LeavesBytes api → IsBytes (bcrypt_digest api contents)
unfolding resize
bcrypt_digest-IsBytes api contents h =
    let v = api.finished contents in
    let whole : IsBytes (resize api.hash_length v) =
      append-IsBytes (take api.hash_length v) (api.hash_length - length v)
        (take-IsBytes api.hash_length v (h contents)) in
    elim (bcrypt_digest-cases api contents) [ inl e ↦ rw e tt | inr e ↦ rw e whole ]

compute_device_id_from_fingerprint-IsDeviceId :
    (api : Digest) (fingerprint : Bytes)
    → LeavesBytes api
    → IsDeviceId (compute_device_id_from_fingerprint api fingerprint)
unfolding compute_device_id_from_fingerprint
compute_device_id_from_fingerprint-IsDeviceId api fingerprint h =
    elim (Bool-cases (not (length fingerprint == 32))) [
      | inl e ↦ rw e (inl refl)
      | inr e ↦ rw e (
          format_guid-IsDeviceId _
            (bcrypt_digest-IsBytes api (device_id_namespace ++ fingerprint) h))
    ]

id_of_key-IsDeviceId :
    (w : Windows) (r : Result Bytes) → LeavesBytes w.sha1 → IsDeviceId (device_id_of_key w r)
unfolding device_id_of_key
id_of_key-IsDeviceId w (failure hr) h = inl refl
id_of_key-IsDeviceId w (success []) h = inl refl
id_of_key-IsDeviceId w (success (b ∷ bs)) h =
    compute_device_id_from_fingerprint-IsDeviceId w.sha1 (bcrypt_digest w.sha256 (b ∷ bs)) h

id_of_pcp-IsDeviceId :
    (w : Windows) (opened : ℕ × Bool) → LeavesBytes w.sha1 → IsDeviceId (device_id_of_pcp w opened)
unfolding device_id_of_pcp
id_of_pcp-IsDeviceId w (hr, provider) h = elim (Bool-cases (failed hr)) [
  | inl e ↦ rw e (inl refl)
  | inr e ↦ rw e (id_of_key-IsDeviceId w (read_ek_public_key w.ncrypt provider) h)
]

-- Where the enumeration of the certificates ends below the rounds and SHA-1 gives bytes, the local
-- identifier of the device is derived, and is empty, or a GUID of 36 characters in lower case with
-- hyphens in their places, a 5 as the third digit of the third group, and 8, 9, a or b as the first
-- digit of the fourth.
pub derive_local_device_id-IsDeviceId :
    (w : Windows) (n fuel : ℕ)
    → w.ek_store.enum_key n ≡ none
    → n < fuel
    → LeavesBytes w.sha1
    → Returns IsDeviceId (derive_local_device_id fuel w)
unfolding derive_local_device_id
derive_local_device_id-IsDeviceId w n fuel ends enough h =
    Returns->>= (read_ek_cert_from_windows_store-IsCertOrEmpty w.ek_store n fuel ends enough)
      λ cert _. elim (Bool-cases (ltb 32 (length cert))) [
        | inl e ↦ rw e (
            returns (
              compute_device_id_from_fingerprint-IsDeviceId w.sha1 (bcrypt_digest w.sha256 cert) h))
        | inr e ↦ rw e (returns (id_of_pcp-IsDeviceId w (open_pcp w.ncrypt false) h))
      ]
