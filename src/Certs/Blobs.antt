-- ===== src/Certs/Blobs.antt =====
-- `ExtractDerCertificate` of src/client/rootherald_win.cpp and `NormalizeBlobToDer` of
-- src/certs/win_cert_store_intermediates.cpp. A position in the blob is modelled by what stands from
-- there on.
pub mod Found
use sdk_windows.Prelude.{
  ℕ, zero, suc, ◌+◌, ◌-◌, ◌*◌, Bool, true, false, ◌&&◌, ◌||◌, List, [], ◌∷◌, Bytes, length, take,
  ltb, leb, ◌==◌, if◌then◌else◌,
}

-- The length of the framed certificate, 0 where the two bytes 0x30 0x82 do not open one, or where
-- fewer than 5 bytes are left.
unfoldable pub framed_total : Bytes → ℕ
framed_total (b0 ∷ b1 ∷ b2 ∷ b3 ∷ b4 ∷ rest) =
    if b0 == 0x30 && b1 == 0x82 then 4 + (b2 * 256 + b3) else 0
framed_total _ = 0

unfoldable pub extract_der_certificate : Bytes → Bytes
extract_der_certificate [] = []
extract_der_certificate (b ∷ bs) =
    let rest = extract_der_certificate bs in
    let total = framed_total (b ∷ bs) in
    if ltb 64 total && leb total (length (b ∷ bs)) then take total (b ∷ bs) else rest

-- The scan, with the number of positions that are left.
unfoldable pub scan_blob : ℕ → Bytes → Bytes
scan_blob (suc n) (b0 ∷ b1 ∷ rest) =
    let later = scan_blob n (b1 ∷ rest) in
    if b0 == 0x30 && b1 == 0x82 then b0 ∷ b1 ∷ rest else later
scan_blob _ _ = []

abbrev pub scan_limit : ℕ → ℕ
scan_limit size = if ltb size 64 then size else 64

unfoldable pub normalize_blob_to_der : Bytes → Bytes
normalize_blob_to_der (b0 ∷ b1 ∷ b2 ∷ b3 ∷ rest) =
    let blob : Bytes = b0 ∷ b1 ∷ b2 ∷ b3 ∷ rest in
    if b0 == 0x30 && (b1 == 0x82 || b1 == 0x81)
    then blob
    else scan_blob (scan_limit (length blob) - 5) (b1 ∷ b2 ∷ b3 ∷ rest)
normalize_blob_to_der _ = []
