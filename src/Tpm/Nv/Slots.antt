-- ===== src/Tpm/Nv/Slots.antt =====
-- `ReadIntelOdcaIntermediates` (src/tpm/tpm_commands.cpp) on a TPM whose NV range holds a stream of
-- certificates, split over the 16 indices.
use mathlib.Core.List.{append_assoc}
use sdk_windows.Prelude.{
  ℕ, ◌+◌, ◌<◌, ◌≡◌, ◌≢◌, refl, sym, true, Returns-weaken, ◌∙◌, append-nil, List, [], ◌∷◌, ◌++◌,
  Bytes, length, take, ok, Returns, returns, Returns->>=,
}
use sdk_windows.Wire.{u16_mod, u32_mod}
use sdk_windows.Tpm.{Tbs, Tpm, replied, failure, hr_from_tpm_rc}
use sdk_windows.Tpm.Marshal.{patch_size, nv_read_public_command}
use sdk_windows.Tpm.Commands.Errors.{error_reply}
use sdk_windows.Tpm.Nv.{read_nv_data, collect_slots, read_intel_odca_intermediates}
use sdk_windows.Tpm.Nv.Cut.{max_certificates}
use sdk_windows.Tpm.Nv.Cut.RoundTrip.{put_chain, AreSequences, IsPadding, cut_chain-take}
use sdk_windows.Tpm.Nv.Contents.{Serves, Fits, read_nv_data-IsRead, transact-refusal}

-- What an index holds: contents that the TPM lets one read, or nothing, where it is not defined and
-- TPM2_NV_ReadPublic is answered with an error.
pub data HasSlot (tbs : Tbs) (index : ℕ) : Bytes → Type 0 where
  defined :
      {limit : ℕ} {contents : Bytes}
      → Serves tbs index limit contents
      → Fits limit contents
      → 0 < length contents
      → length contents < u16_mod
      → HasSlot tbs index contents
  undefined :
      (rc : ℕ)
      → rc < u32_mod
      → rc ≢ 0
      → ((d : tbs.Device)
          → (d' : tbs.Device) × (tbs.submit d (patch_size (nv_read_public_command index))
              ≡ (replied (error_reply rc), d')))
      → HasSlot tbs index []

-- The indices from the i-th on.
abbrev pub HasSlots : Tbs → ℕ → List Bytes → Type 0
HasSlots tbs i [] = Unit
HasSlots tbs i (part ∷ parts) = HasSlot tbs (0x01C00100 + i) part × HasSlots tbs (i + 1) parts

abbrev pub joined : List Bytes → Bytes
joined [] = []
joined (part ∷ parts) = part ++ joined parts

module _ (tbs : Tbs) where
  read_nv_data-undefined :
      (index rc : ℕ) (t : Tpm tbs) (d : tbs.Device)
      → rc < u32_mod
      → rc ≢ 0
      → t.is_open ≡ true
      → tbs.submit t.device (patch_size (nv_read_public_command index))
        ≡ (replied (error_reply rc), d)
      → read_nv_data u16_mod index t
        ≡ ok (failure (hr_from_tpm_rc rc), record { is_open = true; device = d })
  unfolding read_nv_data
  read_nv_data-undefined index rc t d fits some_error h sent =
      rw (transact-refusal rc (nv_read_public_command index) t d fits some_error h sent) refl

  collect_slots-joined :
      (parts : List Bytes) (i : ℕ) (stream : Bytes) (t : Tpm tbs)
      → HasSlots tbs i parts
      → t.is_open ≡ true
      → Returns
          (λ (out : Bytes × Tpm tbs). out.0 ≡ stream ++ joined parts)
          (collect_slots (length parts) i stream t)
  unfolding collect_slots
  collect_slots-joined [] i stream t slots h = returns (sym (append-nil stream))
  collect_slots-joined (part ∷ parts) i stream t (defined served narrow some_data fits, slots) h =
      Returns->>= (read_nv_data-IsRead served t h narrow some_data fits) λ out r. rw r.0 (
        Returns-weaken (λ next e. e ∙ append_assoc stream part (joined parts))
          (collect_slots-joined parts (i + 1) (stream ++ part) out.1 slots r.1))
  collect_slots-joined (part ∷ parts) i stream t (undefined rc fits some_error refused, slots) h =
      let (d, sent) = refused t.device in
      rw (read_nv_data-undefined (0x01C00100 + i) rc t d fits some_error h sent, append-nil stream)
        (collect_slots-joined parts (i + 1) stream (record { is_open = true; device = d }) slots
          refl)

-- On a TPM whose 16 indices hold a stream of certificates, each a DER SEQUENCE of definite length with at
-- most 4 length bytes, with padding behind them that opens no SEQUENCE, the call returns exactly these
-- certificates, in their order, or the first 8 where there are more: however the stream is split over the
-- indices, also inside a certificate, and whichever indices are not defined. An index that is defined has
-- less than 65536 bytes and is read in chunks within the TPM's limit.
pub read_intel_odca_intermediates-take :
    (tbs : Tbs) (parts certs : List Bytes) (padding : Bytes) (t : Tpm tbs)
    → length parts ≡ 16
    → HasSlots tbs 0 parts
    → joined parts ≡ put_chain certs padding
    → AreSequences certs
    → IsPadding padding
    → t.is_open ≡ true
    → Returns
        (λ (out : List Bytes × Tpm tbs). out.0 ≡ take max_certificates certs)
        (read_intel_odca_intermediates [] t)
unfolding read_intel_odca_intermediates
read_intel_odca_intermediates-take tbs parts certs padding t all slots split sequences pads h =
    rw⁻¹ all (
      Returns->>= (collect_slots-joined tbs parts 0 [] t slots h)
        λ out e. rw (e, split, cut_chain-take certs padding sequences pads) (returns refl))
