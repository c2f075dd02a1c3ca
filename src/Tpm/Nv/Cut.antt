-- ===== src/Tpm/Nv/Cut.antt =====
-- Lemmas on the loop of `ReadIntelOdcaIntermediates` (src/tpm/tpm_commands.cpp) that cuts the
-- stream of the NV range into certificates.
pub mod RoundTrip
use sdk_windows.Prelude.{
  ℕ, zero, suc, ◌+◌, ◌&&◌, List, [], ◌∷◌, ◌++◌, Bytes, length, Outcome, ok, stuck, ◌>>=◌, ltb, ◌==◌,
  if◌then◌else◌,
}
use sdk_windows.Wire.{slice}
use sdk_windows.Tpm.Nv.Der.{der_object_size}

abbrev pub max_certificates : ℕ
max_certificates = 8

unfoldable pub cut_chain : ℕ → Bytes → ℕ → List Bytes → Outcome (List Bytes)
cut_chain zero stream offset certificates = stuck
cut_chain (suc fuel) stream offset certificates =
    let round : Outcome (List Bytes) = do
      size ← der_object_size stream offset
      let next : Outcome (List Bytes) = (do
        cert ← slice stream offset size
        cut_chain fuel stream (offset + size) (certificates ++ cert ∷ []))
      if size == 0 then ok certificates else next
    in if ltb offset (length stream) && ltb (length certificates) max_certificates
      then round
      else ok certificates
