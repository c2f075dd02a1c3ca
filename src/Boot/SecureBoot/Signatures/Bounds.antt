-- ===== src/Boot/SecureBoot/Signatures/Bounds.antt =====
-- Lemmas on both walks of `ParseEfiSignatureList` (src/boot/secureboot_validator.cpp), whatever
-- the lengths are.
use sdk_windows.Prelude.{
  ℕ, zero, suc, ◌+◌, ◌-◌, ◌*◌, ◌/◌, ◌%◌, ◌^◌, ◌≤◌, ◌<◌, ◌≡◌, arith, Bool, true, false, ◌&&◌, ◌||◌,
  List, [], ◌∷◌, Bytes, text_eq, length, length-append, Option, none, some, Returns, returns,
  Returns->>=, Returns-weaken, le→leb, Bool-cases, inl, inr, ltb, leb, ◌==◌, if◌then◌else◌,
}
use sdk_windows.Wire.{size_mod, u32_mod}
use sdk_windows.Wire.Reads.{read_u32_le-Returns, slice-Returns}
use sdk_windows.Wire.Cursor.{Cursor, advance}
use sdk_windows.Boot.EfiVariable.{EfiVariableData}
use sdk_windows.Boot.EfiVariable.Bounds.{InsideIfSome, try_parse_efi_variable_data-Inside}
use sdk_windows.Boot.SecureBoot.{CertApi, CertInfo, efi_cert_x509_guid, efi_cert_sha256_guid}
use sdk_windows.Boot.SecureBoot.Certificates.{parse_der_certificate}
use sdk_windows.Boot.SecureBoot.Signatures.{
  int_max, add_size, note_certificate, entries_loop, Found, read_list, lists_loop,
  signatures_of_parsed, parse_efi_signature_list,
}

length-note_certificate :
    (api : CertApi) (der : Bytes) (certs : List CertInfo)
    → length (note_certificate api der certs) ≤ length certs + 1
unfolding note_certificate
length-note_certificate api der certs =
    ground (arith, length-append certs (parse_der_certificate api der ∷ []))

div_bound : (n s : ℕ) → 17 ≤ s → 17 * (n / s) ≤ n
div_bound n s h = grind arith

mod_le : (n m : ℕ) → n % m ≤ n
mod_le n m = omega arith

module _ (api : CertApi) (raw : Bytes) where
  entries_loop-Returns :
      (fuel base list_size sig_size offset : ℕ) (certs : List CertInfo)
      → base + list_size ≤ length raw
      → 16 < sig_size
      → sig_size < u32_mod
      → list_size < u32_mod
      → offset < 2 ^ 33
      → list_size < fuel + offset
      → 0 < fuel
      → Returns
          (λ (r : List CertInfo). 17 * length r ≤ 17 * length certs + (list_size - offset))
          (entries_loop fuel api raw base list_size sig_size offset certs)
  unfolding entries_loop
  entries_loop-Returns zero base n sig off certs hb hs hs' hn ho hf h0 = absurd (omega arith)
  entries_loop-Returns (suc fuel) base n sig off certs hb hs hs' hn ho hf h0 =
      let no_wrap : add_size off sig ≡ off + sig = omega arith in
      rw no_wrap (elim (Bool-cases (leb (off + sig) n)) [
        | inr over ↦ rw over (returns (omega arith))
        | inl more ↦
            let fits : off + sig ≤ n = ground arith in
            rw more (
              Returns->>= (slice-Returns raw (base + off + 16) (sig - 16) (omega arith)) λ der _.
                round (ltb 0 (sig - 16) && ltb (sig - 16) 65536) der fits (λ certs'.
                  entries_loop-Returns fuel base n sig (off + sig) certs' hb hs hs' hn (omega arith)
                    (omega arith) (omega arith)))
      ])
    where
      round :
          (b : Bool) (der : Bytes)
          → off + sig ≤ n
          → ((certs' : List CertInfo)
              → Returns
                  (λ (r : List CertInfo). 17 * length r ≤ 17 * length certs' + (n - (off + sig)))
                  (entries_loop fuel api raw base n sig (off + sig) certs'))
          → Returns
              (λ (r : List CertInfo). 17 * length r ≤ 17 * length certs + (n - off))
              (entries_loop fuel api raw base n sig
                (off + sig)
                (if b then note_certificate api der certs else certs))
      round true der fits k =
          Returns-weaken (λ r h. omega (arith, length-note_certificate api der certs)) (k _)
      round false der fits k = Returns-weaken (λ r h. omega arith) (k _)

  abbrev weight : Found → ℕ
  weight s = 17 * (length s.certs + s.sha256_entries)

  read_list-Returns :
      (base list_size header_size sig_size : ℕ) (s : Found)
      → base + list_size ≤ length raw
      → base + 16 ≤ length raw
      → list_size < u32_mod
      → header_size < u32_mod
      → sig_size < u32_mod
      → Returns
          (λ (s' : Found). weight s' ≤ weight s + list_size)
          (read_list api raw base list_size header_size sig_size s)
  unfolding read_list
  read_list-Returns base n hd sig s hb hb' hn hh hs =
      let no_wrap : add_size 28 hd ≡ 28 + hd = omega arith in
      rw no_wrap (
        Returns->>= (slice-Returns raw base 16 hb') λ type _.
          elim (Bool-cases (text_eq type efi_cert_x509_guid && ltb 16 sig)) [
            | inl x ↦
                let wide : 16 < sig = ground arith in
                rw x (
                  Returns->>=
                    (entries_loop-Returns (suc n) base n sig (28 + hd) s.certs hb wide hs hn
                      (omega arith) (omega arith) (omega arith))
                    λ certs h. returns (omega arith))
            | inr x ↦
                rw x
                  (elim (Bool-cases
                    (text_eq type efi_cert_sha256_guid && ltb 16 sig && ltb (28 + hd) n)) [
                      | inl y ↦
                          let wide : 17 ≤ sig = ground arith in
                          let sum = s.sha256_entries + (n - (28 + hd)) / sig in
                          rw y (
                            returns (
                              omega
                                (arith, div_bound (n - (28 + hd)) sig wide, mod_le sum size_mod)))
                      | inr y ↦ rw y (returns (omega arith))
                    ])
          ])

  lists_loop-Returns :
      (fuel : ℕ) (c : Cursor) (s : Found)
      → c.pos + c.remaining ≤ length raw
      → c.remaining < fuel
      → Returns (λ (s' : Found). weight s' ≤ weight s + c.remaining) (lists_loop fuel api raw c s)
  unfolding lists_loop advance
  lists_loop-Returns zero c s b h = absurd (omega arith)
  lists_loop-Returns (suc fuel) c s b h = elim (Bool-cases (leb 28 c.remaining)) [
    | inr over ↦ rw over (returns (omega arith))
    | inl more ↦
        let long : 28 ≤ c.remaining = ground arith in
        rw more (
          Returns->>= (read_u32_le-Returns raw (c.pos + 16) (omega arith)) λ n hn.
            Returns->>= (read_u32_le-Returns raw (c.pos + 20) (omega arith)) λ hd hh.
              Returns->>= (read_u32_le-Returns raw (c.pos + 24) (omega arith)) λ sig hs.
                elim (Bool-cases (n == 0 || ltb c.remaining n)) [
                  | inl stop ↦ rw stop (returns (omega arith))
                  | inr go ↦
                      let fits : n ≤ c.remaining = ground arith in
                      let pos : 0 < n = ground arith in
                      rw go (
                        Returns->>=
                          (read_list-Returns c.pos n hd sig s (omega arith) (omega arith) hn hh hs)
                          λ s' hw. rw (le→leb n c.remaining fits) (
                            Returns-weaken (λ r hr. omega arith)
                              (lists_loop-Returns fuel
                                (record { pos = c.pos + n; remaining = c.remaining - n }) s'
                                (omega arith) (omega arith))))
                ])
  ]

  abbrev pub IsBounded : List CertInfo × ℕ → Type 0
  IsBounded r = (17 * (length r.0 + r.1) ≤ length raw) × (r.1 ≤ int_max)

  signatures_of_parsed-Returns :
      (o : Option EfiVariableData)
      → InsideIfSome (length raw) o
      → Returns IsBounded (signatures_of_parsed api raw o)
  unfolding signatures_of_parsed
  signatures_of_parsed-Returns none h = returns (omega arith)
  signatures_of_parsed-Returns (some var) h =
      Returns->>=
        (lists_loop-Returns (suc var.data_bytes)
          (record { pos = var.contents; remaining = var.data_bytes })
          (record { certs = []; sha256_entries = 0 }) h.data_inside (omega arith))
        λ s k. returns (ground arith)

-- On every event data, whatever lengths its lists state and whatever CryptoAPI answers, the parser
-- ends with no read outside of the data. The certificates and the counted digests together are at
-- most one for each 17 bytes, and the count fits into an `int`.
pub parse_efi_signature_list-Returns :
    (api : CertApi) (raw : Bytes) → Returns (IsBounded api raw) (parse_efi_signature_list api raw)
unfolding parse_efi_signature_list
parse_efi_signature_list-Returns api raw =
    Returns->>= (try_parse_efi_variable_data-Inside raw) (signatures_of_parsed-Returns api raw)
