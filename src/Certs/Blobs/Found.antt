-- ===== src/Certs/Blobs/Found.antt =====
-- What `ExtractDerCertificate` (src/client/rootherald_win.cpp) and `NormalizeBlobToDer`
-- (src/certs/win_cert_store_intermediates.cpp) find.
use mathlib.Core.Path.{subst}
use sdk_windows.Prelude.{
  ℕ, suc, ◌+◌, ◌*◌, ◌≤◌, ◌<◌, ◌≡◌, ◌≢◌, ◌⊎◌, inl, inr, refl, sym, ap, arith, true, ◌&&◌, [], ◌∷◌,
  ◌++◌, Bytes, length, length-append, length-take, take, drop, take-drop, take-append, ltb, leb,
  Bool-cases, le→leb,
}
use sdk_windows.Certs.Blobs.{framed_total, extract_der_certificate}

-- A SEQUENCE with two length bytes, of more than 64 bytes.
pub data IsFramed : Bytes → Type 0 where
  framed :
      (high low : ℕ) (body : Bytes)
      → length body ≡ high * 256 + low
      → 60 < length body
      → IsFramed (0x30 ∷ 0x82 ∷ high ∷ low ∷ body)

-- No byte of the header opens a SEQUENCE.
abbrev pub IsHeader : Bytes → Type 0
IsHeader [] = Unit
IsHeader (b ∷ bs) = (b ≢ 0x30) × IsHeader bs

framed_total-other : (b : ℕ) (bs : Bytes) → b ≢ 0x30 → framed_total (b ∷ bs) ≡ 0
unfolding framed_total
framed_total-other b [] h = refl
framed_total-other b (b1 ∷ []) h = refl
framed_total-other b (b1 ∷ b2 ∷ []) h = refl
framed_total-other b (b1 ∷ b2 ∷ b3 ∷ []) h = refl
framed_total-other b (b1 ∷ b2 ∷ b3 ∷ b4 ∷ bs) h = ground arith

framed_total-IsFramed :
    {cert : Bytes} (after : Bytes)
    → IsFramed cert
    → (framed_total (cert ++ after) ≡ length cert) × (64 < length cert)
unfolding framed_total
framed_total-IsFramed after (framed high low [] e long) = absurd (omega arith)
framed_total-IsFramed after (framed high low (b ∷ body) e long) = (omega (arith, e), omega arith)

extract-here :
    {cert : Bytes} (after : Bytes) → IsFramed cert → extract_der_certificate (cert ++ after) ≡ cert
unfolding extract_der_certificate
extract-here after (framed high low body e long) =
    let cert : Bytes = 0x30 ∷ 0x82 ∷ high ∷ low ∷ body in
    let (total, more) = framed_total-IsFramed after (framed high low body e long) in
    let fits : length cert ≤ length (cert ++ after) = omega (arith, length-append cert after) in
    rw (total, le→leb (length cert) (length (cert ++ after)) fits)
      (let long : ltb 64 (length cert) ≡ true = ground (arith, more) in
        rw long (take-append cert after (length cert) refl))

-- A certificate behind a header in which no byte is 0x30, with anything behind it, is returned alone
-- and whole.
pub extract_der_certificate-IsHeader :
    (header cert after : Bytes)
    → IsHeader header
    → IsFramed cert
    → extract_der_certificate (header ++ (cert ++ after)) ≡ cert
unfolding extract_der_certificate
extract_der_certificate-IsHeader [] cert after h f = extract-here after f
extract_der_certificate-IsHeader (b ∷ bs) cert after (h, hs) f =
    let none : framed_total (b ∷ (bs ++ (cert ++ after))) ≡ 0 = framed_total-other b _ h in
    rw none (extract_der_certificate-IsHeader bs cert after hs f)

-- The bytes stand in the blob.
pub record StandsIn (raw found : Bytes) : Type 0 where
  pub before : Bytes
  pub after : Bytes
  pub whole : raw ≡ before ++ (found ++ after)

-- What the test on the first bytes says of them.
record Opens (s : Bytes) : Type 0 where
  high : ℕ
  low : ℕ
  rest : Bytes
  opens : s ≡ 0x30 ∷ 0x82 ∷ high ∷ low ∷ rest
  total : framed_total s ≡ 4 + (high * 256 + low)

framed_total-Opens : (s : Bytes) → 64 < framed_total s → Opens s
unfolding framed_total
framed_total-Opens [] h = absurd (omega arith)
framed_total-Opens (b0 ∷ []) h = absurd (omega arith)
framed_total-Opens (b0 ∷ b1 ∷ []) h = absurd (omega arith)
framed_total-Opens (b0 ∷ b1 ∷ b2 ∷ []) h = absurd (omega arith)
framed_total-Opens (b0 ∷ b1 ∷ b2 ∷ b3 ∷ []) h = absurd (omega arith)
framed_total-Opens (b0 ∷ b1 ∷ b2 ∷ b3 ∷ b4 ∷ rest) h =
    let first : b0 ≡ 0x30 = ground arith in
    let second : b1 ≡ 0x82 = ground arith in
    record {
      high = b2;
      low = b3;
      rest = b4 ∷ rest;
      opens = rw (first, second) refl;
      total = ground arith;
    }

take-IsFramed :
    (n high low : ℕ) (rest : Bytes)
    → n ≡ 4 + (high * 256 + low)
    → 64 < n
    → n ≤ length (0x30 ∷ 0x82 ∷ high ∷ low ∷ rest)
    → IsFramed (take n (0x30 ∷ 0x82 ∷ high ∷ low ∷ rest))
take-IsFramed (suc (suc (suc (suc m)))) high low rest e long fits =
    framed high low (take m rest) (omega (arith, length-take m rest))
      (omega (arith, length-take m rest))
take-IsFramed _ high low rest e long fits = absurd (omega arith)

-- A result that is not empty is a SEQUENCE of more than 64 bytes with two length bytes, cut out of the
-- blob whole.
pub extract_der_certificate-StandsIn :
    (raw : Bytes)
    → (extract_der_certificate raw ≡ [])
      ⊎ (IsFramed (extract_der_certificate raw) × StandsIn raw (extract_der_certificate raw))
unfolding extract_der_certificate
extract_der_certificate-StandsIn [] = inl refl
extract_der_certificate-StandsIn (b ∷ bs) =
    let later = extract_der_certificate-StandsIn bs in
    let total = framed_total (b ∷ bs) in
    elim (Bool-cases (ltb 64 total && leb total (length (b ∷ bs)))) [
      | inl e ↦
          let long : 64 < total = ground arith in
          let fits : total ≤ length (b ∷ bs) = ground arith in
          let o = framed_total-Opens (b ∷ bs) long in
          rw e (
            inr (
              subst (λ (s : Bytes). IsFramed (take total s)) (sym o.opens)
                  (take-IsFramed total o.high o.low o.rest o.total long
                    (subst (λ (s : Bytes). total ≤ length s) o.opens fits)),
              record {
                before = [];
                after = drop total (b ∷ bs);
                whole = sym (take-drop total (b ∷ bs));
              },
            ))
      | inr e ↦ rw e (elim later [
        | inl none ↦ inl none
        | inr (f, s) ↦
            inr (f, record { before = b ∷ s.before; after = s.after; whole = ap (◌∷◌ b) s.whole })
      ])
    ]
