-- ===== src/Client/Gather/Merge.antt =====
-- The merge of the certificate chain, and the end of `GatherEkEnrollData`
-- (src/client/rootherald_win.cpp).
use sdk_windows.Prelude.{
  ◌≤◌, ◌<◌, ◌≡◌, refl, ap, append-nil, append_assoc, arith, ◌∙◌, false, true, ℕ, Bool, ◌||◌, ◌⊎◌,
  ◌≢◌, sym, text_eq, text_eq_iff, List, [], ◌∷◌, ◌++◌, Bytes, length, length-append, length-take,
  take, take_all, take-append, Bool-cases, inl, inr, ltb, leb, if◌then◌else◌,
}
use sdk_windows.Windows.{Digest}
use sdk_windows.Windows.Digests.{bcrypt_digest}
use sdk_windows.Client.Gather.{
  max_intermediates, note_fingerprint, fingerprints, is_seen, merge_loop, merge_intermediates,
}

-- The certificates whose fingerprint was not seen before, each noted as it is met.
unfoldable unseen : Digest → List Bytes → List Bytes → List Bytes
unseen api [] seen = []
unseen api (c ∷ cs) seen =
    let skipped = unseen api cs seen in
    let added = unseen api cs (note_fingerprint seen (bcrypt_digest api c)) in
    if is_seen seen (bcrypt_digest api c) then skipped else c ∷ added

merge_loop-take :
    (api : Digest) (cs seen out : List Bytes)
    → length out ≤ max_intermediates
    → merge_loop api cs seen out ≡ take max_intermediates (out ++ unseen api cs seen)
unfolding merge_loop unseen
merge_loop-take api [] seen out few = rw (append-nil out, take_all out max_intermediates few) refl
merge_loop-take api (c ∷ cs) seen out few = elim (Bool-cases (leb max_intermediates (length out))) [
  | inl e ↦
      let full : length out ≡ max_intermediates = ground arith in
      rw (e, take-append out (unseen api (c ∷ cs) seen) max_intermediates (omega (arith, full)))
        refl
  | inr e ↦ elim (Bool-cases (is_seen seen (bcrypt_digest api c))) [
    | inl f ↦ rw (e, f) (merge_loop-take api cs seen out few)
    | inr f ↦
        let room : length out < max_intermediates = ground arith in
        rw (e, f)
          (merge_loop-take api cs (note_fingerprint seen (bcrypt_digest api c)) (out ++ c ∷ [])
              (omega (arith, length-append out (c ∷ [])))
            ∙ rw
                (append_assoc out (c ∷ [])
                  (unseen api cs (note_fingerprint seen (bcrypt_digest api c))))
                refl)
  ]
]

-- A certificate of the list has the fingerprint, which is not the empty one of a failed digest.
pub data HasFingerprint (digest : Bytes → Bytes) (fingerprint : Bytes) : List Bytes → Type 0 where
  here :
      {k : Bytes} {ks : List Bytes}
      → fingerprint ≢ []
      → digest k ≡ fingerprint
      → HasFingerprint digest fingerprint (k ∷ ks)
  later :
      {k : Bytes} {ks : List Bytes}
      → HasFingerprint digest fingerprint ks
      → HasFingerprint digest fingerprint (k ∷ ks)

-- Which certificates of the second list are kept, in the third, behind those that are there already: one
-- with the fingerprint of an earlier one is dropped, any other is kept.
pub data Deduplicated (digest : Bytes → Bytes) : List Bytes → List Bytes → List Bytes → Type 0 where
  done : {known : List Bytes} → Deduplicated digest known [] []
  doubled :
      {known cs kept : List Bytes} {c : Bytes}
      → HasFingerprint digest (digest c) known
      → Deduplicated digest known cs kept
      → Deduplicated digest known (c ∷ cs) kept
  fresh :
      {known cs kept : List Bytes} {c : Bytes}
      → ¬ HasFingerprint digest (digest c) known
      → Deduplicated digest (c ∷ known) cs kept
      → Deduplicated digest known (c ∷ cs) (c ∷ kept)

is_seen-append :
    (seen : List Bytes) (g fingerprint : Bytes)
    → is_seen (seen ++ g ∷ []) fingerprint ≡ (is_seen seen fingerprint || text_eq g fingerprint)
unfolding is_seen
is_seen-append [] g fingerprint = ground arith
is_seen-append (s ∷ seen) g fingerprint =
    let later = is_seen-append seen g fingerprint in ground arith

-- The list of the fingerprints that were seen, and the certificates that have them.
record Tracks (digest : Bytes → Bytes) (seen known : List Bytes) : Type 0 where
  sound : (p : Bytes) → is_seen seen p ≡ true → HasFingerprint digest p known
  complete : (p : Bytes) → HasFingerprint digest p known → is_seen seen p ≡ true

note_fingerprint_sound :
    (seen : List Bytes) (g p : Bytes)
    → is_seen (note_fingerprint seen g) p ≡ true
    → (is_seen seen p ≡ true) ⊎ ((p ≢ []) × (g ≡ p))
unfolding note_fingerprint
note_fingerprint_sound seen [] p e = inl e
note_fingerprint_sound seen (b ∷ bs) p e = elim (Bool-cases (is_seen seen p)) [
  | inl f ↦ inl f
  | inr f ↦
      let same : text_eq (b ∷ bs) p ≡ true = rw (is_seen-append seen (b ∷ bs) p, f) at e in
      let equal = (text_eq_iff (b ∷ bs) p).0 same in inr (λ none. not-cons (equal ∙ none), equal)
]
  where
    not-cons : {b : ℕ} {bs : Bytes} → (b ∷ bs) ≢ []
    not-cons e = cc

note_fingerprint_complete :
    (seen : List Bytes) (g p : Bytes)
    → (is_seen seen p ≡ true) ⊎ ((p ≢ []) × (g ≡ p))
    → is_seen (note_fingerprint seen g) p ≡ true
unfolding note_fingerprint
note_fingerprint_complete seen [] p (inl e) = e
note_fingerprint_complete seen [] p (inr (some_bytes, e)) = absurd (some_bytes (sym e))
note_fingerprint_complete seen (b ∷ bs) p (inl e) = rw (is_seen-append seen (b ∷ bs) p, e) refl
note_fingerprint_complete seen (b ∷ bs) p (inr (some_bytes, e)) =
    let same = (text_eq_iff (b ∷ bs) p).1 e in
    rw (is_seen-append seen (b ∷ bs) p, same) (or_true (is_seen seen p))
  where
    or_true : (b : Bool) → (b || true) ≡ true
    or_true true = refl
    or_true false = refl

note_fingerprint-Tracks :
    (digest : Bytes → Bytes) (seen known : List Bytes) (c : Bytes)
    → Tracks digest seen known
    → Tracks digest (note_fingerprint seen (digest c)) (c ∷ known)
note_fingerprint-Tracks digest seen known c t = record {
  sound = λ p e. elim (note_fingerprint_sound seen (digest c) p e) [
    | inl f ↦ later (t.sound p f)
    | inr (some_bytes, f) ↦ here some_bytes f
  ];
  complete = λ p h. note_fingerprint_complete seen (digest c) p (go p h);
}
  where
    go :
        (p : Bytes)
        → HasFingerprint digest p (c ∷ known)
        → (is_seen seen p ≡ true) ⊎ ((p ≢ []) × (digest c ≡ p))
    go p (here some_bytes e) = inr (some_bytes, e)
    go p (later h) = inl (t.complete p h)

fingerprints_sound :
    (api : Digest) (own seen : List Bytes) (p : Bytes)
    → is_seen (fingerprints api own seen) p ≡ true
    → (is_seen seen p ≡ true) ⊎ HasFingerprint (bcrypt_digest api) p own
unfolding fingerprints
fingerprints_sound api [] seen p e = inl e
fingerprints_sound api (c ∷ cs) seen p e =
    elim (fingerprints_sound api cs (note_fingerprint seen (bcrypt_digest api c)) p e) [
      | inr h ↦ inr (later h)
      | inl f ↦ elim (note_fingerprint_sound seen (bcrypt_digest api c) p f) [
        | inl g ↦ inl g
        | inr (some_bytes, g) ↦ inr (here some_bytes g)
      ]
    ]

fingerprints_complete :
    (api : Digest) (own seen : List Bytes) (p : Bytes)
    → (is_seen seen p ≡ true) ⊎ HasFingerprint (bcrypt_digest api) p own
    → is_seen (fingerprints api own seen) p ≡ true
unfolding fingerprints
fingerprints_complete api [] seen p (inl e) = e
fingerprints_complete api [] seen p (inr h) = elim h [ ]
fingerprints_complete api (c ∷ cs) seen p (inl e) =
    fingerprints_complete api cs (note_fingerprint seen (bcrypt_digest api c)) p
      (inl (note_fingerprint_complete seen (bcrypt_digest api c) p (inl e)))
fingerprints_complete api (c ∷ cs) seen p (inr (here some_bytes e)) =
    fingerprints_complete api cs (note_fingerprint seen (bcrypt_digest api c)) p
      (inl (note_fingerprint_complete seen (bcrypt_digest api c) p (inr (some_bytes, e))))
fingerprints_complete api (c ∷ cs) seen p (inr (later h)) =
    fingerprints_complete api cs (note_fingerprint seen (bcrypt_digest api c)) p (inr h)

fingerprints-Tracks :
    (api : Digest) (own : List Bytes) → Tracks (bcrypt_digest api) (fingerprints api own []) own
unfolding is_seen
fingerprints-Tracks api own = record {
  sound = λ p e. elim (fingerprints_sound api own [] p e) [ inl f ↦ cc | inr h ↦ h ];
  complete = λ p h. fingerprints_complete api own [] p (inr h);
}

unseen-Deduplicated :
    (api : Digest) (cs seen known : List Bytes)
    → Tracks (bcrypt_digest api) seen known
    → Deduplicated (bcrypt_digest api) known cs (unseen api cs seen)
unfolding unseen
unseen-Deduplicated api [] seen known t = done
unseen-Deduplicated api (c ∷ cs) seen known t =
    elim (Bool-cases (is_seen seen (bcrypt_digest api c))) [
      | inl e ↦
          rw e (doubled (t.sound (bcrypt_digest api c) e) (unseen-Deduplicated api cs seen known t))
      | inr e ↦ rw e (
          fresh (λ h. let yes = t.complete (bcrypt_digest api c) h in cc)
            (unseen-Deduplicated api cs (note_fingerprint seen (bcrypt_digest api c)) (c ∷ known)
              (note_fingerprint-Tracks (bcrypt_digest api) seen known c t)))
    ]

-- With at most 8 certificates from the TPM, the merge gives the first 8 of these, followed by the
-- certificates of Windows less the duplicates: one is dropped exactly where its SHA-256 fingerprint is that
-- of one of the TPM's or of an earlier one of Windows, and was computed. The cap drops certificates of
-- Windows from the end only, the TPM's stand first, and there are at most 8 in all.
pub merge_intermediates-take :
    (api : Digest) (own stored : List Bytes)
    → length own ≤ max_intermediates
    → (kept : List Bytes) × Deduplicated (bcrypt_digest api) own stored kept
      × (merge_intermediates api own stored ≡ take max_intermediates (own ++ kept))
      × (length (merge_intermediates api own stored) ≤ max_intermediates)
unfolding merge_intermediates
merge_intermediates-take api own stored few =
    let kept = unseen api stored (fingerprints api own []) in
    let chain = own ++ kept in
    let merged = merge_loop-take api stored (fingerprints api own []) own few in
    let short : length (merge_loop api stored (fingerprints api own []) own) ≤ max_intermediates =
      omega (arith, ap length merged, length-take max_intermediates chain) in
    let fits : ltb max_intermediates (length (merge_loop api stored (fingerprints api own []) own))
        ≡ false =
      ground arith in
    (
      kept,
      unseen-Deduplicated api stored (fingerprints api own []) own (fingerprints-Tracks api own),
      rw fits merged,
      rw fits short,
    )
