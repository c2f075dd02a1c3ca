-- ===== src/Certs/Store/Kept.antt =====
-- What `ReadWindowsTpmIntermediateStore` (src/certs/win_cert_store_intermediates.cpp) returns.
use mathlib.Core.Path.{subst}
use sdk_windows.Prelude.{
  ℕ, zero, suc, ◌+◌, ◌≤◌, ◌≡◌, refl, arith, true, false, not, List, [], ◌∷◌, ◌++◌, Bytes, is_empty,
  length, length-append, append-nil, append_assoc, ◌∙◌, sym, none, some, ◌⊎◌, Option-cases,
  Bool-cases, inl, inr,
}
use sdk_windows.Boot.SecureBoot.{CertApi}
use sdk_windows.Windows.{Registry, Constraints}
use sdk_windows.Certs.Store.{
  is_likely_ca_cert, intermediate_der, is_kept, intermediates_of, intermediates_loop,
  read_windows_tpm_intermediate_store,
}

module _ (api : CertApi) (c : Constraints api) where
  -- No basic constraints, or ones that are decoded and name a CA.
  abbrev pub IsCa : api.Context → Type 0
  IsCa ctx = (c.basic_constraints ctx ≡ none) ⊎ (c.basic_constraints ctx ≡ some (some true))

  is_likely_ca_cert-IsCa : (ctx : api.Context) → is_likely_ca_cert c ctx ≡ true → IsCa ctx
  unfolding is_likely_ca_cert
  is_likely_ca_cert-IsCa ctx e = elim (Option-cases (c.basic_constraints ctx)) [
    | inl f ↦ inl f
    | inr (none, f) ↦ let no : false ≡ true = (rw (f, is_likely_ca_cert) at e) in cc
    | inr (some ca, f) ↦ let yes : ca ≡ true = (rw (f, is_likely_ca_cert) at e) in inr (rw yes at f)
  ]

  IsCa-is_likely_ca_cert : (ctx : api.Context) → IsCa ctx → is_likely_ca_cert c ctx ≡ true
  unfolding is_likely_ca_cert
  IsCa-is_likely_ca_cert ctx (inl f) = rw (f, is_likely_ca_cert) refl
  IsCa-is_likely_ca_cert ctx (inr f) = rw (f, is_likely_ca_cert) refl

  -- CryptoAPI parses it, and it may be a CA's.
  pub record IsIssuer (der : Bytes) : Type 0 where
    pub some_bytes : is_empty der ≡ false
    pub context : api.Context
    pub parses : api.create_context der ≡ some context
    pub is_ca : IsCa context

  abbrev pub AllIssuers : List Bytes → Type 0
  AllIssuers [] = Unit
  AllIssuers (der ∷ ders) = IsIssuer der × AllIssuers ders

  append-AllIssuers : (xs ys : List Bytes) → AllIssuers xs → AllIssuers ys → AllIssuers (xs ++ ys)
  append-AllIssuers [] ys h k = k
  append-AllIssuers (x ∷ xs) ys (h, hs) k = (h, append-AllIssuers xs ys hs k)

  is_kept-IsIssuer : (der : Bytes) → is_kept api c der ≡ true → IsIssuer der
  unfolding is_kept
  is_kept-IsIssuer [] e = cc
  is_kept-IsIssuer (b ∷ bs) e = elim (Option-cases (api.create_context (b ∷ bs))) [
    | inl f ↦ let no : false ≡ true = (rw f at e) in cc
    | inr (ctx, f) ↦ record {
      some_bytes = refl;
      context = ctx;
      parses = f;
      is_ca = is_likely_ca_cert-IsCa ctx (rw f at e);
    }
  ]

  IsIssuer-is_kept : (der : Bytes) → IsIssuer der → is_kept api c der ≡ true
  unfolding is_kept
  IsIssuer-is_kept der i = rw (i.some_bytes, i.parses) (IsCa-is_likely_ca_cert i.context i.is_ca)

  -- At most one is added for an index.
  abbrev IsOneMore : List Bytes → Type 0
  IsOneMore ders = AllIssuers ders × (length ders ≤ 1)

  intermediates_of-IsOneMore : (r : Registry) (idx : ℕ) → IsOneMore (intermediates_of api c r idx)
  unfolding intermediates_of
  intermediates_of-IsOneMore r idx = elim (Option-cases (r.enum_key idx)) [
    | inl e ↦ rw (e, intermediates_of) (tt, omega arith)
    | inr (name, e) ↦ elim (Bool-cases (is_kept api c (intermediate_der r name))) [
      | inl f ↦
          rw (e, intermediates_of, f)
            ((is_kept-IsIssuer (intermediate_der r name) f, tt), omega arith)
      | inr f ↦ rw (e, intermediates_of, f) (tt, omega arith)
    ]
  ]

  intermediates_loop-AllIssuers :
      (n : ℕ) (r : Registry) (idx : ℕ) (out : List Bytes)
      → AllIssuers out
      → AllIssuers (intermediates_loop n api c r idx out)
        × (length (intermediates_loop n api c r idx out) ≤ n + length out)
  unfolding intermediates_loop
  intermediates_loop-AllIssuers zero r idx out h = (h, omega arith)
  intermediates_loop-AllIssuers (suc n) r idx out h =
      let (more, few) = intermediates_of-IsOneMore r idx in
      let (all, short) =
        intermediates_loop-AllIssuers n r (suc idx) (out ++ intermediates_of api c r idx)
          (append-AllIssuers out (intermediates_of api c r idx) h more) in
      (all, omega (arith, short, few, length-append out (intermediates_of api c r idx)))

-- What is selected from `n` indices of the registry on, in their order: the DER of each subkey that is an
-- issuer's, and nothing else.
pub data Selected (api : CertApi) (c : Constraints api) (r : Registry)
    : ℕ → ℕ → List Bytes → Type 0 where
  done : {idx : ℕ} → Selected api c r idx 0 []
  unlisted :
      {idx n : ℕ} {ders : List Bytes}
      → r.enum_key idx ≡ none
      → Selected api c r (suc idx) n ders
      → Selected api c r idx (suc n) ders
  left_out :
      {idx n : ℕ} {ders : List Bytes} {name : r.Name}
      → r.enum_key idx ≡ some name
      → ¬ IsIssuer api c (intermediate_der r name)
      → Selected api c r (suc idx) n ders
      → Selected api c r idx (suc n) ders
  taken_up :
      {idx n : ℕ} {ders : List Bytes} {name : r.Name}
      → r.enum_key idx ≡ some name
      → IsIssuer api c (intermediate_der r name)
      → Selected api c r (suc idx) n ders
      → Selected api c r idx (suc n) (intermediate_der r name ∷ ders)

module _ (api : CertApi) (c : Constraints api) (r : Registry) where
  intermediates_of-Selected :
      (idx n : ℕ) (ders : List Bytes)
      → Selected api c r (suc idx) n ders
      → Selected api c r idx (suc n) (intermediates_of api c r idx ++ ders)
  unfolding intermediates_of
  intermediates_of-Selected idx n ders s = elim (Option-cases (r.enum_key idx)) [
    | inl e ↦ rw (e, intermediates_of) (unlisted e s)
    | inr (name, e) ↦ elim (Bool-cases (is_kept api c (intermediate_der r name))) [
      | inl f ↦
          rw (e, intermediates_of, f)
            (taken_up e (is_kept-IsIssuer api c (intermediate_der r name) f) s)
      | inr f ↦
          rw (e, intermediates_of, f)
            (left_out e (λ i. let yes = IsIssuer-is_kept api c (intermediate_der r name) i in cc) s)
    ]
  ]

  intermediates_loop-Selected :
      (n idx : ℕ) (out : List Bytes)
      → (ders : List Bytes) × Selected api c r idx n ders
        × (intermediates_loop n api c r idx out ≡ out ++ ders)
  unfolding intermediates_loop
  intermediates_loop-Selected zero idx out = ([], done, sym (append-nil out))
  intermediates_loop-Selected (suc n) idx out =
      let found = intermediates_of api c r idx in
      let (ders, later, e) = intermediates_loop-Selected n (suc idx) (out ++ found) in
      (found ++ ders, intermediates_of-Selected idx n ders later, e ∙ append_assoc out found ders)

-- What the call returns for a store that counts `count` subkeys.
pub data IsStore (api : CertApi) (c : Constraints api) (r : Registry) (count : ℕ)
    : List Bytes → Type 0 where
  closed : r.opens ≡ false → IsStore api c r count []
  listed :
      {ders : List Bytes}
      → r.opens ≡ true
      → Selected api c r 0 count ders
      → IsStore api c r count ders

-- Where the registry counts its subkeys, the call returns, in their order, exactly the certificates of
-- those subkeys below the count that the registry lists and whose DER is not empty, is parsed by
-- CryptoAPI, and has no basic constraints or ones that name a CA; nothing where the store does not open.
-- So each that is returned is an issuer's, and there are at most as many as the registry counts subkeys.
pub read_windows_tpm_intermediate_store-AllIssuers :
    (api : CertApi) (c : Constraints api) (r : Registry) (count : ℕ)
    → r.info ≡ some count
    → IsStore api c r count (read_windows_tpm_intermediate_store api c r)
      × AllIssuers api c (read_windows_tpm_intermediate_store api c r)
      × (length (read_windows_tpm_intermediate_store api c r) ≤ count)
unfolding read_windows_tpm_intermediate_store
read_windows_tpm_intermediate_store-AllIssuers api c r count e = elim (Bool-cases r.opens) [
  | inr f ↦ let shut : not r.opens ≡ true = ground arith in rw shut (closed f, tt, omega arith)
  | inl f ↦
      let found : not r.opens ≡ false = ground arith in
      let (ders, chosen, whole) = intermediates_loop-Selected api c r count 0 [] in
      let (all, short) = intermediates_loop-AllIssuers api c count r 0 [] tt in
      let selected : Selected api c r 0 count (intermediates_loop count api c r 0 []) =
        subst (λ (x : List Bytes). Selected api c r 0 count x) (sym whole) chosen in
      simp (found, e) (listed f selected, all, omega (arith, short))
]
