-- ===== src/Boot/SecureBoot/Chain/Databases.antt =====
-- The signature databases that the log measures, and what the loop of `ValidateSecureBootChain`
-- (src/boot/secureboot_validator.cpp) notes of them.
use mathlib.Core.Path.{subst}
use sdk_windows.Prelude.{
  ℕ, ◌≡◌, ◌⊎◌, refl, ◌∙◌, arith, Bool, true, false, ◌&&◌, ◌||◌, List, [], ◌∷◌, Text, codes, text_eq,
  text_eq_iff, contains, ok, if◌then◌else◌, Bool-cases, inl, inr,
}
use sdk_windows.Boot.EventLog.{EventLogEntry, ev_efi_variable_driver_config, ev_efi_variable_boot}
use sdk_windows.Boot.EventLog.Describe.{extract_efi_variable_name}
use sdk_windows.Boot.SecureBoot.{CertApi, CertInfo, SecureBootChainReport}
use sdk_windows.Boot.SecureBoot.Signatures.{parse_efi_signature_list}
use sdk_windows.Boot.SecureBoot.Chain.{note_pk_certs, note_kek_certs, note_db_certs, note_database}

-- One measured variable: its name, its certificates, and the number of its SHA-256 digests.
pub record Database : Type 0 where
  pub name : Text
  pub certs : List CertInfo
  pub digests : ℕ

-- An event of PCR 7 of one of the two types that carry a signature database.
abbrev pub MeasuresKeys : EventLogEntry → Type 0
MeasuresKeys e =
    (e.pcr_index ≡ 7)
    × ((e.event_type ≡ ev_efi_variable_driver_config) ⊎ (e.event_type ≡ ev_efi_variable_boot))

-- The databases of the entries of a log, in its order.
pub data Measured (api : CertApi) : List EventLogEntry → List Database → Type 0 where
  done : Measured api [] []
  passed :
      {e : EventLogEntry} {es : List EventLogEntry} {ds : List Database}
      → ¬ MeasuresKeys e
      → Measured api es ds
      → Measured api (e ∷ es) ds
  measured :
      {e : EventLogEntry} {es : List EventLogEntry} {ds : List Database} {d : Database}
      → MeasuresKeys e
      → extract_efi_variable_name e.event_data ≡ ok d.name
      → parse_efi_signature_list api e.event_data ≡ ok (d.certs, d.digests)
      → Measured api es ds
      → Measured api (e ∷ es) (d ∷ ds)

abbrev pub any_of : (CertInfo → Bool) → List CertInfo → Bool
any_of p [] = false
any_of p (c ∷ cs) = p c || any_of p cs

-- Some measured database of the name, whichever, has a certificate with the property.
abbrev pub any_cert : Text → (CertInfo → Bool) → List Database → Bool
any_cert name p [] = false
any_cert name p (d ∷ ds) = text_eq d.name name && any_of p d.certs || any_cert name p ds

-- The certificates, and the number of digests, of the last measured database of the name.
abbrev pub last_certs : Text → List CertInfo → List Database → List CertInfo
last_certs name before [] = before
last_certs name before (d ∷ ds) =
    last_certs name (if text_eq d.name name then d.certs else before) ds

abbrev pub last_digests : Text → ℕ → List Database → ℕ
last_digests name before [] = before
last_digests name before (d ∷ ds) =
    last_digests name (if text_eq d.name name then d.digests else before) ds

-- The subject names one of Microsoft's UEFI CAs.
abbrev pub of_uefi_ca : CertInfo → Bool
of_uefi_ca c =
    contains c.subject (codes "Microsoft Corporation UEFI CA 2011")
    || contains c.subject (codes "Microsoft UEFI CA 2023")
    || contains c.subject (codes "Windows UEFI CA 2023")

abbrev pub of_owner : CertInfo → Bool
of_owner c = c.is_known_oem

abbrev pub of_microsoft : CertInfo → Bool
of_microsoft c = c.is_microsoft_cert

-- What is noted of the databases met so far.
pub record Notes : Type 0 where
  pub pk : List CertInfo
  pub owner : Bool
  pub microsoft : Bool
  pub uefi_ca : Bool
  pub revoked : ℕ

abbrev pub noted : Database → Notes → Notes
noted d n = record {
  pk = if text_eq d.name (codes "PK") then d.certs else n.pk;
  owner = n.owner || text_eq d.name (codes "PK") && any_of of_owner d.certs;
  microsoft = n.microsoft || text_eq d.name (codes "KEK") && any_of of_microsoft d.certs;
  uefi_ca = n.uefi_ca || text_eq d.name (codes "db") && any_of of_uefi_ca d.certs;
  revoked = if text_eq d.name (codes "dbx") then d.digests else n.revoked;
}

abbrev pub all_noted : List Database → Notes → Notes
all_noted [] n = n
all_noted (d ∷ ds) n = all_noted ds (noted d n)

-- The report during the loop: its notes, and what the loop leaves alone.
pub record IsOpen (enabled : Bool) (n : Notes) (r : SecureBootChainReport) : Type 0 where
  pub errors_none : r.errors ≡ []
  pub warnings_none : r.warnings ≡ []
  pub enabled_is : r.secure_boot_enabled ≡ enabled
  pub not_valid : r.chain_valid ≡ false
  pub pk_is : r.pk_certs ≡ n.pk
  pub owner_is : r.pk_is_known_oem ≡ n.owner
  pub microsoft_is : r.kek_has_microsoft ≡ n.microsoft
  pub uefi_ca_is : (r.db_has_microsoft_uefi_ca_2011 || r.db_has_microsoft_uefi_ca_2023) ≡ n.uefi_ca
  pub revoked_is : r.dbx_hash_count ≡ n.revoked

or_assoc : (a b c : Bool) → ((a || b) || c) ≡ (a || (b || c))
or_assoc true b c = refl
or_assoc false b c = refl

-- A name is not two.
other_name :
    (name a b : Text) → text_eq a b ≡ false → text_eq name a ≡ true → text_eq name b ≡ false
other_name name a b differ e = rw ((text_eq_iff name a).0 e, differ) refl

module _ (b : Bool) where
  note_pk_certs-IsOpen :
      (cs : List CertInfo) (n : Notes) (r : SecureBootChainReport)
      → IsOpen b n r
      → IsOpen b (record n { owner = n.owner || any_of of_owner cs }) (note_pk_certs cs r)
  unfolding note_pk_certs
  note_pk_certs-IsOpen [] n r h = ground arith
  note_pk_certs-IsOpen (c ∷ cs) n r h =
      subst (λ (x : Bool). IsOpen b (record n { owner = x }) (note_pk_certs (c ∷ cs) r))
        (or_assoc n.owner (of_owner c) (any_of of_owner cs))
        (note_pk_certs-IsOpen cs (record n { owner = n.owner || of_owner c }) _ (ground arith))

  note_kek_certs-IsOpen :
      (cs : List CertInfo) (n : Notes) (r : SecureBootChainReport)
      → IsOpen b n r
      → IsOpen b
          (record n { microsoft = n.microsoft || any_of of_microsoft cs })
          (note_kek_certs cs r)
  unfolding note_kek_certs
  note_kek_certs-IsOpen [] n r h = ground arith
  note_kek_certs-IsOpen (c ∷ cs) n r h =
      subst (λ (x : Bool). IsOpen b (record n { microsoft = x }) (note_kek_certs (c ∷ cs) r))
        (or_assoc n.microsoft (of_microsoft c) (any_of of_microsoft cs))
        (note_kek_certs-IsOpen cs (record n { microsoft = n.microsoft || of_microsoft c }) _
          (ground arith))

  note_db_certs-IsOpen :
      (cs : List CertInfo) (n : Notes) (r : SecureBootChainReport)
      → IsOpen b n r
      → IsOpen b (record n { uefi_ca = n.uefi_ca || any_of of_uefi_ca cs }) (note_db_certs cs r)
  unfolding note_db_certs
  note_db_certs-IsOpen [] n r h = ground arith
  note_db_certs-IsOpen (c ∷ cs) n r h =
      subst (λ (x : Bool). IsOpen b (record n { uefi_ca = x }) (note_db_certs (c ∷ cs) r))
        (or_assoc n.uefi_ca (of_uefi_ca c) (any_of of_uefi_ca cs))
        (note_db_certs-IsOpen cs (record n { uefi_ca = n.uefi_ca || of_uefi_ca c }) _
          (ground arith))

  pub note_database-IsOpen :
      (d : Database) (n : Notes) (r : SecureBootChainReport)
      → IsOpen b n r
      → IsOpen b (noted d n) (note_database d.name d.certs d.digests r)
  unfolding note_database text_eq
  note_database-IsOpen d n r h = elim (Bool-cases (text_eq d.name (codes "PK"))) [
    | inl e ↦
        let x = other_name d.name (codes "PK") (codes "KEK") refl e in
        let y = other_name d.name (codes "PK") (codes "db") refl e in
        let z = other_name d.name (codes "PK") (codes "dbx") refl e in
        let h' =
          note_pk_certs-IsOpen d.certs (record n { pk = d.certs }) (record r { pk_certs = d.certs })
            (ground arith) in
        rw (e, x, y, z) (ground arith)
    | inr e ↦ elim (Bool-cases (text_eq d.name (codes "KEK"))) [
      | inl f ↦
          let y = other_name d.name (codes "KEK") (codes "db") refl f in
          let z = other_name d.name (codes "KEK") (codes "dbx") refl f in
          let h' =
            note_kek_certs-IsOpen d.certs n (record r { kek_certs = d.certs }) (ground arith) in
          rw (e, f, y, z) (ground arith)
      | inr f ↦ elim (Bool-cases (text_eq d.name (codes "db"))) [
        | inl g ↦
            let z = other_name d.name (codes "db") (codes "dbx") refl g in
            let h' =
              note_db_certs-IsOpen d.certs n (record r { db_certs = d.certs }) (ground arith) in
            rw (e, f, g, z) (ground arith)
        | inr g ↦ rw (e, f, g) (ground arith)
      ]
    ]
  ]

-- The notes, field by field.
pub all_noted-pk :
    (ds : List Database) (n : Notes) → (all_noted ds n).pk ≡ last_certs (codes "PK") n.pk ds
all_noted-pk [] n = refl
all_noted-pk (d ∷ ds) n = all_noted-pk ds (noted d n)

pub all_noted-revoked :
    (ds : List Database) (n : Notes)
    → (all_noted ds n).revoked ≡ last_digests (codes "dbx") n.revoked ds
all_noted-revoked [] n = refl
all_noted-revoked (d ∷ ds) n = all_noted-revoked ds (noted d n)

pub all_noted-owner :
    (ds : List Database) (n : Notes)
    → (all_noted ds n).owner ≡ (n.owner || any_cert (codes "PK") of_owner ds)
all_noted-owner [] n = ground arith
all_noted-owner (d ∷ ds) n = all_noted-owner ds (noted d n) ∙ or_assoc n.owner _ _

pub all_noted-microsoft :
    (ds : List Database) (n : Notes)
    → (all_noted ds n).microsoft ≡ (n.microsoft || any_cert (codes "KEK") of_microsoft ds)
all_noted-microsoft [] n = ground arith
all_noted-microsoft (d ∷ ds) n = all_noted-microsoft ds (noted d n) ∙ or_assoc n.microsoft _ _

pub all_noted-uefi_ca :
    (ds : List Database) (n : Notes)
    → (all_noted ds n).uefi_ca ≡ (n.uefi_ca || any_cert (codes "db") of_uefi_ca ds)
all_noted-uefi_ca [] n = ground arith
all_noted-uefi_ca (d ∷ ds) n = all_noted-uefi_ca ds (noted d n) ∙ or_assoc n.uefi_ca _ _
