-- ===== src/Boot/SecureBoot/Certificates/Names.antt =====
-- Lemmas on the substring tests on names, and on the platform owners
-- (src/boot/secureboot_validator.cpp).
use mathlib.Core.List.{map}
use mathlib.Core.Path.{subst}
use sdk_windows.Prelude.{
  suc, le→ltb, ◌≤◌, ◌+◌, ◌≡◌, ◌≢◌, ◌↔◌, ◌⊎◌, refl, ap, arith, Bool, true, false, not, ◌&&◌, ◌||◌,
  List, [], ◌∷◌, ◌++◌, Bytes, Text, is_empty, length, length-append, none, some, inl, inr,
  Bool-cases, ltb, if◌then◌else◌,
}
use sdk_windows.Boot.SecureBoot.{
  CertApi, CertInfo, Attribute, common_name, organization_name, platform_owner_names,
  firmware_vendor_names, untrusted_pk_markers,
}
use sdk_windows.Boot.SecureBoot.Certificates.{
  lower, begins_no_case, search_no_case, contains_no_case, any_contained, is_untrusted, find_owner,
  classify_names, parse_der_certificate, rdn_value,
}

-- `part` stands in `text`, up to the case of letters.
pub record Occurs (part text : Text) : Type 0 where
  pub before : Text
  pub middle : Text
  pub after : Text
  pub split : text ≡ before ++ (middle ++ after)
  pub same : map lower middle ≡ map lower part

abbrev Begins : Text → Text → Type 0
Begins part text = (m : Text) × (rest : Text) × (text ≡ m ++ rest) × (map lower m ≡ map lower part)

begins_no_case-Begins : (text part : Text) → begins_no_case text part ≡ true → Begins part text
unfolding begins_no_case
begins_no_case-Begins text [] e = ([], text, refl, refl)
begins_no_case-Begins [] (p ∷ part) e = cc
begins_no_case-Begins (t ∷ text) (p ∷ part) e =
    let same : lower t ≡ lower p = ground arith in
    let later : begins_no_case text part ≡ true = ground arith in
    let (m, rest, split, k) = begins_no_case-Begins text part later in
    (t ∷ m, rest, ap (◌∷◌ t) split, cc)

Begins-begins_no_case :
    (m part rest : Text) → map lower m ≡ map lower part → begins_no_case (m ++ rest) part ≡ true
unfolding begins_no_case
Begins-begins_no_case m [] rest e = refl
Begins-begins_no_case [] (p ∷ part) rest e = cc
Begins-begins_no_case (t ∷ m) (p ∷ part) rest e =
    let same : lower t ≡ lower p = cc in
    let later : map lower m ≡ map lower part = cc in
    rw same (ground (arith, Begins-begins_no_case m part rest later))

search_no_case-Occurs : (text part : Text) → search_no_case text part ≡ true → Occurs part text
unfolding search_no_case
search_no_case-Occurs [] part e =
    let (m, rest, split, same) = begins_no_case-Begins [] part e in
    record { before = []; middle = m; after = rest; split = split; same = same }
search_no_case-Occurs (t ∷ text) part e = elim (Bool-cases (begins_no_case (t ∷ text) part)) [
  | inl here ↦
      let (m, rest, split, same) = begins_no_case-Begins (t ∷ text) part here in
      record { before = []; middle = m; after = rest; split = split; same = same }
  | inr not_here ↦
      let o = search_no_case-Occurs text part (rw not_here at e) in
      record {
        before = t ∷ o.before;
        middle = o.middle;
        after = o.after;
        split = ap (◌∷◌ t) o.split;
        same = o.same;
      }
]

or_true : (b : Bool) → (b || true) ≡ true
or_true true = refl
or_true false = refl

search_no_case-at :
    (before m rest part : Text)
    → map lower m ≡ map lower part
    → search_no_case (before ++ (m ++ rest)) part ≡ true
unfolding search_no_case
search_no_case-at [] m rest part e = first (m ++ rest) (Begins-begins_no_case m part rest e)
  where
    first : (text : Text) → begins_no_case text part ≡ true → search_no_case text part ≡ true
    first [] b = b
    first (t ∷ text) b = rw b
search_no_case-at (t ∷ before) m rest part e =
    rw (search_no_case-at before m rest part e) (or_true (begins_no_case _ part))

length-same : (m part : Text) → map lower m ≡ map lower part → length m ≡ length part
length-same [] [] e = refl
length-same [] (p ∷ part) e = cc
length-same (t ∷ m) [] e = cc
length-same (t ∷ m) (p ∷ part) e =
    let later : map lower m ≡ map lower part = cc in ap suc (length-same m part later)

length-Occurs : {part text : Text} → Occurs part text → length part ≤ length text
length-Occurs {part} {text} o = omega (
  arith,
  ap length o.split,
  length-append o.before (o.middle ++ o.after),
  length-append o.middle o.after,
  length-same o.middle part o.same,
)

-- `ContainsNoCase` decides that the needle is not empty and stands somewhere in the haystack, up to
-- the case of ASCII letters: the test on the two lengths never hides an occurrence.
pub contains_no_case_iff :
    (haystack needle : Text)
    → (contains_no_case haystack needle ≡ true) ↔ ((needle ≢ []) × Occurs needle haystack)
unfolding contains_no_case
contains_no_case_iff haystack [] = (λ e. cc, λ h. absurd (h.0 refl))
contains_no_case_iff haystack (n ∷ ns) =
    (λ e. (λ p. cc, search_no_case-Occurs haystack (n ∷ ns) (ground arith)), λ h. back h.1)
  where
    back :
        Occurs (n ∷ ns) haystack
        → (if false || ltb (length haystack) (length (n ∷ ns))
            then false
            else search_no_case haystack (n ∷ ns))
          ≡ true
    back o =
        rw (le→ltb (length haystack) (length (n ∷ ns)) (length-Occurs o), o.split)
          (search_no_case-at o.before o.middle o.after (n ∷ ns) o.same)

abbrev pub Listed : Text → List Text → Type 0
Listed name [] = ⊥
Listed name (x ∷ xs) = (name ≡ x) ⊎ Listed name xs

abbrev NoneEmpty : List Text → Type 0
NoneEmpty [] = Unit
NoneEmpty (x ∷ xs) = (x ≢ []) × NoneEmpty xs

-- Some listed name stands in the text.
abbrev pub AnyOccurs : List Text → Text → Type 0
AnyOccurs names text = (name : Text) × Listed name names × Occurs name text

any_contained-AnyOccurs :
    (names : List Text) (text : Text) → any_contained names text ≡ true → AnyOccurs names text
unfolding any_contained
any_contained-AnyOccurs [] text e = cc
any_contained-AnyOccurs (x ∷ xs) text e = elim (Bool-cases (contains_no_case text x)) [
  | inl here ↦ (x, inl refl, ((contains_no_case_iff text x).0 here).1)
  | inr not_here ↦
      let (name, listed, o) = any_contained-AnyOccurs xs text (rw not_here at e) in
      (name, inr listed, o)
]

Listed-any_contained :
    (names : List Text) (text name : Text)
    → NoneEmpty names
    → Listed name names
    → Occurs name text
    → any_contained names text ≡ true
unfolding any_contained
Listed-any_contained [] text name ne l o = absurd l
Listed-any_contained (x ∷ xs) text name (ne, nes) (inl e) o =
    rw ((contains_no_case_iff text x).1 (ne, subst (λ (y : Text). Occurs y text) e o))
Listed-any_contained (x ∷ xs) text name (ne, nes) (inr l) o =
    rw (Listed-any_contained xs text name nes l o) (or_true (contains_no_case text x))

is_untrusted_lem :
    (names : List Text) (cn org : Text)
    → is_untrusted names cn org ≡ (any_contained names cn || any_contained names org)
unfolding is_untrusted any_contained
is_untrusted_lem [] cn org = refl
is_untrusted_lem (x ∷ xs) cn org = ground (arith, is_untrusted_lem xs cn org)

find_owner_lem :
    (names : List Text) (org : Text)
    → ((find_owner names org ≡ none) × (any_contained names org ≡ false))
      ⊎ ((name : Text) × (find_owner names org ≡ some name)
          × (any_contained names org ≡ true)
          × Listed name names)
unfolding find_owner any_contained
find_owner_lem [] org = inl (refl, refl)
find_owner_lem (x ∷ xs) org = elim (Bool-cases (contains_no_case org x)) [
  | inl here ↦ rw here (inr (x, refl, refl, inl refl))
  | inr not_here ↦ rw not_here (elim (find_owner_lem xs org) [
    | inl (a, b) ↦ inl (a, b)
    | inr (name, a, b, c) ↦ inr (name, a, b, inr c)
  ])
]

known_owner_iff :
    (cn org : Text) (info : CertInfo)
    → info.is_known_oem ≡ false
    → ((classify_names cn org info).is_known_oem ≡ true) ↔ (
        (any_contained untrusted_pk_markers cn ≡ false)
        × (any_contained untrusted_pk_markers org ≡ false)
        × (any_contained firmware_vendor_names org ≡ false)
        × (any_contained platform_owner_names org ≡ true))
unfolding classify_names
known_owner_iff cn org info h = elim (find_owner_lem platform_owner_names org) [
  | inl (a, b) ↦ ground (arith, is_untrusted_lem untrusted_pk_markers cn org)
  | inr (name, a, b, c) ↦ ground (arith, is_untrusted_lem untrusted_pk_markers cn org)
]

rdn_value_lem :
    (api : CertApi) (ctx : api.Context) (oid : Attribute)
    → rdn_value api ctx oid ≡ api.name_attribute ctx oid
unfolding rdn_value
rdn_value_lem api ctx oid = counted (api.name_attribute ctx oid)
  where
    counted : (value : Text) → (if ltb 1 (length value + 1) then value else []) ≡ value
    counted [] = refl
    counted (c ∷ cs) = ground arith

none_empty : List Text → Bool
none_empty [] = true
none_empty (x ∷ xs) = not (is_empty x) && none_empty xs

none_empty-NoneEmpty : (names : List Text) → none_empty names ≡ true → NoneEmpty names
unfolding none_empty
none_empty-NoneEmpty [] e = tt
none_empty-NoneEmpty ([] ∷ xs) e = cc
none_empty-NoneEmpty ((c ∷ cs) ∷ xs) e = (λ p. cc, none_empty-NoneEmpty xs e)

module _ (names : List Text) (full : none_empty names ≡ true) (text : Text) where
  any_contained_iff : (any_contained names text ≡ true) ↔ AnyOccurs names text
  any_contained_iff = (
    any_contained-AnyOccurs names text,
    λ (name, l, o). Listed-any_contained names text name (none_empty-NoneEmpty names full) l o,
  )

  not-any_contained_iff : (any_contained names text ≡ false) ↔ (¬ AnyOccurs names text)
  not-any_contained_iff = (
    λ e o. cc (e, any_contained_iff.1 o),
    λ not_there. elim (Bool-cases (any_contained names text)) [
      | inl e ↦ absurd (not_there (any_contained_iff.0 e))
      | inr e ↦ e
    ],
  )

-- A certificate that CryptoAPI parses counts as a known platform owner's exactly when no marker of
-- a default or test key stands in its common name or its organization, no firmware vendor's name
-- stands in its organization, and the name of a platform owner does, all up to the case of letters.
pub parse_der_certificate-is_known_oem :
    (api : CertApi) (der : Bytes) (ctx : api.Context)
    → api.create_context der ≡ some ctx
    → ((parse_der_certificate api der).is_known_oem ≡ true) ↔ (
        (¬ AnyOccurs untrusted_pk_markers (api.name_attribute ctx common_name))
        × (¬ AnyOccurs untrusted_pk_markers (api.name_attribute ctx organization_name))
        × (¬ AnyOccurs firmware_vendor_names (api.name_attribute ctx organization_name))
        × AnyOccurs platform_owner_names (api.name_attribute ctx organization_name))
unfolding parse_der_certificate none_empty
parse_der_certificate-is_known_oem api der ctx e =
    let cn = api.name_attribute ctx common_name in
    let org = api.name_attribute ctx organization_name in
    let a = not-any_contained_iff untrusted_pk_markers refl cn in
    let b = not-any_contained_iff untrusted_pk_markers refl org in
    let c = not-any_contained_iff firmware_vendor_names refl org in
    let d = any_contained_iff platform_owner_names refl org in
    let k = known_owner_iff cn org _ refl in
    rw
      (
        e,
        parse_der_certificate,
        rdn_value_lem api ctx common_name,
        rdn_value_lem api ctx organization_name,
      )
      (
        λ p. let (x, y, z, w) = k.0 p in (a.0 x, b.0 y, c.0 z, d.0 w),
        λ (x, y, z, w). k.1 (a.1 x, b.1 y, c.1 z, d.1 w),
      )
