-- ===== src/Certs/Amd/Modulus.antt =====
-- `ExtractRsaModulusFromEkPub` of src/certs/amd_aia_fetch.cpp on every blob, and on a well-formed one.
use sdk_windows.Prelude.{
  ℕ, ◌+◌, ◌≤◌, ◌<◌, ◌≡◌, inl, inr, refl, sym, ◌∙◌, arith, true, false, not, ◌||◌, ◌++◌, Bytes,
  length, length-append, drop, drop-append, drop-drop, Option, none, some, ok, Returns, returns,
  Returns->>=, Returns-weaken, Bool-cases, ltb, ◌==◌,
}
use sdk_windows.Tpm.Safety.{if-Returns}
use sdk_windows.Wire.{size_mod, u32_mod}
use sdk_windows.Wire.Reads.{
  read_u32_le-Returns, slice-Returns, slice-ahead, read_u32_le-bytes, bytes_u32_le,
}
use sdk_windows.Certs.Amd.{
  bcrypt_rsa_public_magic, max_modulus_bytes, size_t_add, modulus_between,
  extract_rsa_modulus_from_ek_pub,
}

abbrev IsSmall : Bytes → Type 0
IsSmall modulus = length modulus ≤ max_modulus_bytes

modulus_between-Returns :
    (blob : Bytes) (offset : Option ℕ) (size : ℕ)
    → size ≤ max_modulus_bytes
    → Returns IsSmall (modulus_between blob offset size)
unfolding modulus_between
modulus_between-Returns blob none size small = returns (omega arith)
modulus_between-Returns blob (some offset) size small =
    elim (Bool-cases (ltb (offset + size) size_mod)) [
      | inl e ↦
          rw (e, modulus_between)
            (if-Returns (ltb (length blob) (offset + size)) (λ _. returns (omega arith))
              λ f.
                Returns-weaken (λ s h. omega arith) (slice-Returns blob offset size (ground arith)))
      | inr e ↦ rw (e, modulus_between) (returns (omega arith))
    ]

-- On every blob, ExtractRsaModulusFromEkPub ends with no read outside of it, whatever lengths it states,
-- and returns at most 1024 bytes.
pub extract_rsa_modulus_from_ek_pub-IsSmall :
    (blob : Bytes)
    → Returns
        (λ (modulus : Bytes). length modulus ≤ max_modulus_bytes)
        (extract_rsa_modulus_from_ek_pub blob)
unfolding extract_rsa_modulus_from_ek_pub
extract_rsa_modulus_from_ek_pub-IsSmall blob =
    if-Returns (ltb (length blob) 24) (λ _. returns (omega arith))
      λ a. Returns->>= (read_u32_le-Returns blob 0 (ground arith)) λ magic _.
        Returns->>= (read_u32_le-Returns blob 8 (ground arith)) λ exponent_size _.
          Returns->>= (read_u32_le-Returns blob 12 (ground arith)) λ modulus_size _.
            if-Returns (not (magic == bcrypt_rsa_public_magic)) (λ _. returns (omega arith))
              λ _.
                if-Returns (modulus_size == 0 || ltb max_modulus_bytes modulus_size)
                  (λ _. returns (omega arith))
                  λ b.
                    modulus_between-Returns blob (size_t_add 24 exponent_size) modulus_size
                      (ground arith)

-- BCRYPT_RSAPUBLIC_BLOB: the header with the sizes of exponent, modulus and (none here) primes, the
-- exponent, the modulus, and anything behind.
abbrev pub rsa_blob : ℕ → Bytes → Bytes → Bytes → Bytes
rsa_blob bits exponent modulus after =
    bytes_u32_le bcrypt_rsa_public_magic
    ++ (bytes_u32_le bits
        ++ (bytes_u32_le (length exponent)
            ++ (bytes_u32_le (length modulus)
                ++ (bytes_u32_le 0 ++ (bytes_u32_le 0 ++ (exponent ++ (modulus ++ after)))))))

-- A public key blob is read back: from one with a modulus of 1 to 1024 bytes and an exponent of any size
-- that fits the field, ExtractRsaModulusFromEkPub returns the modulus, all of it and nothing else.
pub extract_rsa_modulus_from_ek_pub-rsa_blob :
    (bits : ℕ) (exponent modulus after : Bytes)
    → 0 < length modulus
    → length modulus ≤ max_modulus_bytes
    → length exponent < u32_mod
    → extract_rsa_modulus_from_ek_pub (rsa_blob bits exponent modulus after) ≡ ok modulus
unfolding extract_rsa_modulus_from_ek_pub modulus_between
extract_rsa_modulus_from_ek_pub-rsa_blob bits exponent modulus after some_bytes few fits =
    let blob = rsa_blob bits exponent modulus after in
    let n = length exponent in
    let m = length modulus in
    let wide = length-append exponent (modulus ++ after) in
    let wide' = length-append modulus after in
    let a : ltb (length blob) 24 ≡ false = ground arith in
    let b : (m == 0 || ltb max_modulus_bytes m) ≡ false = ground arith in
    let c : ltb (24 + n) size_mod ≡ true = ground arith in
    let d : ltb (24 + n + m) size_mod ≡ true = ground arith in
    let e : ltb (length blob) (24 + n + m) ≡ false = ground (arith, wide, wide') in
    let behind : drop (24 + n) blob ≡ modulus ++ after =
      sym (drop-drop 24 n (24 + n) blob refl) ∙ drop-append exponent (modulus ++ after) n refl in
    rw
      (
        a,
        read_u32_le-bytes blob 0 bcrypt_rsa_public_magic _ refl (omega arith),
        read_u32_le-bytes blob 8 n _ refl fits,
        read_u32_le-bytes blob 12 m _ refl (omega arith),
        b,
        c,
        modulus_between,
        d,
        e,
        slice-ahead blob (24 + n) modulus after behind some_bytes,
      )
      refl
