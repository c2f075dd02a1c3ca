-- ===== src/Windows/Digests/Lengths.antt =====
-- The length of a digest, and of its hex text (src/client/rootherald_win.cpp).
use sdk_windows.Prelude.{
  ℕ, ◌-◌, ◌*◌, ◌≡◌, ◌⊎◌, refl, arith, [], ◌∷◌, Bytes, length, length-append, length-take,
  length-replicate, take, replicate,
}
use sdk_windows.Windows.{Digest}
use sdk_windows.Windows.Digests.{resize, bcrypt_digest, bytes_to_hex, hex_byte}

pub length-resize : (n : ℕ) (v : Bytes) → length (resize n v) ≡ n
unfolding resize
length-resize n v = omega (
  arith,
  length-append (take n v) (replicate (n - length v) 0),
  length-take n v,
  length-replicate {A = ℕ} (n - length v) 0,
)

-- A digest has the length that the algorithm states, and is empty where any call failed; so that a
-- digest that is not empty is whole.
pub length-bcrypt_digest :
    (api : Digest) (contents : Bytes)
    → (bcrypt_digest api contents ≡ []) ⊎ (length (bcrypt_digest api contents) ≡ api.hash_length)
unfolding bcrypt_digest
length-bcrypt_digest api contents =
    let sized = length-resize api.hash_length (api.finished contents) in ground arith

pub length-bytes_to_hex : (bs : Bytes) → length (bytes_to_hex bs) ≡ 2 * length bs
unfolding bytes_to_hex hex_byte
length-bytes_to_hex [] = refl
length-bytes_to_hex (b ∷ bs) = omega (arith, length-bytes_to_hex bs)
