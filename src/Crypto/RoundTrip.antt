-- ===== src/Crypto/RoundTrip.antt =====
-- Decryption of what `crypto_encrypt` of src/common/crypto.c made.
use mo_t.Base.{
  ℕ, ◌≤◌, ◌≡◌, some, List, ◌++◌, Text, IsText, length, arith, take, drop, take-append, drop-append,
  length-append, IsText-append, c_str-IsText_self, >>=-eq-some,
}
use mo_t.Crypto.Hex.{
  bytes_to_hex, hex_to_bytes, hex_to_bytes-bytes_to_hex, length-bytes_to_hex, bytes_to_hex-IsText,
}
use mo_t.Crypto.{Evp, IsEvp, MasterKey, plain, opened, crypto_encrypt, crypto_decrypt}

-- The parts of a ciphertext that was made.
pub record Sealed (evp : Evp) (key : MasterKey) (n : ℕ) (s hex : Text) : Type 0 where
  pub k : List ℕ
  pub iv : List ℕ
  pub bytes : List ℕ
  pub has_key : key ≡ some k
  pub drawn : evp.rand_bytes n ≡ some iv
  pub enciphered : evp.seal k iv s ≡ some bytes
  pub encoded : bytes_to_hex iv ++ bytes_to_hex bytes ≡ hex

pub crypto_encrypt-Sealed :
    (evp : Evp) (key : MasterKey) (n : ℕ) (s hex : Text)
    → crypto_encrypt evp key n s ≡ some hex
    → Sealed evp key n s hex
unfolding crypto_encrypt
crypto_encrypt-Sealed evp key n s hex h =
    let (k, has_key, h1) = >>=-eq-some key _ h in
    let (iv, drawn, h2) = >>=-eq-some (evp.rand_bytes n) _ h1 in
    let (bytes, enciphered, h3) = >>=-eq-some (evp.seal k iv s) _ h2 in
    record {
      k = k;
      iv = iv;
      bytes = bytes;
      has_key = has_key;
      drawn = drawn;
      enciphered = enciphered;
      encoded = ground arith;
    }

module _ (evp : Evp) (laws : IsEvp evp) where
  -- Under the laws of `IsEvp`: where an encryption gives a text, it is a C string of 32 characters at
  -- least.
  pub crypto_encrypt-long :
      (key : MasterKey) (n : ℕ) (s hex : Text)
      → crypto_encrypt evp key n s ≡ some hex
      → (32 ≤ length hex) × IsText hex
  crypto_encrypt-long key n s hex h =
      let d = crypto_encrypt-Sealed evp key n s hex h in
      rw (← d.encoded) (
        omega (
          arith,
          length-append (bytes_to_hex d.iv) (bytes_to_hex d.bytes),
          length-bytes_to_hex d.iv,
          laws.iv-length n d.iv d.drawn,
        ),
        IsText-append (bytes_to_hex d.iv) (bytes_to_hex d.bytes) (bytes_to_hex-IsText d.iv)
            (bytes_to_hex-IsText d.bytes),
      )

  crypto_decrypt_opened :
      (k : List ℕ) (hex : Text) (iv bytes : List ℕ) (s : Text)
      → 32 ≤ length hex
      → hex_to_bytes (take 32 hex) ≡ some iv
      → hex_to_bytes (drop 32 hex) ≡ some bytes
      → evp.unseal k iv bytes ≡ opened s
      → IsText s
      → crypto_decrypt evp (some k) hex ≡ plain s
  unfolding crypto_decrypt
  crypto_decrypt_opened k hex iv bytes s long e_iv e_bytes e_open t =
      ground (arith, c_str-IsText_self s t)

  -- Under the laws of `IsEvp`: where an encryption of a C string gives a text, the decryption of the
  -- text under the same key gives the C string back.
  pub crypto_decrypt-crypto_encrypt :
      (key : MasterKey) (n : ℕ) (s hex : Text)
      → IsText s
      → crypto_encrypt evp key n s ≡ some hex
      → crypto_decrypt evp key hex ≡ plain s
  crypto_decrypt-crypto_encrypt key n s hex t h =
      let d = crypto_encrypt-Sealed evp key n s hex h in
      let iv_length : length (bytes_to_hex d.iv) ≡ 32 =
        omega (arith, length-bytes_to_hex d.iv, laws.iv-length n d.iv d.drawn) in
      rw (d.has_key, ← d.encoded)
        (crypto_decrypt_opened d.k (bytes_to_hex d.iv ++ bytes_to_hex d.bytes) d.iv d.bytes s
          (rw d.encoded (crypto_encrypt-long key n s hex h).0)
          (rw (take-append (bytes_to_hex d.iv) (bytes_to_hex d.bytes) 32 iv_length)
            (hex_to_bytes-bytes_to_hex d.iv (laws.iv-bytes n d.iv d.drawn)))
          (rw (drop-append (bytes_to_hex d.iv) (bytes_to_hex d.bytes) 32 iv_length)
            (hex_to_bytes-bytes_to_hex d.bytes (laws.seal-bytes d.k d.iv s d.bytes d.enciphered)))
          (laws.unseal-seal d.k d.iv s d.bytes d.enciphered) t)
