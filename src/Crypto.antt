-- ===== src/Crypto.antt =====
-- src/common/crypto.c: AES-256-CBC with a hex-encoded result. OpenSSL's part is the record `Evp`.
pub mod Hex
pub mod RoundTrip
use mo_t.Base.{
  ℕ, ◌<◌, ◌≡◌, Option, none, some, List, [], ◌++◌, Text, All, length, take, drop, codes, c_str, ltb,
  ◌==◌, if◌then◌else◌, ◌>>=◌,
}
use Hex.{bytes_to_hex, hex_to_bytes}

-- EVP_DecryptInit_ex to EVP_DecryptFinal_ex: an early call or malloc fails, the final call rejects
-- the padding, or there is a plaintext.
pub data Opened : Type 0 where
  failed rejected : Opened
  opened : List ℕ → Opened

pub record Evp : Type 0 where
  pub sha256 : Text → List ℕ
  -- The n-th call of RAND_bytes for 16 bytes.
  pub rand_bytes : ℕ → Option (List ℕ)
  -- Key, IV, plaintext. `none`: a call of EVP or of malloc fails.
  pub seal : List ℕ → List ℕ → Text → Option (List ℕ)
  pub unseal : List ℕ → List ℕ → List ℕ → Opened

-- What the code relies on: RAND_bytes fills 16 bytes, a ciphertext is made of bytes, and decryption
-- under the same key and IV, where no call fails, undoes encryption.
pub record IsEvp (evp : Evp) : Type 0 where
  pub iv-length : (n : ℕ) (iv : List ℕ) → evp.rand_bytes n ≡ some iv → length iv ≡ 16
  pub iv-bytes : (n : ℕ) (iv : List ℕ) → evp.rand_bytes n ≡ some iv → All (λ b. b < 256) iv
  pub seal-bytes :
      (key iv : List ℕ) (s : Text) (c : List ℕ) → evp.seal key iv s ≡ some c → All (λ b. b < 256) c
  pub unseal-seal :
      (key iv : List ℕ) (s : Text) (c : List ℕ)
      → evp.seal key iv s ≡ some c
      → evp.unseal key iv c ≡ opened s

-- What `crypto_decrypt` returns. `undefined`: the text is not hex, and `sscanf` leaves bytes unset.
pub data Decrypted : Type 0 where
  null undefined : Decrypted
  plain : Text → Decrypted

abbrev pub unreadable : Text
unreadable = codes "[Unreadable Encrypted Message]"

-- g_master_key, which is set if g_initialized is.
abbrev pub MasterKey : Type 0
MasterKey = Option (List ℕ)

module _ (evp : Evp) where
  open evp use {sha256, rand_bytes, seal, unseal}

  -- An empty passphrase leaves the state as it was.
  pub crypto_init : Text → MasterKey → MasterKey
  crypto_init key_str key = if length key_str == 0 then key else some (sha256 key_str)

  -- `n` counts the calls of RAND_bytes. NULL is `none`.
  unfoldable pub crypto_encrypt : MasterKey → ℕ → Text → Option Text
  crypto_encrypt key n plaintext = do
    k ← key
    iv ← rand_bytes n
    ciphertext ← seal k iv plaintext
    some (bytes_to_hex iv ++ bytes_to_hex ciphertext)

  finish : Opened → Decrypted
  finish failed = null
  finish rejected = plain unreadable
  finish (opened bytes) = plain (c_str bytes)

  decrypt_parts : List ℕ → Option (List ℕ) → Option (List ℕ) → Decrypted
  unfolding finish
  decrypt_parts key (some iv) (some ciphertext) = finish (unseal key iv ciphertext)
  decrypt_parts key _ _ = undefined

  unfoldable pub crypto_decrypt : MasterKey → Text → Decrypted
  unfolding decrypt_parts
  crypto_decrypt none hex = null
  crypto_decrypt (some key) hex =
      if ltb (length hex) 32
      then null
      else decrypt_parts key (hex_to_bytes (take 32 hex)) (hex_to_bytes (drop 32 hex))
