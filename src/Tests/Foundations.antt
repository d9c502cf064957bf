-- ===== src/Tests/Foundations.antt =====
-- The theorems on encoding, encryption and single statements at concrete inputs.
use mo_t.Base.{◌≡◌, ◌≤◌, refl, some, [], ◌∷◌, Text, codes, IsText, length, arith, Holds}
use mo_t.Crypto.{plain, crypto_encrypt, crypto_decrypt}
use mo_t.Crypto.Hex.{bytes_to_hex, hex_to_bytes, hex_to_bytes-bytes_to_hex}
use mo_t.Crypto.RoundTrip.{crypto_encrypt-long, crypto_decrypt-crypto_encrypt}
use mo_t.Protocol.Wire.Header.{be32, be32_value, be32_value-be32}
use mo_t.Storage.Tables.{empty_db}
use mo_t.Storage.Statements.{insert_contacts, exec}
use mo_t.Storage.Statements.Integrity.{Integrity}
use mo_t.Storage.Statements.Integrity.Exec.{exec-Integrity}
use mo_t.Tests.World.{evp, evp-IsEvp}

hex_to_bytes-bytes_to_hex_example :
    hex_to_bytes (bytes_to_hex (0 ∷ 171 ∷ 255 ∷ [])) ≡ some (0 ∷ 171 ∷ 255 ∷ [])
hex_to_bytes-bytes_to_hex_example =
    hex_to_bytes-bytes_to_hex (0 ∷ 171 ∷ 255 ∷ []) (omega arith, (omega arith, (omega arith, tt)))

-- What the cipher of the world makes of a greeting.
abbrev greeting_hex : Text
greeting_hex = codes "000000000000000000000000000000006869"

greeting_encrypts : crypto_encrypt evp (some []) 0 (codes "hi") ≡ some greeting_hex
unfolding crypto_encrypt bytes_to_hex
greeting_encrypts = refl

crypto_encrypt-long_example : (32 ≤ length greeting_hex) × IsText greeting_hex
crypto_encrypt-long_example =
    crypto_encrypt-long evp evp-IsEvp (some []) 0 (codes "hi") greeting_hex greeting_encrypts

greeting-IsText : IsText (codes "hi")
greeting-IsText = (omega arith, (omega arith, tt))

crypto_decrypt-crypto_encrypt_example :
    crypto_decrypt evp (some []) greeting_hex ≡ plain (codes "hi")
crypto_decrypt-crypto_encrypt_example =
    crypto_decrypt-crypto_encrypt evp evp-IsEvp (some []) 0 (codes "hi") greeting_hex
      greeting-IsText greeting_encrypts

be32_value-be32_example : be32_value (be32 305419896) ≡ 305419896
be32_value-be32_example = be32_value-be32 305419896 (omega arith)

pub empty_db-Integrity : Integrity empty_db
empty_db-Integrity = record {
  users = record { given = tt; uids = tt; usernames = tt; emails = tt; codes = tt };
  contacts = record { pairs = tt; friendships = λ a b h. cc };
  requests = tt;
  conversations = record { given = tt; conv_ids = tt };
  seats = tt;
  messages = record { given = tt; ids = tt };
}

exec-Integrity_example : Holds Integrity (exec 0 (insert_contacts 1 2) empty_db)
exec-Integrity_example = exec-Integrity 0 empty_db empty_db-Integrity (insert_contacts 1 2)
