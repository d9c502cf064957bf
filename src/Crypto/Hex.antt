-- ===== src/Crypto/Hex.antt =====
-- bytes_to_hex and hex_to_bytes of src/common/crypto.c.
use mo_t.Base.{
  ℕ, ◌+◌, ◌-◌, ◌*◌, ◌/◌, ◌%◌, ◌<◌, ◌≡◌, refl, Option, none, some, List, [], ◌∷◌, All, Text, IsText,
  length, ltb, leb, ◌&&◌, if◌then◌else◌, ◌>>=◌, arith, ap,
}

-- A digit of "%02x".
unfoldable pub hex_digit : ℕ → ℕ
hex_digit n = if ltb n 10 then 48 + n else 87 + n

-- The value of a digit under "%2hhx", which takes both cases.
unfoldable pub digit_value : ℕ → Option ℕ
digit_value c =
    if leb 48 c && leb c 57
    then some (c - 48)
    else if leb 97 c && leb c 102
    then some (c - 87)
    else if leb 65 c && leb c 70
    then some (c - 55)
    else none

unfoldable pub bytes_to_hex : List ℕ → Text
unfolding hex_digit
bytes_to_hex [] = []
bytes_to_hex (b ∷ bs) = hex_digit (b / 16) ∷ hex_digit (b % 16) ∷ bytes_to_hex bs

-- An odd last digit is left out (`len / 2` rounds). `none`: some pair is not two digits.
unfoldable pub hex_to_bytes : Text → Option (List ℕ)
unfolding digit_value
hex_to_bytes [] = some []
hex_to_bytes (a ∷ []) = some []
hex_to_bytes (a ∷ b ∷ s) = do
  high ← digit_value a
  low ← digit_value b
  rest ← hex_to_bytes s
  some ((high * 16 + low) ∷ rest)

digit_value-hex_digit : (n : ℕ) → n < 16 → digit_value (hex_digit n) ≡ some n
unfolding digit_value hex_digit
digit_value-hex_digit n h = ground arith

-- For a list of bytes, reading its hex digits gives the bytes back.
pub hex_to_bytes-bytes_to_hex :
    (bs : List ℕ) → All (λ b. b < 256) bs → hex_to_bytes (bytes_to_hex bs) ≡ some bs
unfolding hex_to_bytes bytes_to_hex
hex_to_bytes-bytes_to_hex [] h = refl
hex_to_bytes-bytes_to_hex (b ∷ bs) h =
    rw
      (
        digit_value-hex_digit (b / 16) (omega arith),
        digit_value-hex_digit (b % 16) (omega arith),
        hex_to_bytes-bytes_to_hex bs h.1,
      )
      (ap some (ap (λ (n : ℕ). n ∷ bs) (omega arith)))

pub length-bytes_to_hex : (bs : List ℕ) → length (bytes_to_hex bs) ≡ 2 * length bs
unfolding bytes_to_hex
length-bytes_to_hex [] = omega arith
length-bytes_to_hex (b ∷ bs) = omega (arith, length-bytes_to_hex bs)

-- The result is a C string.
pub bytes_to_hex-IsText : (bs : List ℕ) → IsText (bytes_to_hex bs)
unfolding bytes_to_hex hex_digit
bytes_to_hex-IsText [] = tt
bytes_to_hex-IsText (b ∷ bs) = (ground arith, (ground arith, bytes_to_hex-IsText bs))
