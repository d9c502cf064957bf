-- ===== src/Protocol/Request.antt =====
-- How the server reads the packed structs of include/system/protocol.h off a received payload. The
-- buffer of `recv_packet` is the payload with a NUL behind it; an empty payload is the NULL pointer.
-- A read outside of the buffer, or through NULL, is `none`. The host is little-endian.
pub mod Sizes
use mo_t.Base.{
  ℕ, zero, suc, ◌+◌, ◌*◌, Option, none, some, List, [], ◌∷◌, ◌++◌, Text, c_str, c_str-IsText,
  IsText, drop, get_elem?, length, ltb, if◌then◌else◌, ◌>>=◌, Holds, if_both,
}

abbrev pub buffer : List ℕ → List ℕ
buffer [] = []
buffer (b ∷ bs) = b ∷ bs ++ 0 ∷ []

-- A uint8_t field.
unfoldable pub u8_at : List ℕ → ℕ → Option ℕ
u8_at buf off = get_elem? buf off

-- A uint32_t field.
unfoldable pub u32_at : List ℕ → ℕ → Option ℕ
u32_at buf off = do
  b0 ← get_elem? buf off
  b1 ← get_elem? buf (off + 1)
  b2 ← get_elem? buf (off + 2)
  b3 ← get_elem? buf (off + 3)
  some (b0 + 256 * b1 + 65536 * b2 + 16777216 * b3)

-- A char array field, used as a C string: it is read up to a NUL, which may lie behind the field.
unfoldable pub text_at : List ℕ → ℕ → Option Text
text_at buf off = if ltb off (length buf) then some (c_str (drop off buf)) else none

-- `count` uint32_t fields in a row.
unfoldable pub u32s_at : ℕ → List ℕ → ℕ → Option (List ℕ)
unfolding u32_at
u32s_at zero buf off = some []
u32s_at (suc count) buf off = do
  first ← u32_at buf off
  rest ← u32s_at count buf (off + 4)
  some (first ∷ rest)

-- A field read as text is a C string.
pub text_at-IsText : (buf : List ℕ) (off : ℕ) → Holds IsText (text_at buf off)
unfolding text_at
text_at-IsText buf off =
    if_both (Holds IsText) (ltb off (length buf)) _ _ (c_str-IsText (drop off buf)) tt
