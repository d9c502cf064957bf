-- ===== src/Protocol/Wire/Header.antt =====
-- htonl and ntohl, on the bytes of a uint32_t in memory.
use mo_t.Base.{ℕ, ◌+◌, ◌*◌, ◌/◌, ◌%◌, ◌^◌, ◌<◌, ◌≡◌, refl, List, [], ◌∷◌, arith, length}

unfoldable pub be32 : ℕ → List ℕ
be32 n = n / 2 ^ 24 % 256 ∷ n / 2 ^ 16 % 256 ∷ n / 2 ^ 8 % 256 ∷ n % 256 ∷ []

-- A list of four bytes.
unfoldable pub be32_value : List ℕ → ℕ
be32_value (a ∷ b ∷ c ∷ d ∷ []) = ((a * 256 + b) * 256 + c) * 256 + d
be32_value _ = 0

-- The bytes of a 32-bit number give it back.
pub be32_value-be32 : (n : ℕ) → n < 2 ^ 32 → be32_value (be32 n) ≡ n
unfolding be32 be32_value
be32_value-be32 n h = omega arith

pub length-be32 : (n : ℕ) → length (be32 n) ≡ 4
unfolding be32
length-be32 n = refl
