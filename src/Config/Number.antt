-- ===== src/Config/Number.antt =====
-- isspace, atoi and "%d" of the C library, as src/common/config_loader.c uses them.
use mo_t.Base.{
  ℕ, zero, suc, ◌+◌, ◌-◌, ◌*◌, ◌/◌, ◌%◌, ◌^◌, ◌≤◌, ◌<◌, ◌≡◌, refl, ◌∙◌, Bool, true, false, ◌||◌,
  ◌&&◌, Option, none, some, [], ◌∷◌, Text, ltb, leb, ◌==◌, if◌then◌else◌, arith, All, Bool-cases,
  inl, inr, ◌⊎◌, if_cases, ◌≢◌, length, is_some, if_both,
}
use mo_t.Base.Int.{ℤ, pos, negsuc}

abbrev pub is_space : ℕ → Bool
is_space c = leb 9 c && leb c 13 || c == 32

unfoldable pub skip_space : Text → Text
skip_space [] = []
skip_space (c ∷ s) = if is_space c then skip_space s else c ∷ s

abbrev pub is_digit : ℕ → Bool
is_digit c = leb 48 c && leb c 57

-- The digits at the head of a text, behind a value so far.
unfoldable pub digits_value : ℕ → Text → ℕ
digits_value n [] = n
digits_value n (c ∷ s) =
    let more = digits_value (n * 10 + (c - 48)) s in if is_digit c then more else n

-- A value that is no int is undefined.
unfoldable pub as_int : Bool → ℕ → Option ℤ
as_int false n = if ltb n (2 ^ 31) then some (pos n) else none
as_int true zero = some (pos 0)
as_int true (suc n) = if ltb n (2 ^ 31) then some (negsuc n) else none

unfoldable pub signed_value : Text → Option ℤ
signed_value [] = some (pos 0)
signed_value (c ∷ s) =
    if c == b'-'
    then as_int true (digits_value 0 s)
    else if c == b'+'
    then as_int false (digits_value 0 s)
    else as_int false (digits_value 0 (c ∷ s))

unfoldable pub atoi : Text → Option ℤ
atoi s = signed_value (skip_space s)

-- The decimal digits of a number, in front of a text.
unfoldable pub print_digits : ℕ → ℕ → Text → Text
print_digits zero n rest = rest
print_digits (suc fuel) n rest =
    let more = print_digits fuel (n / 10) ((48 + n % 10) ∷ rest) in
    if ltb n 10 then (48 + n) ∷ rest else more

unfoldable pub print_int : ℤ → Text
print_int (pos n) = print_digits (suc n) n []
print_int (negsuc n) = b'-' ∷ print_digits (suc (suc n)) (suc n) []

-- The fuel is enough, and the digits are those of the number.
digits_value-print_digits :
    (fuel n : ℕ) (rest : Text)
    → n < fuel
    → digits_value 0 (print_digits fuel n rest) ≡ digits_value n rest
unfolding print_digits digits_value
digits_value-print_digits zero n rest h = absurd (omega arith)
digits_value-print_digits (suc fuel) n rest h = elim (Bool-cases (ltb n 10)) [
  | inl small ↦ ground arith
  | inr big ↦
      rw big (
        digits_value-print_digits fuel (n / 10) ((48 + n % 10) ∷ rest) (ground arith)
        ∙ ground arith)
]

-- A byte that "%d" prints.
abbrev pub IsNumeral : ℕ → Type 0
IsNumeral c = (c ≡ b'-') ⊎ (is_digit c ≡ true)

pub print_digits-IsNumeral :
    (fuel n : ℕ) (rest : Text) → All IsNumeral rest → All IsNumeral (print_digits fuel n rest)
unfolding print_digits
print_digits-IsNumeral zero n rest h = h
print_digits-IsNumeral (suc fuel) n rest h =
    if_cases (All IsNumeral) (ltb n 10) _ _ (λ small. (inr (ground arith), h))
      λ big. print_digits-IsNumeral fuel (n / 10) ((48 + n % 10) ∷ rest) (inr (ground arith), h)

pub print_int-IsNumeral : (i : ℤ) → All IsNumeral (print_int i)
unfolding print_int
print_int-IsNumeral (pos n) = print_digits-IsNumeral (suc n) n [] tt
print_int-IsNumeral (negsuc n) = (inl refl, print_digits-IsNumeral (suc (suc n)) (suc n) [] tt)

-- The first digit.
print_digits_head :
    (fuel n : ℕ) (rest : Text)
    → n < fuel
    → (c : ℕ) × (s : Text) × (print_digits fuel n rest ≡ c ∷ s) × (is_digit c ≡ true)
unfolding print_digits
print_digits_head zero n rest h = absurd (omega arith)
print_digits_head (suc fuel) n rest h = elim (Bool-cases (ltb n 10)) [
  | inl small ↦ rw small (48 + n, rest, refl, ground arith)
  | inr big ↦ rw big (print_digits_head fuel (n / 10) ((48 + n % 10) ∷ rest) (ground arith))
]

-- An int of 32 bits.
abbrev pub IsInt : ℤ → Type 0
IsInt (pos n) = n < 2 ^ 31
IsInt (negsuc n) = n < 2 ^ 31

signed_value-digits :
    (fuel n : ℕ) → n < fuel → signed_value (print_digits fuel n []) ≡ as_int false n
unfolding signed_value digits_value
signed_value-digits fuel n h =
    let (c, s, e, d) = print_digits_head fuel n [] h in
    let value : digits_value 0 (c ∷ s) ≡ n = rw e at (digits_value-print_digits fuel n [] h) in
    rw e (ground (arith, value))

pub atoi-print_int : (i : ℤ) → IsInt i → atoi (print_int i) ≡ some i
unfolding print_int atoi skip_space signed_value as_int digits_value
atoi-print_int (pos n) h =
    let (c, s, e, d) = print_digits_head (suc n) n [] (omega arith) in
    let value = signed_value-digits (suc n) n (omega arith) in rw e (ground (arith, e, value))
atoi-print_int (negsuc n) h =
    rw (digits_value-print_digits (suc (suc n)) (suc n) [] (omega arith)) (ground arith)

pub print_int-ne-nil : (i : ℤ) → print_int i ≢ []
unfolding print_int
print_int-ne-nil (pos n) h = let (c, s, e, d) = print_digits_head (suc n) n [] (omega arith) in cc
print_int-ne-nil (negsuc n) h = cc

abbrev power_of_ten : ℕ → ℕ
power_of_ten zero = 1
power_of_ten (suc k) = 10 * power_of_ten k

length-print_digits :
    (fuel n k : ℕ) (rest : Text)
    → n < power_of_ten (suc k)
    → length (print_digits fuel n rest) ≤ suc k + length rest
unfolding print_digits
length-print_digits zero n k rest h = omega arith
length-print_digits (suc fuel) n zero rest h = ground arith
length-print_digits (suc fuel) n (suc k) rest h =
    if_cases (λ (s : Text). length s ≤ suc (suc k) + length rest) (ltb n 10) _ _
      (λ small. omega arith)
      λ big. omega (arith, length-print_digits fuel (n / 10) k ((48 + n % 10) ∷ rest) (omega arith))

-- An int is printed in 11 bytes at most.
pub length-print_int : (i : ℤ) → IsInt i → length (print_int i) ≤ 11
unfolding print_int
length-print_int (pos n) h = omega (arith, length-print_digits (suc n) n 9 [] (omega arith))
length-print_int (negsuc n) h =
    omega (arith, length-print_digits (suc (suc n)) (suc n) 9 [] (omega arith))

power_of_ten_mono : (k j : ℕ) → power_of_ten k ≤ power_of_ten (k + j)
power_of_ten_mono k zero = let e : k + 0 ≡ k = omega arith in rw e (omega arith)
power_of_ten_mono k (suc j) =
    let e : k + suc j ≡ suc (k + j) = omega arith in rw e (omega (arith, power_of_ten_mono k j))

-- A number of few digits is small.
pub digits_value-lt :
    (k n : ℕ) (s : Text) → n < power_of_ten k → digits_value n s < power_of_ten (k + length s)
unfolding digits_value
digits_value-lt k n [] h = let e : k + 0 ≡ k = omega arith in rw e h
digits_value-lt k n (c ∷ s) h = elim (Bool-cases (is_digit c)) [
  | inl digit ↦
      let e : k + suc (length s) ≡ suc k + length s = omega arith in
      rw (digit, e) (digits_value-lt (suc k) (n * 10 + (c - 48)) s (ground arith))
  | inr other ↦ rw other (omega (arith, power_of_ten_mono k (suc (length s))))
]

skip_space-le : (s : Text) → length (skip_space s) ≤ length s
unfolding skip_space
skip_space-le [] = omega arith
skip_space-le (c ∷ s) = ground (arith, skip_space-le s)

digits_value_small : (s : Text) → length s ≤ 9 → digits_value 0 s < 2 ^ 31
digits_value_small s h =
    let e : length s + (9 - length s) ≡ 9 = omega arith in
    let e' : 0 + length s ≡ length s = omega arith in
    let bound : power_of_ten (length s) ≤ power_of_ten 9 =
      rw e at (power_of_ten_mono (length s) (9 - length s)) in
    let value : digits_value 0 s < power_of_ten (length s) =
      rw e' at (digits_value-lt 0 0 s (omega arith)) in
    omega (arith, bound, value)

as_int-is_some : (negative : Bool) (n : ℕ) → n < 2 ^ 31 → is_some (as_int negative n) ≡ true
unfolding as_int
as_int-is_some false n h = ground arith
as_int-is_some true zero h = refl
as_int-is_some true (suc n) h = ground arith

signed_value-is_some : (s : Text) → length s ≤ 9 → is_some (signed_value s) ≡ true
unfolding signed_value
signed_value-is_some [] h = refl
signed_value-is_some (c ∷ s) h =
    if_both (λ (o : Option ℤ). is_some o ≡ true) (c == b'-') _ _
      (as_int-is_some true _ (digits_value_small s (omega arith)))
      (if_both (λ (o : Option ℤ). is_some o ≡ true) (c == b'+') _ _
        (as_int-is_some false _ (digits_value_small s (omega arith)))
        (as_int-is_some false _ (digits_value_small (c ∷ s) h)))

-- A text of at most nine characters is an int.
pub atoi-is_some : (s : Text) → length s ≤ 9 → is_some (atoi s) ≡ true
unfolding atoi
atoi-is_some s h = signed_value-is_some (skip_space s) (omega (arith, skip_space-le s))
