-- ===== src/Protocol/Layout.antt =====
-- Fields of the packed structs of include/system/protocol.h as bytes, and reading them back. The
-- host is little-endian; an array that `strncpy` or an initialiser filled ends in NULs.
use mo_t.Base.{
  ℕ, zero, suc, ◌+◌, ◌-◌, ◌*◌, ◌/◌, ◌%◌, ◌^◌, ◌<◌, ◌≡◌, refl, ◌∙◌, ap, some, List, [], ◌∷◌, ◌++◌,
  Text, c_str, c_str-append, IsText, length, length-append, length-take, take, drop, take-all,
  get_elem?, All, arith, append_assoc,
}
use mo_t.Protocol.Request.{buffer, u8_at, u32_at, text_at, u32s_at}

-- A uint32_t in memory.
abbrev pub le32 : ℕ → List ℕ
le32 n = n % 256 ∷ n / 256 % 256 ∷ n / 65536 % 256 ∷ n / 16777216 % 256 ∷ []

abbrev pub zeros : ℕ → List ℕ
zeros zero = []
zeros (suc n) = 0 ∷ zeros n

-- A char array of n bytes after strncpy(a, s, n).
unfoldable pub char_array : ℕ → Text → List ℕ
char_array n s = take n s ++ zeros (n - length s)

-- A uint32_t array.
unfoldable pub u32_array : List ℕ → List ℕ
u32_array [] = []
u32_array (n ∷ ns) = le32 n ++ u32_array ns

pub length-zeros : (n : ℕ) → length (zeros n) ≡ n
length-zeros zero = refl
length-zeros (suc n) = ap suc (length-zeros n)

pub char_array_nil : char_array 64 [] ≡ 0 ∷ zeros 63
unfolding char_array
char_array_nil = refl

pub length-char_array : (n : ℕ) (s : Text) → length (char_array n s) ≡ n
unfolding char_array
length-char_array n s = omega (
  arith,
  length-append (take n s) (zeros (n - length s)),
  length-take n s,
  length-zeros (n - length s),
)

pub length-u32_array : (ns : List ℕ) → length (u32_array ns) ≡ 4 * length ns
unfolding u32_array
length-u32_array [] = omega arith
length-u32_array (n ∷ ns) = omega (arith, length-u32_array ns)

pub buffer-append : (p : List ℕ) → 0 < length p → buffer p ≡ p ++ 0 ∷ []
buffer-append [] h = absurd (omega arith)
buffer-append (b ∷ p) h = refl

get_elem?-append :
    (front rest : List ℕ) (i j : ℕ)
    → i ≡ length front + j
    → get_elem? (front ++ rest) i ≡ get_elem? rest j
get_elem?-append [] rest i j e = ap (λ (k : ℕ). get_elem? rest k) (omega arith)
get_elem?-append (b ∷ front) rest zero j e = absurd (omega arith)
get_elem?-append (b ∷ front) rest (suc i) j e = get_elem?-append front rest i j (omega arith)

pub drop_behind :
    (front rest : List ℕ) (i j : ℕ) → i ≡ length front + j → drop i (front ++ rest) ≡ drop j rest
drop_behind [] rest i j e = ap (λ (k : ℕ). drop k rest) (omega arith)
drop_behind (b ∷ front) rest zero j e = absurd (omega arith)
drop_behind (b ∷ front) rest (suc i) j e = drop_behind front rest i j (omega arith)

-- A field behind other fields.
module _ (front rest : List ℕ) (n off : ℕ) (size : length front ≡ n) where
  pub u8_at-append : (i : ℕ) → i ≡ n + off → u8_at (front ++ rest) i ≡ u8_at rest off
  unfolding u8_at
  u8_at-append i e = get_elem?-append front rest i off (omega arith)

  pub u32_at-append : (i : ℕ) → i ≡ n + off → u32_at (front ++ rest) i ≡ u32_at rest off
  unfolding u32_at
  u32_at-append i e =
      rw
        (
          get_elem?-append front rest i off (omega arith),
          get_elem?-append front rest (i + 1) (off + 1) (omega arith),
          get_elem?-append front rest (i + 2) (off + 2) (omega arith),
          get_elem?-append front rest (i + 3) (off + 3) (omega arith),
        )
        refl

  pub text_at-append : (i : ℕ) → i ≡ n + off → text_at (front ++ rest) i ≡ text_at rest off
  unfolding text_at
  text_at-append i e =
      rw (drop_behind front rest i off (omega arith)) (ground (arith, length-append front rest))

-- A field at the front.
pub u32_at-le32 : (n : ℕ) (rest : List ℕ) → n < 2 ^ 32 → u32_at (le32 n ++ rest) 0 ≡ some n
unfolding u32_at
u32_at-le32 n rest h = ap some (omega arith)

pub c_str-char_array :
    (n : ℕ) (s : Text) (rest : List ℕ)
    → IsText s
    → length s < n
    → c_str (char_array n s ++ rest) ≡ s
unfolding char_array
c_str-char_array n s rest t h =
    let e : n - length s ≡ suc (n - length s - 1) = omega arith in
    rw (e, take-all n s (omega arith), append_assoc s (0 ∷ zeros (n - length s - 1)) rest)
      (c_str-append s (zeros (n - length s - 1) ++ rest) t)

pub text_at-char_array :
    (n : ℕ) (s : Text) (rest : List ℕ)
    → IsText s
    → length s < n
    → text_at (char_array n s ++ rest) 0 ≡ some s
unfolding text_at char_array
text_at-char_array n s rest t h =
    let e : n - length s ≡ suc (n - length s - 1) = omega arith in
    rw (e, take-all n s (omega arith), append_assoc s (0 ∷ zeros (n - length s - 1)) rest)
      (ground (
        arith,
        length-append s (0 ∷ zeros (n - length s - 1) ++ rest),
        c_str-append s (zeros (n - length s - 1) ++ rest) t,
      ))

c_str-zeros : (s : Text) (m : ℕ) (rest : List ℕ) → IsText s → c_str (s ++ (zeros m ++ 0 ∷ rest)) ≡ s
c_str-zeros s zero rest t = c_str-append s rest t
c_str-zeros s (suc m) rest t = c_str-append s (zeros m ++ 0 ∷ rest) t

pub IsText-take : (n : ℕ) (s : Text) → IsText s → IsText (take n s)
IsText-take zero s t = tt
IsText-take (suc n) [] t = tt
IsText-take (suc n) (c ∷ s) t = (t.0, IsText-take n s t.1)

-- An array that may be full, with a NUL behind it.
pub text_at_full :
    (n : ℕ) (s : Text) (rest : List ℕ)
    → IsText s
    → text_at (char_array n s ++ 0 ∷ rest) 0 ≡ some (take n s)
unfolding text_at char_array
text_at_full n s rest t =
    let m = n - length s in
    rw (append_assoc (take n s) (zeros m) (0 ∷ rest)) (
      ground (
        arith,
        length-append (take n s) (zeros m ++ 0 ∷ rest),
        length-append (zeros m) (0 ∷ rest),
        c_str-zeros (take n s) m rest (IsText-take n s t),
      ))

pub u32s_at-u32_array :
    (ns front rest : List ℕ) (i : ℕ)
    → All (λ n. n < 2 ^ 32) ns
    → length front ≡ i
    → u32s_at (length ns) (front ++ (u32_array ns ++ rest)) i ≡ some ns
unfolding u32s_at u32_array
u32s_at-u32_array [] front rest i h e = refl
u32s_at-u32_array (n ∷ ns) front rest i h e =
    let first =
      u32_at-append front (le32 n ++ (u32_array ns ++ rest)) i 0 e i (omega arith)
      ∙ u32_at-le32 n (u32_array ns ++ rest) h.0 in
    let others =
      u32s_at-u32_array ns (front ++ le32 n) rest (i + 4) h.1
        (omega (arith, length-append front (le32 n))) in
    cc (
      first,
      others,
      append_assoc front (le32 n) (u32_array ns ++ rest),
      append_assoc (le32 n) (u32_array ns) rest,
    )
