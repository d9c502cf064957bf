-- ===== src/Base/Bytes.antt =====
-- Bytes and C strings. A C string is the list of its bytes before the terminating NUL; a char
-- array is likewise held as what stands before its first NUL (or all of it, if it has none).
use Prim.Native.Nat.{ℕ, zero, suc, ◌+◌, ◌*◌, ◌/◌, ◌%◌, ◌^◌, ◌<◌}
use Prim.Native.Char.{code}
use Prim.Native.String.{String}
use mathlib.Core.Path.{◌≡◌, refl}
use mathlib.Core.List.{List, [], ◌∷◌, ◌++◌}
use mathlib.Core.Bool.{Bool, true, false, ◌&&◌}
use native.Mathlib.Omega.{arith}
use mo_t.Base.Tests.{◌==◌, if◌then◌else◌}
use mo_t.Base.Lists.{take}

abbrev pub Text : Type 0
Text = List ℕ

-- The bytes of a literal, which is ASCII.
abbrev pub codes : String → Text
codes String.[] = []
codes (String.◌∷◌ c s) = code c ∷ codes s

-- strcmp(a, b) == 0, and the BINARY collation of SQLite.
abbrev pub text_eq : Text → Text → Bool
text_eq [] [] = true
text_eq (a ∷ s) (b ∷ t) = a == b && text_eq s t
text_eq _ _ = false

pub text_eq_refl : (s : Text) → text_eq s s ≡ true
text_eq_refl [] = refl
text_eq_refl (a ∷ s) = ground (arith, text_eq_refl s)

pub text_eq_complete : (s t : Text) → s ≡ t → text_eq s t ≡ true
text_eq_complete s t e = rw e (text_eq_refl t)

pub text_eq_sound : (s t : Text) → text_eq s t ≡ true → s ≡ t
text_eq_sound [] [] h = refl
text_eq_sound [] (b ∷ t) h = cc
text_eq_sound (a ∷ s) [] h = cc
text_eq_sound (a ∷ s) (b ∷ t) h = ground (arith, text_eq_sound s t)

-- What a `char *` to these bytes denotes.
abbrev pub c_str : List ℕ → Text
c_str [] = []
c_str (b ∷ bs) = if b == 0 then [] else b ∷ c_str bs

-- No NUL inside.
abbrev pub IsText : Text → Type 0
IsText [] = Unit {0}
IsText (b ∷ s) = (0 < b) × IsText s

pub c_str-append : (s : Text) (rest : List ℕ) → IsText s → c_str (s ++ 0 ∷ rest) ≡ s
c_str-append [] rest h = refl
c_str-append (b ∷ s) rest h = ground (arith, c_str-append s rest h.1)

pub c_str-IsText : (bs : List ℕ) → IsText (c_str bs)
c_str-IsText [] = tt
c_str-IsText (b ∷ bs) = ground (arith, c_str-IsText bs)

-- strncpy(a, s, n), and snprintf(a, n, "%s", s), as contents of the array a.
abbrev pub strncpy : ℕ → Text → Text
strncpy n s = take n s

abbrev pub snprintf : ℕ → Text → Text
snprintf n s = take (Prim.Native.Nat.pred n) s

pub IsText-append : (s t : Text) → IsText s → IsText t → IsText (s ++ t)
IsText-append [] t hs ht = ht
IsText-append (b ∷ s) t hs ht = (hs.0, IsText-append s t hs.1 ht)

pub c_str-IsText_self : (s : Text) → IsText s → c_str s ≡ s
c_str-IsText_self [] h = refl
c_str-IsText_self (b ∷ s) h = ground (arith, c_str-IsText_self s h.1)
