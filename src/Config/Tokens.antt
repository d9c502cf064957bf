-- ===== src/Config/Tokens.antt =====
-- Texts without white space under the trimming and the strtok of src/common/config_loader.c.
use mo_t.Base.{
  ℕ, ◌≡◌, ◌≢◌, refl, ap, false, some, [], ◌∷◌, ◌++◌, Text, IsText, All, All-map, ◌==◌,
  if◌then◌else◌, arith,
}
use mo_t.Config.Number.{is_space, skip_space, IsNumeral}
use mo_t.Config.{
  AppConfig, Garbage, trim_end, trim_whitespace, split_at, skip_byte, strtok, set_option,
  apply_value,
}

-- No white space, so no newline either.
abbrev pub NoSpace : Text → Type 0
NoSpace s = All (λ c. is_space c ≡ false) s

trim_end-NoSpace : (s : Text) → NoSpace s → trim_end s ≡ s
unfolding trim_end
trim_end-NoSpace [] h = refl
trim_end-NoSpace (c ∷ s) h = rw (trim_end-NoSpace s h.1, trim_end) (last s)
  where
    last :
        (s : Text)
        → (elim s as (λ _. Text) [ [] ↦ if is_space c then [] else c ∷ [] | d ∷ r ↦ c ∷ d ∷ r ])
          ≡ c ∷ s
    last [] = ground (arith, h.0)
    last (d ∷ r) = refl

pub trim_whitespace-NoSpace : (s : Text) → NoSpace s → trim_whitespace s ≡ s
unfolding trim_whitespace skip_space
trim_whitespace-NoSpace [] h = refl
trim_whitespace-NoSpace (c ∷ s) h = rw h.0 (trim_end-NoSpace (c ∷ s) h)

split_at-NoSpace : (s : Text) → NoSpace s → split_at b'\n' (s ++ b'\n' ∷ []) ≡ (s, [])
unfolding split_at
split_at-NoSpace [] h = refl
split_at-NoSpace (c ∷ s) h = ground (arith, split_at-NoSpace s h.1)

-- strtok(NULL, "\n") of a value with its newline.
strtok-NoSpace :
    (c : ℕ) (s : Text) → NoSpace (c ∷ s) → strtok b'\n' ((c ∷ s) ++ b'\n' ∷ []) ≡ some (c ∷ s, [])
unfolding strtok skip_byte
strtok-NoSpace c s h =
    let ne : (c == b'\n') ≡ false = ground arith in
    rw (ne, strtok) (ap some (split_at-NoSpace (c ∷ s) h))

pub apply_value-NoSpace :
    (g : Garbage) (key val : Text) (config : AppConfig)
    → val ≢ []
    → NoSpace val
    → apply_value g key (val ++ b'\n' ∷ []) config ≡ set_option g (trim_whitespace key) val config
unfolding apply_value
apply_value-NoSpace g key [] config ne h = absurd (ne refl)
apply_value-NoSpace g key (c ∷ s) config ne h =
    rw (strtok-NoSpace c s h, apply_value)
      (ap (λ (v : Text). set_option g (trim_whitespace key) v config)
        (trim_whitespace-NoSpace (c ∷ s) h))

pub NoSpace-newline : (s : Text) → NoSpace s → All (λ b. b ≢ b'\n') s
NoSpace-newline s h = All-map (λ b e. ground arith) s h

pub numeral-IsText : (s : Text) → All IsNumeral s → IsText s
numeral-IsText [] h = tt
numeral-IsText (c ∷ s) h = (ground arith, numeral-IsText s h.1)

pub numeral-NoSpace : (s : Text) → All IsNumeral s → NoSpace s
numeral-NoSpace s h = All-map (λ c n. ground arith) s h
