-- ===== src/Config/Bounds.antt =====
-- The sizes of the arrays of AppConfig in src/common/config_loader.c.
use mo_t.Base.{
  ℕ, suc, Bool, true, false, if◌then◌else◌, if_cases, ltb, take, ◌++◌, length-append, ◌≤◌, Option,
  some, none, List, [], ◌∷◌, Text, codes, c_str, text_eq, ◌||◌, length, length-take, arith, Holds,
  Holds-bind, Option-cases, inl, inr, if_both, ◌==◌,
}
use mo_t.Config.Number.{skip_space, atoi}
use mo_t.Config.Lines.{fgets_lines}
use mo_t.Config.{
  AppConfig, Garbage, strncpy_into, apply_defaults, trim_whitespace, strtok, set_option,
  apply_value, apply_text, apply_lines, config_load,
}

-- The longest text of an array whose last byte is `end`.
abbrev pub room : ℕ → ℕ → ℕ
room n end = if end == 0 then n else suc n

-- Each text fits its array, with a NUL where the last byte is one.
pub record IsBounded (g : Garbage) (config : AppConfig) : Type 0 where
  pub host : length config.server_host ≤ room 255 g.host_end
  pub ca_cert : length config.ca_cert_path ≤ room 511 g.ca_cert_end
  pub db : length config.db_path ≤ room 511 g.db_end
  pub cert : length config.server_cert_path ≤ room 511 g.cert_end
  pub key : length config.server_key_path ≤ room 511 g.key_end
  pub db_key : length config.db_encryption_key ≤ room 255 g.db_key_end

n-le-room : (n end : ℕ) → n ≤ room n end
n-le-room n end = ground arith

strncpy_into-room : (n end : ℕ) (s : Text) → length (strncpy_into n end s) ≤ room n end
unfolding strncpy_into
strncpy_into-room n end s =
    if_cases (λ (t : Text). length t ≤ room n end) (ltb (length s) n) _ _ (λ e. ground arith)
      λ long. full (end == 0)
  where
    full :
        (b : Bool)
        → length (if b then take n s else take n s ++ end ∷ []) ≤ (if b then n else suc n)
    full true = omega (arith, length-take n s)
    full false = omega (arith, length-take n s, length-append (take n s) (end ∷ []))

apply_defaults-IsBounded : (g : Garbage) → IsBounded g apply_defaults
unfolding apply_defaults
apply_defaults-IsBounded g =
    let r255 = n-le-room 255 in
    let r511 = n-le-room 511 in
    omega (
      arith,
      r255 g.host_end,
      r511 g.ca_cert_end,
      r511 g.db_end,
      r511 g.cert_end,
      r511 g.key_end,
      r255 g.db_key_end,
    )

module _ (g : Garbage) (config : AppConfig) (h : IsBounded g config) where
  set_option-IsBounded : (key val : Text) → Holds (IsBounded g) (set_option g key val config)
  unfolding set_option
  set_option-IsBounded key val =
      if_both (Holds (IsBounded g)) (text_eq key (codes "server_host")) _ _
        (omega (arith, strncpy_into-room 255 g.host_end val))
        (if_both (Holds (IsBounded g))
          (text_eq key (codes "server_port") || text_eq key (codes "bind_port")) _ _
          (Holds-bind (IsBounded g) (atoi val) _ λ port e. omega arith)
          (if_both (Holds (IsBounded g)) (text_eq key (codes "ca_path")) _ _
            (omega (arith, strncpy_into-room 511 g.ca_cert_end val))
            (if_both (Holds (IsBounded g)) (text_eq key (codes "db_path")) _ _
              (omega (arith, strncpy_into-room 511 g.db_end val))
              (if_both (Holds (IsBounded g)) (text_eq key (codes "cert_file")) _ _
                (omega (arith, strncpy_into-room 511 g.cert_end val))
                (if_both (Holds (IsBounded g)) (text_eq key (codes "key_file")) _ _
                  (omega (arith, strncpy_into-room 511 g.key_end val))
                  (if_both (Holds (IsBounded g)) (text_eq key (codes "db_key")) _ _
                    (omega (arith, strncpy_into-room 255 g.db_key_end val)) h))))))

  apply_value-IsBounded : (key rest : Text) → Holds (IsBounded g) (apply_value g key rest config)
  unfolding apply_value
  apply_value-IsBounded key rest = elim (Option-cases (strtok b'\n' rest)) [
    | inl e ↦ rw (e, apply_value) h
    | inr ((val, more), e) ↦
        rw (e, apply_value) (set_option-IsBounded (trim_whitespace key) (trim_whitespace val))
  ]

  apply_text-IsBounded : (s : Text) → Holds (IsBounded g) (apply_text g s config)
  unfolding apply_text
  apply_text-IsBounded [] = h
  apply_text-IsBounded (c ∷ s) =
      if_both (Holds (IsBounded g)) (c == b'#') _ _ h (elim (Option-cases (strtok b'=' (c ∷ s))) [
        | inl e ↦ rw (e, apply_text) h
        | inr ((key, rest), e) ↦ rw (e, apply_text) (apply_value-IsBounded key rest)
      ])

apply_lines-IsBounded :
    (g : Garbage) (lines : List (List ℕ)) (config : AppConfig)
    → IsBounded g config
    → Holds (IsBounded g) (apply_lines g lines config)
unfolding apply_lines
apply_lines-IsBounded g [] config h = h
apply_lines-IsBounded g (line ∷ lines) config h =
    elim (Option-cases (apply_text g (skip_space (c_str line)) config)) [
      | inl e ↦ rw (e, apply_lines) tt
      | inr (config', e) ↦
          rw (e, apply_lines)
            (apply_lines-IsBounded g lines config'
              (rw e at (apply_text-IsBounded g config h (skip_space (c_str line)))))
    ]

-- Whatever the file holds and whatever the AppConfig held, as long as no value of a port is
-- outside of int, every text of the configuration fits its array, and leaves a byte of it for the
-- NUL if the last byte of the array, which is never written, happened to be 0.
pub config_load-IsBounded :
    (g : Garbage) (file : Option (List ℕ)) → Holds (λ r. IsBounded g r.0) (config_load g file)
unfolding config_load
config_load-IsBounded g none = apply_defaults-IsBounded g
config_load-IsBounded g (some file) =
    Holds-bind (λ r. IsBounded g r.0) (apply_lines g (fgets_lines file) apply_defaults) _
      λ config e.
        rw e at
          (apply_lines-IsBounded g (fgets_lines file) apply_defaults (apply_defaults-IsBounded g))
