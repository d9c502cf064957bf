-- ===== src/Config/RoundTrip.antt =====
-- A configuration file that src/common/config_loader.c wrote, read back.
use mo_t.Base.{
  ℕ, Bool, Option, leb, ◌>>=◌, ◌≤◌, ◌<◌, ◌≡◌, ◌≢◌, refl, ◌∙◌, ap, true, false, some, List, [], ◌∷◌,
  ◌++◌, Text, codes, c_str, c_str-IsText_self, IsText, IsText-append, All, All-append, length,
  if◌then◌else◌, arith,
}
use mo_t.Base.Int.{ℤ}
use mo_t.Config.Number.{
  skip_space, print_int, print_int-IsNumeral, print_int-ne-nil, length-print_int, IsInt,
  atoi-print_int,
}
use mo_t.Config.Lines.{fgets_lines, fgets_lines-append, fgets_lines-nil}
use mo_t.Config.{
  AppConfig, Garbage, strncpy_into, saved_text, apply_defaults, trim_end, trim_whitespace, split_at,
  skip_byte, strtok, set_option, apply_text, apply_lines, config_load, config_save_client,
}
use mo_t.Config.Tokens.{
  NoSpace, apply_value-NoSpace, NoSpace-newline, numeral-IsText, numeral-NoSpace,
}

strncpy_into-fits : (n end : ℕ) (s : Text) → length s < n → strncpy_into n end s ≡ s
unfolding strncpy_into
strncpy_into-fits n end s h = ground arith

module _ (g : Garbage) (host : Text) (port : ℤ) (config : AppConfig) where
  host_line :
      host ≢ []
      → NoSpace host
      → IsText host
      → length host ≤ 254
      → apply_text g (skip_space (c_str ((codes "server_host=" ++ host) ++ b'\n' ∷ []))) config
        ≡ some (record config { server_host = host })
  unfolding apply_text skip_space strtok split_at skip_byte set_option trim_whitespace trim_end
  host_line ne h t fits =
      let line = (codes "server_host=" ++ host) ++ b'\n' ∷ [] in
      let text : IsText line =
        IsText-append (codes "server_host=" ++ host) (b'\n' ∷ [])
          (IsText-append (codes "server_host=") host (omega arith) t) (omega arith) in
      ap (λ (l : Text). apply_text g (skip_space l) config) (c_str-IsText_self line text)
      ∙ apply_value-NoSpace g (codes "server_host") host config ne h
      ∙ rw (strncpy_into-fits 255 g.host_end host (omega arith)) refl

  port_line :
      IsInt port
      → apply_text g
          (skip_space (c_str ((codes "server_port=" ++ print_int port) ++ b'\n' ∷ [])))
          config
        ≡ some (record config { port = port })
  unfolding apply_text skip_space strtok split_at skip_byte set_option trim_whitespace trim_end
  port_line range =
      let line = (codes "server_port=" ++ print_int port) ++ b'\n' ∷ [] in
      let text : IsText line =
        IsText-append (codes "server_port=" ++ print_int port) (b'\n' ∷ [])
          (IsText-append (codes "server_port=") (print_int port) (omega arith)
            (numeral-IsText (print_int port) (print_int-IsNumeral port)))
          (omega arith) in
      ap (λ (l : Text). apply_text g (skip_space l) config) (c_str-IsText_self line text)
      ∙ apply_value-NoSpace g (codes "server_port") (print_int port) config (print_int-ne-nil port)
          (numeral-NoSpace (print_int port) (print_int-IsNumeral port))
      ∙ rw (atoi-print_int port range) refl

apply_lines_cons :
    (g : Garbage) (line : List ℕ) (lines : List (List ℕ)) (config config' : AppConfig)
    → apply_text g (skip_space (c_str line)) config ≡ some config'
    → apply_lines g (line ∷ lines) config ≡ apply_lines g lines config'
unfolding apply_lines
apply_lines_cons g line lines config config' e = rw e refl

-- The lines of a file that was written.
abbrev saved_lines : Text → ℤ → List (List ℕ)
saved_lines host port =
    codes "# MoT Client Configuration\n"
    ∷ codes "# Generated by First Run Wizard\n"
    ∷ codes "\n"
    ∷ ((codes "server_host=" ++ host) ++ b'\n' ∷ [])
    ∷ ((codes "server_port=" ++ print_int port) ++ b'\n' ∷ [])
    ∷ codes "# ca_path=/path/to/custom_server.crt\n"
    ∷ []

apply_lines-saved_lines :
    (g : Garbage) (host : Text) (port : ℤ)
    → host ≢ []
    → NoSpace host
    → IsText host
    → length host ≤ 254
    → IsInt port
    → apply_lines g (saved_lines host port) apply_defaults
      ≡ some (record apply_defaults { server_host = host; port = port })
unfolding apply_text skip_space apply_lines
apply_lines-saved_lines g host port ne h t fits range =
    let hosted = record apply_defaults { server_host = host } in
    let host_bytes = (codes "server_host=" ++ host) ++ b'\n' ∷ [] in
    let port_bytes = (codes "server_port=" ++ print_int port) ++ b'\n' ∷ [] in
    let last = codes "# ca_path=/path/to/custom_server.crt\n" ∷ [] in
    apply_lines_cons g host_bytes (port_bytes ∷ last) apply_defaults hosted
      (host_line g host port apply_defaults ne h t fits)
    ∙ apply_lines_cons g port_bytes last hosted (record hosted { port = port })
        (port_line g host port hosted range)

-- One line of a file.
read_line :
    (bytes rest : List ℕ) (lines : List (List ℕ))
    → All (λ b. b ≢ b'\n') bytes
    → length bytes < 1023
    → fgets_lines rest ≡ lines
    → fgets_lines (bytes ++ b'\n' ∷ rest) ≡ (bytes ++ b'\n' ∷ []) ∷ lines
read_line bytes rest lines h fits e = rw (← e) (fgets_lines-append bytes rest h fits)

fgets_lines-saved_text :
    (config : AppConfig)
    → NoSpace config.server_host
    → length config.server_host ≤ 254
    → IsInt config.port
    → fgets_lines (saved_text config) ≡ saved_lines config.server_host config.port
unfolding saved_text
fgets_lines-saved_text config h fits range =
    let host = config.server_host in
    let port = print_int config.port in
    let last = codes "# ca_path=/path/to/custom_server.crt\n" in
    let port_on = (codes "server_port=" ++ port) ++ b'\n' ∷ last in
    let host_on = (codes "server_host=" ++ host) ++ b'\n' ∷ port_on in
    read_line (codes "# MoT Client Configuration")
      (codes "# Generated by First Run Wizard\n" ++ (b'\n' ∷ host_on)) _ (omega arith) (omega arith)
      (read_line (codes "# Generated by First Run Wizard") (b'\n' ∷ host_on) _ (omega arith)
        (omega arith)
        (read_line [] host_on _ tt (omega arith) (
          read_line (codes "server_host=" ++ host) port_on _
            (All-append (λ b. b ≢ b'\n') (codes "server_host=") host (omega arith)
              (NoSpace-newline host h))
            (omega (arith, fits))
            (read_line (codes "server_port=" ++ port) last _
              (All-append (λ b. b ≢ b'\n') (codes "server_port=") port (omega arith)
                (NoSpace-newline port (numeral-NoSpace port (print_int-IsNumeral config.port))))
              (omega (arith, length-print_int config.port range))
              (read_line (codes "# ca_path=/path/to/custom_server.crt") [] [] (omega arith)
                (omega arith) fgets_lines-nil)))))

pub config_load-saved_text :
    (g : Garbage) (config : AppConfig)
    → config.server_host ≢ []
    → NoSpace config.server_host
    → IsText config.server_host
    → length config.server_host ≤ 254
    → IsInt config.port
    → config_load g (some (saved_text config))
      ≡ some (record apply_defaults { server_host = config.server_host; port = config.port }, true)
unfolding config_load
config_load-saved_text g config ne h t fits range =
    rw
      (
        fgets_lines-saved_text config h fits range,
        apply_lines-saved_lines g config.server_host config.port ne h t fits range,
      )
      refl

-- Where the host is a C string that is not empty, without white space and of at most 254 bytes,
-- and the port is an int: if config_save_client can open its file, loading that file into an
-- AppConfig of any content succeeds and gives the defaults with this host and this port, and if
-- not, loading reads the file as it was before.
pub config_load-config_save_client :
    (g : Garbage) (opens : Bool) (config : AppConfig) (old : Option (List ℕ))
    → config.server_host ≢ []
    → NoSpace config.server_host
    → IsText config.server_host
    → length config.server_host ≤ 254
    → IsInt config.port
    → (config_save_client opens config old >>= λ r. config_load g r.0) ≡ (
        if opens
        then some
            (record apply_defaults { server_host = config.server_host; port = config.port }, true)
        else config_load g old)
unfolding config_save_client
config_load-config_save_client g false config old ne h t fits range = refl
config_load-config_save_client g true config old ne h t fits range =
    let whole : leb (length config.server_host) 255 ≡ true = ground arith in
    rw (whole, config_save_client) (config_load-saved_text g config ne h t fits range)
