-- ===== src/Config.antt =====
-- src/common/config_loader.c: the options of a configuration file, with their defaults, and the file
-- that the client writes. A line is what `fgets` reads. AppConfig is a local that nobody clears, and
-- strncpy leaves out the last byte of each of its arrays: these bytes are an argument, and a value
-- that fills its array is terminated only if its byte happens to be 0.
pub mod Number
pub mod Lines
pub mod Bounds
pub mod Tokens
pub mod RoundTrip
pub mod Wizard
use mo_t.Base.{
  ℕ, Bool, true, false, ◌||◌, ◌&&◌, Option, none, some, List, [], ◌∷◌, ◌++◌, Text, codes, c_str,
  text_eq, strncpy, snprintf, leb, ltb, length, ◌==◌, if◌then◌else◌, ◌>>=◌,
}
use mo_t.Base.Int.{ℤ, pos}
use Number.{is_space, skip_space, atoi, print_int}
use Lines.{fgets_lines}

-- AppConfig of include/system/config_loader.h.
pub record AppConfig : Type 0 where
  pub port : ℤ
  pub server_host : Text
  pub ca_cert_path : Text
  pub db_path : Text
  pub server_cert_path : Text
  pub server_key_path : Text
  pub db_encryption_key : Text

-- The last byte of each array, which is never written.
pub record Garbage : Type 0 where
  pub host_end : ℕ
  pub ca_cert_end : ℕ
  pub db_end : ℕ
  pub cert_end : ℕ
  pub key_end : ℕ
  pub db_key_end : ℕ

-- strncpy(array, s, sizeof(array) - 1), and the array up to its first NUL: all of it where there is
-- none.
unfoldable pub strncpy_into : ℕ → ℕ → Text → Text
strncpy_into n end s =
    if ltb (length s) n then s else if end == 0 then strncpy n s else strncpy n s ++ end ∷ []

-- The defaults are shorter than their arrays, and strncpy pads them with NULs.
unfoldable pub apply_defaults : AppConfig
apply_defaults = record {
  port = pos 8080;
  server_host = codes "localhost";
  ca_cert_path = [];
  db_path = codes "data/messagerie.db";
  server_cert_path = codes "server.crt";
  server_key_path = codes "server.key";
  db_encryption_key = [];
}

-- The loop that steps `end` back over white space.
unfoldable pub trim_end : Text → Text
trim_end [] = []
trim_end (c ∷ s) =
    let rest = trim_end s in
    elim rest [ [] ↦ if is_space c then [] else c ∷ [] | d ∷ r ↦ c ∷ d ∷ r ]

unfoldable pub trim_whitespace : Text → Text
unfolding trim_end
trim_whitespace s = trim_end (skip_space s)

-- The bytes up to a delimiter, and those behind it.
unfoldable pub split_at : ℕ → Text → Text × Text
split_at d [] = ([], [])
split_at d (c ∷ s) =
    let (token, rest) = split_at d s in if c == d then ([], s) else (c ∷ token, rest)

unfoldable pub skip_byte : ℕ → Text → Text
skip_byte d [] = []
skip_byte d (c ∷ s) = if c == d then skip_byte d s else c ∷ s

-- strtok with one delimiter: the token, and what a later call goes on with. NULL is `none`.
unfoldable pub strtok : ℕ → Text → Option (Text × Text)
unfolding split_at skip_byte
strtok d s = elim (skip_byte d s) [ [] ↦ none | c ∷ r ↦ some (split_at d (c ∷ r)) ]

-- The chain of strcmp. `none`: atoi of a value that is no int.
unfoldable pub set_option : Garbage → Text → Text → AppConfig → Option AppConfig
set_option g key val config =
    if text_eq key (codes "server_host")
    then some (record config { server_host = strncpy_into 255 g.host_end val })
    else if text_eq key (codes "server_port") || text_eq key (codes "bind_port")
    then (do port ← atoi val; some (record config { port = port }))
    else if text_eq key (codes "ca_path")
    then some (record config { ca_cert_path = strncpy_into 511 g.ca_cert_end val })
    else if text_eq key (codes "db_path")
    then some (record config { db_path = strncpy_into 511 g.db_end val })
    else if text_eq key (codes "cert_file")
    then some (record config { server_cert_path = strncpy_into 511 g.cert_end val })
    else if text_eq key (codes "key_file")
    then some (record config { server_key_path = strncpy_into 511 g.key_end val })
    else if text_eq key (codes "db_key")
    then some (record config { db_encryption_key = strncpy_into 255 g.db_key_end val })
    else some config

-- strtok(NULL, "\n"), and the assignment if there is a value.
unfoldable pub apply_value : Garbage → Text → Text → AppConfig → Option AppConfig
apply_value g key rest config = elim (strtok b'\n' rest) [
  | none ↦ some config
  | some (val, more) ↦ set_option g (trim_whitespace key) (trim_whitespace val) config
]

-- The body of the loop behind `p`: a comment or an empty line is passed over.
unfoldable pub apply_text : Garbage → Text → AppConfig → Option AppConfig
apply_text g [] config = some config
apply_text g (c ∷ s) config = if c == b'#' then some config else elim (strtok b'=' (c ∷ s)) [
  | none ↦ some config
  | some (key, rest) ↦ apply_value g key rest config
]

unfoldable pub apply_lines : Garbage → List (List ℕ) → AppConfig → Option AppConfig
apply_lines g [] config = some config
apply_lines g (line ∷ lines) config = do
  config' ← apply_text g (skip_space (c_str line)) config
  apply_lines g lines config'

-- The configuration and the result. A file that cannot be opened is `none`.
unfoldable pub config_load : Garbage → Option (List ℕ) → Option (AppConfig × Bool)
config_load g none = some (apply_defaults, false)
config_load g (some file) = do
  config ← apply_lines g (fgets_lines file) apply_defaults
  some (config, true)

-- The text that is written.
unfoldable pub saved_text : AppConfig → List ℕ
saved_text config =
    codes "# MoT Client Configuration\n"
    ++ (codes "# Generated by First Run Wizard\n"
        ++ (codes "\n"
            ++ (codes "server_host="
                ++ (config.server_host
                    ++ (b'\n'
                        ∷ (codes "server_port="
                            ++ (print_int config.port
                                ++ (b'\n' ∷ codes "# ca_path=/path/to/custom_server.crt\n"))))))))

-- Whether fopen succeeds, the configuration and the file before give the file and the result. A
-- file that is opened takes every byte. `none`: "%s" of an array without a NUL.
unfoldable pub config_save_client :
    Bool → AppConfig → Option (List ℕ) → Option (Option (List ℕ) × Bool)
config_save_client false config old = some (old, false)
config_save_client true config old =
    if leb (length config.server_host) 255 then some (some (saved_text config), true) else none

-- `home` is getenv("HOME"), `entry` the home directory of the user's entry in the password file.
unfoldable pub config_get_client_path : Option Text → Option Text → ℕ → Text
config_get_client_path (some home) entry size = snprintf size (home ++ codes "/.mot/config.conf")
config_get_client_path none (some home) size = snprintf size (home ++ codes "/.mot/config.conf")
config_get_client_path none none size = snprintf size (codes "./.mot/config.conf")
