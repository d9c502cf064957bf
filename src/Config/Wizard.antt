-- ===== src/Config/Wizard.antt =====
-- The first start of the client: ui_draw_first_start_wizard of src/client/ui.c, and the file that
-- src/client/main.c writes then. What the user types is an argument.
use mo_t.Base.{
  ℕ, Bool, false, none, ◌≤◌, ◌<◌, false, Option, some, List, Text, codes, length, ltb, ◌==◌,
  if◌then◌else◌, ◌>>=◌,
}
use mo_t.Base.Int.{ℤ, pos, negsuc}
use mo_t.Config.Number.{atoi}
use mo_t.Config.{AppConfig, apply_defaults, config_save_client}

-- The host: an empty answer leaves the default of the wizard.
unfoldable pub wizard_host : Text → Text
wizard_host host = if length host == 0 then codes "server-mot.arthur-server.com" else host

-- *port_out <= 0 || *port_out > 65535
unfoldable pub wizard_port : ℤ → ℤ
wizard_port (pos n) = if n == 0 then pos 8010 else if ltb 65535 n then pos 8010 else pos n
wizard_port (negsuc n) = pos 8010

unfoldable pub ui_draw_first_start_wizard : Text → Text → AppConfig → Option AppConfig
ui_draw_first_start_wizard host port config = do
  typed ← atoi (if length port == 0 then codes "8010" else port)
  some (record config { server_host = wizard_host host; port = wizard_port typed })

-- The branch `first_run` of main, where there is no file yet: the configuration, and the file behind
-- it. The result of config_save_client is not looked at.
unfoldable pub first_run : Bool → Text → Text → Option (AppConfig × Option (List ℕ))
first_run opens host port = do
  config ← ui_draw_first_start_wizard host port apply_defaults
  (file, saved) ← config_save_client opens config none
  some (config, file)

-- A port that a connection can use.
abbrev pub IsPort : ℤ → Type 0
IsPort (pos n) = (0 < n) × (n ≤ 65535)
IsPort (negsuc n) = n < 0
