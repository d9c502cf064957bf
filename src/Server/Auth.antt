-- ===== src/Server/Auth.antt =====
-- src/server/handlers/auth_handler.c.
use mo_t.Base.{
  ℕ, ◌+◌, true, Option, none, some, List, strncpy, length, ltb, if◌then◌else◌, ◌>>=◌, Text, is_some,
}
use mo_t.Storage.Users.{User, storage_register_user, storage_check_credentials, storage_update_user}
use mo_t.Clients.{Client, update_client}
use mo_t.Protocol.Types.{register_success, register_fail, login_success, login_fail, update_success}
use mo_t.Protocol.Request.{text_at}
use mo_t.Protocol.Replies.{no_body, my_info}
use mo_t.Server.State.{System, Server, send}

module _ (sys : System) where
  -- RegisterPayload: email, username and password at 0, 64 and 96.
  unfoldable pub handle_register : Client → List ℕ → Server → Option Server
  handle_register cli p s = do
    email ← text_at p 0
    username ← text_at p 64
    password ← text_at p 96
    let (db', code) = storage_register_user sys.libc sys.sqlite email username password s.draws s.db
    let s' = record s { db = db'; draws = s.draws + 22 }
    some (send cli (if is_some code then register_success else register_fail) no_body s')

  -- The client after a login.
  unfoldable pub log_in : User → Client → Client
  log_in u c = record c { username = strncpy 32 u.username; uid = u.uid; is_online = true }

  unfoldable pub login_reply : Client → Server → Option User → Server
  login_reply cli s none = send cli login_fail no_body s
  login_reply cli s (some u) =
      send cli login_success
        (my_info (record {
          uid = u.uid;
          username = strncpy 32 u.username;
          email = strncpy 64 u.email;
          friend_code = strncpy 7 u.friend_code;
        }))
        (record s { clients = update_client cli.fd (log_in u) s.clients })

  -- LoginPayload: email and password at 0 and 64.
  unfoldable pub handle_login : Client → List ℕ → Server → Option Server
  handle_login cli p s = do
    email ← text_at p 0
    password ← text_at p 64
    user ← storage_check_credentials sys.libc sys.sqlite email password s.db
    some (login_reply cli s user)

  unfoldable pub set_username : Text → Client → Client
  set_username name c = record c { username = strncpy 32 name }

  -- UpdateUserPayload: new_username and new_password at 0 and 32.
  unfoldable pub handle_update_user : Client → List ℕ → Server → Option Server
  handle_update_user cli p s = do
    new_username ← text_at p 0
    new_password ← text_at p 32
    let db' = storage_update_user sys.libc sys.sqlite cli.uid new_username new_password s.draws s.db
    let clients' =
        if ltb 0 (length new_username)
        then update_client cli.fd (set_username new_username) s.clients
        else s.clients
    let draws' = if ltb 0 (length new_password) then s.draws + 16 else s.draws
    some (
        send cli update_success no_body (record s { db = db'; clients = clients'; draws = draws' }))
