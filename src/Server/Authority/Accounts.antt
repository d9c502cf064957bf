-- ===== src/Server/Authority/Accounts.antt =====
-- src/server/handlers/auth_handler.c issues permitted statements only.
use mo_t.Base.{ℕ, refl, Option, none, some, List, Holds, Holds-bind}
use mo_t.Storage.Path.{here}
use mo_t.Storage.Path.Operations.{register_user-DbPath, update_user-DbPath}
use mo_t.Storage.Users.{User, storage_check_credentials}
use mo_t.Clients.{Client}
use mo_t.Protocol.Request.{text_at}
use mo_t.Server.State.{System, Server}
use mo_t.Server.State.Frame.{send-SendsOnly}
use mo_t.Server.Auth.{handle_register, handle_login, handle_update_user, login_reply}
use mo_t.Server.Authority.{Permitted, IsPermitted, SendsOnly-IsPermitted}

module _ (sys : System) (s : Server) (cli : Client) where
  abbrev Good : Option Server → Type 0
  Good = Holds (IsPermitted sys s cli)

  pub handle_register-IsPermitted : (p : List ℕ) → Good (handle_register sys cli p s)
  unfolding handle_register
  handle_register-IsPermitted p = Holds-bind (IsPermitted sys s cli) (text_at p 0) _ λ email _.
      Holds-bind (IsPermitted sys s cli) (text_at p 64) _ λ username _.
        Holds-bind (IsPermitted sys s cli) (text_at p 96) _ λ password _.
          SendsOnly-IsPermitted sys s cli
            (register_user-DbPath sys.sqlite (Permitted sys s cli) sys.libc email username password
              s.draws s.db (λ hash code. tt))
            (send-SendsOnly cli _ _ _)

  login_reply-IsPermitted :
      (user : Option User) → IsPermitted sys s cli (login_reply sys cli s user)
  unfolding login_reply
  login_reply-IsPermitted none = SendsOnly-IsPermitted sys s cli here (send-SendsOnly cli _ _ _)
  login_reply-IsPermitted (some u) = SendsOnly-IsPermitted sys s cli here (send-SendsOnly cli _ _ _)

  pub handle_login-IsPermitted : (p : List ℕ) → Good (handle_login sys cli p s)
  unfolding handle_login
  handle_login-IsPermitted p = Holds-bind (IsPermitted sys s cli) (text_at p 0) _ λ email _.
      Holds-bind (IsPermitted sys s cli) (text_at p 64) _ λ password _.
        Holds-bind (IsPermitted sys s cli)
          (storage_check_credentials sys.libc sys.sqlite email password s.db) _
          λ user _. login_reply-IsPermitted user

  pub handle_update_user-IsPermitted : (p : List ℕ) → Good (handle_update_user sys cli p s)
  unfolding handle_update_user
  handle_update_user-IsPermitted p = Holds-bind (IsPermitted sys s cli) (text_at p 0) _ λ name _.
      Holds-bind (IsPermitted sys s cli) (text_at p 32) _ λ password _.
        SendsOnly-IsPermitted sys s cli
          (update_user-DbPath sys.sqlite (Permitted sys s cli) sys.libc cli.uid name password
            s.draws s.db refl (λ hash. refl))
          (send-SendsOnly cli _ _ _)
