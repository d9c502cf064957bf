-- ===== src/Server/Authority/Messages.antt =====
-- src/server/handlers/chat_handler.c issues permitted statements only.
use mo_t.Base.{ℕ, refl, List, [], ◌∷◌, Text, ◌==◌, if_both, Holds, Holds-bind}
use mo_t.Storage.Path.{here}
use mo_t.Storage.Path.Operations.{log_message-DbPath}
use mo_t.Storage.Messages.{storage_get_history}
use mo_t.Clients.{Client}
use mo_t.Protocol.Request.{u32_at, text_at, text_at-IsText}
use mo_t.Server.State.{System, Server}
use mo_t.Server.State.Frame.{
  SendsOnly, SendsOnly-refl, SendsOnly-trans, send-SendsOnly, send_online-SendsOnly,
}
use mo_t.Server.Chat.{route_all, handle_send_text, handle_req_history}
use mo_t.Server.Authority.{Permitted, IsPermitted, SendsOnly-IsPermitted}

-- Routing only sends.
pub route_all-SendsOnly :
    (cli : Client) (conv : ℕ) (text : Text) (targets : List ℕ) (s : Server)
    → SendsOnly s (route_all cli conv text targets s)
unfolding route_all
route_all-SendsOnly cli conv text [] s = SendsOnly-refl s
route_all-SendsOnly cli conv text (target ∷ targets) s =
    SendsOnly-trans
      (if_both (SendsOnly s) (target == cli.uid) s _ (SendsOnly-refl s)
        (send_online-SendsOnly _ s (λ c. send-SendsOnly c _ _ s) target))
      (route_all-SendsOnly cli conv text targets _)

module _ (sys : System) (s : Server) (cli : Client) where
  pub handle_send_text-IsPermitted :
      (now : ℕ) (p : List ℕ) → Holds (IsPermitted sys s cli) (handle_send_text sys now cli p s)
  unfolding handle_send_text
  handle_send_text-IsPermitted now p = Holds-bind (IsPermitted sys s cli) (u32_at p 0) _ λ conv _.
      Holds-bind (IsPermitted sys s cli) (text_at p 4) _ λ text read.
        SendsOnly-IsPermitted sys s cli
          (log_message-DbPath sys.sqlite (Permitted sys s cli) sys.evp s.key s.seals now conv
            cli.uid text s.db (λ hex e. (refl, (text, rw read at (text_at-IsText p 4), e))))
          (route_all-SendsOnly cli conv text _ _)

  pub handle_req_history-IsPermitted :
      (p : List ℕ) → Holds (IsPermitted sys s cli) (handle_req_history sys cli p s)
  unfolding handle_req_history
  handle_req_history-IsPermitted p = Holds-bind (IsPermitted sys s cli) (u32_at p 0) _ λ conv _.
      Holds-bind (IsPermitted sys s cli)
        (storage_get_history sys.libc sys.evp sys.sqlite s.key conv s.db) _
        λ hist _. SendsOnly-IsPermitted sys s cli here (send-SendsOnly cli _ _ s)
