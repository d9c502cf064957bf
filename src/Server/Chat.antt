-- ===== src/Server/Chat.antt =====
-- src/server/handlers/chat_handler.c.
use mo_t.Base.{
  ℕ, ◌+◌, Option, some, List, [], ◌∷◌, Text, c_str, strncpy, ◌==◌, if◌then◌else◌, ◌>>=◌,
}
use mo_t.Storage.Conversations.{storage_get_conv_participants}
use mo_t.Storage.Messages.{storage_log_message, storage_get_history}
use mo_t.Clients.{Client}
use mo_t.Protocol.Types.{rte_text, resp_history}
use mo_t.Protocol.Request.{u32_at, text_at}
use mo_t.Protocol.Replies.{routed, history}
use mo_t.Server.State.{System, Server, send, send_online}

-- MAX_PARTICIPANTS.
abbrev pub max_participants : ℕ
max_participants = 10

-- The routed message, to each member but the sender that is online.
unfoldable pub route_all : Client → ℕ → Text → List ℕ → Server → Server
route_all cli conv text [] s = s
route_all cli conv text (target ∷ targets) s = route_all cli conv text targets (
    if target == cli.uid
    then s
    else send_online target
        (λ c. send c rte_text (
          routed (record {
            conv_id = conv;
            sender_uid = cli.uid;
            sender_username = strncpy 32 cli.username;
            text = strncpy 1024 text;
          })))
        s)

module _ (sys : System) where
  -- SendMessagePayload: conv_id and text at 0 and 4. `now` is time(NULL).
  unfoldable pub handle_send_text : ℕ → Client → List ℕ → Server → Option Server
  handle_send_text now cli p s = do
    conv ← u32_at p 0
    text ← text_at p 4
    let db' = storage_log_message sys.sqlite sys.evp s.key s.seals now conv cli.uid text s.db
    let s' = record s { db = db'; seals = s.seals + 1 }
    some (
        route_all cli conv text (storage_get_conv_participants sys.sqlite conv max_participants db')
          s')

  -- RequestHistoryPayload: conv_id at 0. The reply ends at the first NUL of the history.
  unfoldable pub handle_req_history : Client → List ℕ → Server → Option Server
  handle_req_history cli p s = do
    conv ← u32_at p 0
    hist ← storage_get_history sys.libc sys.evp sys.sqlite s.key conv s.db
    some (send cli resp_history (history (c_str hist)) s)
