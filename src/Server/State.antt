-- ===== src/Server/State.antt =====
-- What src/server/main.c and its handlers work on: the database, the connected clients, the master
-- key, and what has gone out.
pub mod Frame
use mo_t.Base.{ℕ, ◌+◌, Bool, true, Option, none, some, List, [], ◌∷◌, ◌++◌, ◌==◌, if◌then◌else◌}
use mo_t.Crypto.{Evp, MasterKey}
use mo_t.Storage.Tables.{Db}
use mo_t.Storage.Engine.{Sqlite}
use mo_t.Storage.LibC.{LibC}
use mo_t.Storage.Conversations.{storage_get_user_conversations}
use mo_t.Clients.{Client, get_client_by_uid, update_client}
use mo_t.Protocol.Types.{MessageType, resp_conversations}
use mo_t.Protocol.Replies.{Body, conversations, Packet}

-- The libraries and the system below the server.
pub record System : Type 1 where
  pub sqlite : Sqlite
  pub evp : Evp
  pub libc : LibC

-- `draws` and `seals` count the calls of rand and of RAND_bytes. `sent` is oldest first; `freed` are
-- the handles that SSL_free was called on and `closed` the descriptors given to close.
pub record Server : Type 0 where
  pub db : Db
  pub clients : List Client
  pub key : MasterKey
  pub draws : ℕ
  pub seals : ℕ
  pub sent : List Packet
  pub freed : List ℕ
  pub closed : List ℕ

-- send_packet(cli->ssl, …), whose result no handler reads.
unfoldable pub send : Client → MessageType → Body → Server → Server
send cli kind body s =
    if cli.ssl == 0
    then s
    else record s { sent = s.sent ++ record { ssl = cli.ssl; kind = kind; body = body } ∷ [] }

unfoldable pub send_to : Option Client → (Client → Server → Server) → Server → Server
send_to none act s = s
send_to (some c) act s = if c.is_online then act c s else s

-- What is done for the client of a user, if that user is online.
unfoldable pub send_online : ℕ → (Client → Server → Server) → Server → Server
send_online uid act s = send_to (get_client_by_uid uid s.clients) act s

-- The conversation list of a user, sent to a client.
unfoldable pub send_conversations : System → ℕ → Client → Server → Server
send_conversations sys uid c s =
    send c resp_conversations
      (conversations (storage_get_user_conversations sys.sqlite uid 50 s.db)) s

-- The same for each of some users that are online, in order.
unfoldable pub refresh_all : System → List ℕ → Server → Server
refresh_all sys [] s = s
refresh_all sys (uid ∷ uids) s =
    refresh_all sys uids (send_online uid (send_conversations sys uid) s)
