-- ===== src/Server.antt =====
-- src/server/main.c: the dispatcher and the event loop.
pub mod State
pub mod Auth
pub mod Chat
pub mod Groups
pub mod Friends
pub mod Routing
pub mod Authority
pub mod Guarantees
use mo_t.Base.{
  ℕ, ◌+◌, Bool, true, Option, none, some, List, [], ◌∷◌, ◌++◌, Text, length, ◌==◌, if◌then◌else◌,
  ◌>>=◌,
}
use mo_t.Crypto.{Evp, MasterKey, crypto_init}
use mo_t.Storage.Tables.{Db}
use mo_t.Clients.{
  Client, init_clients, free_clients, add_client, remove_client, get_client_by_fd, update_client,
}
use mo_t.Protocol.Types.{
  MessageType, message_type, register, login, update_user, send_text, req_history, create_conv,
  req_conversations, update_group, add_member, req_members, kick_member, delete_group, req_contacts,
  add_by_code, get_requests, decide_request,
}
use mo_t.Protocol.Request.{buffer}
use mo_t.Protocol.Wire.{Reader, Received, stopped, overrun, packet, recv_packet}
use State.{System, Server}
use Auth.{handle_register, handle_login, handle_update_user}
use Chat.{handle_send_text, handle_req_history}
use Groups.{
  handle_create_conv, handle_req_conversations, handle_update_group, handle_add_member,
  handle_req_members, handle_kick_member, handle_delete_group,
}
use Friends.{handle_req_contacts, handle_add_by_code, handle_get_requests, handle_decide_request}

-- What epoll_wait reports: a connection with its handle, whether the handshake and the malloc of the
-- node succeed; or bytes on a descriptor at a time, as SSL_read will give them.
pub data Event : Type 0 where
  accepted : ℕ → ℕ → Bool → Bool → Event
  readable : ℕ → ℕ → Reader → List ℕ → Event

-- main up to the event loop: the key of the configuration and the tables of the file. `none` is the
-- exit where there is no key.
unfoldable pub start : Evp → Text → Db → Option Server
start evp db_key db =
    if length db_key == 0
    then none
    else some (record {
      db = db;
      clients = init_clients;
      key = crypto_init evp db_key none;
      draws = 0;
      seals = 0;
      sent = [];
      freed = [];
      closed = [];
    })

-- close(fd); remove_client(fd);
unfoldable pub drop_client : ℕ → Server → Server
drop_client fd s =
    let (clients', freed') = remove_client fd s.clients in
    record s { clients = clients'; freed = s.freed ++ freed'; closed = s.closed ++ fd ∷ [] }

-- A new connection.
unfoldable pub accept_client : ℕ → ℕ → Bool → Bool → Server → Server
accept_client fd ssl handshake allocated s =
    if handshake
    then record s {
      clients =
          update_client fd (λ c. record c { ssl = ssl }) (add_client allocated fd ssl s.clients);
    }
    else record s { freed = s.freed ++ ssl ∷ []; closed = s.closed ++ fd ∷ [] }

module _ (sys : System) where
  -- The switch. A type that is no request is logged and passed over.
  unfoldable pub handle : ℕ → Client → MessageType → List ℕ → Server → Option Server
  handle now cli register p s = handle_register sys cli p s
  handle now cli login p s = handle_login sys cli p s
  handle now cli update_user p s = handle_update_user sys cli p s
  handle now cli send_text p s = handle_send_text sys now cli p s
  handle now cli req_history p s = handle_req_history sys cli p s
  handle now cli create_conv p s = handle_create_conv sys cli p s
  handle now cli req_conversations p s = some (handle_req_conversations sys cli s)
  handle now cli update_group p s = handle_update_group sys cli p s
  handle now cli add_member p s = handle_add_member sys cli p s
  handle now cli req_members p s = handle_req_members sys cli p s
  handle now cli kick_member p s = handle_kick_member sys cli p s
  handle now cli delete_group p s = handle_delete_group sys cli p s
  handle now cli req_contacts p s = some (handle_req_contacts sys cli s)
  handle now cli add_by_code p s = handle_add_by_code sys cli p s
  handle now cli get_requests p s = some (handle_get_requests sys cli s)
  handle now cli decide_request p s = handle_decide_request sys cli p s
  handle now cli _ p s = some s

  unfoldable pub dispatch : ℕ → Client → ℕ → List ℕ → Server → Option Server
  dispatch now cli type_value payload s = elim (message_type type_value) [
    | none ↦ some s
    | some t ↦ handle now cli t (buffer payload) s
  ]

  unfoldable pub after_recv : ℕ → Client → Received → Server → Option Server
  after_recv now cli (stopped status) s = some (drop_client cli.fd s)
  after_recv now cli overrun s = none
  after_recv now cli (packet type_value payload rest) s = dispatch now cli type_value payload s

  -- One event. `none` is undefined behaviour.
  unfoldable pub step : Event → Server → Option Server
  step (accepted fd ssl handshake allocated) s = some (accept_client fd ssl handshake allocated s)
  step (readable fd now reader input) s = elim (get_client_by_fd fd s.clients) [
    | none ↦ some (drop_client fd s)
    | some cli ↦
        if cli.ssl == 0
        then some (drop_client fd s)
        else (do received ← recv_packet reader true 0 input; after_recv now cli received s)
  ]

  unfoldable pub run : List Event → Server → Option Server
  run [] s = some s
  run (e ∷ es) s = do s' ← step e s; run es s'
