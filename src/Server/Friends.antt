-- ===== src/Server/Friends.antt =====
-- src/server/handlers/contact_handler.c.
use mo_t.Base.{ℕ, Bool, Option, none, some, List, [], ◌∷◌, codes, ◌==◌, if◌then◌else◌, ◌>>=◌, not}
use mo_t.Storage.Tables.{Db}
use mo_t.Storage.Users.{storage_get_uid_by_code}
use mo_t.Storage.Contacts.{
  storage_add_request, storage_remove_request, storage_add_friendship, storage_get_contacts_data,
  storage_get_requests_data,
}
use mo_t.Storage.Conversations.{storage_find_private_conversation, storage_create_conversation}
use mo_t.Clients.{Client}
use mo_t.Protocol.Types.{resp_contacts, resp_requests, add_req_sent, add_fail}
use mo_t.Protocol.Request.{u8_at, u32_at, text_at}
use mo_t.Protocol.Replies.{no_body, contacts}
use mo_t.Server.State.{System, Server, send, send_online, send_conversations}

module _ (sys : System) where
  unfoldable pub send_contacts : ℕ → Client → Server → Server
  send_contacts uid c s =
      send c resp_contacts (contacts (storage_get_contacts_data sys.sqlite uid 50 s.db)) s

  unfoldable pub send_requests : ℕ → Client → Server → Server
  send_requests uid c s =
      send c resp_requests (contacts (storage_get_requests_data sys.sqlite uid 50 s.db)) s

  unfoldable pub handle_req_contacts : Client → Server → Server
  handle_req_contacts cli s = send_contacts cli.uid cli s

  unfoldable pub handle_get_requests : Client → Server → Server
  handle_get_requests cli s = send_requests cli.uid cli s

  unfoldable pub request_friend : Client → Option ℕ → Server → Server
  request_friend cli none s = send cli add_fail no_body s
  request_friend cli (some target) s =
      let (db', added) = storage_add_request sys.sqlite cli.uid target s.db in
      let s' = record s { db = db' } in
      if added
      then send_online target (send_requests target) (send cli add_req_sent no_body s')
      else send cli add_fail no_body s'

  -- AddContactPayload: friend_code at 0.
  unfoldable pub handle_add_by_code : Client → List ℕ → Server → Option Server
  handle_add_by_code cli p s = do
    code ← text_at p 0
    some (request_friend cli (storage_get_uid_by_code sys.sqlite code s.db) s)

  -- What an acceptance does to the tables, and whether it starts a private conversation.
  unfoldable pub accept_friend : ℕ → ℕ → Db → Db × Bool
  accept_friend uid target db =
      let db1 = (storage_add_friendship sys.sqlite uid target db).0 in
      let is_new = storage_find_private_conversation sys.sqlite uid target db1 == 0 in
      let db2 =
        (storage_create_conversation sys.sqlite 0 (codes "Private Chat") [] (uid ∷ target ∷ [])
          db1).0 in
      (if is_new then db2 else db1, is_new)

  unfoldable pub accept : Client → ℕ → Server → Server
  accept cli target s =
      let (db', is_new) = accept_friend cli.uid target s.db in
      let s' = record s { db = db' } in
      if is_new
      then send_online target (send_conversations sys target)
          (send_conversations sys cli.uid cli s')
      else s'

  -- DecideRequestPayload: target_uid and accepted at 0 and 4.
  unfoldable pub handle_decide_request : Client → List ℕ → Server → Option Server
  handle_decide_request cli p s = do
    accepted ← u8_at p 4
    target ← u32_at p 0
    let s1 = if not (accepted == 0) then accept cli target s else s
    let s2 = record s1 { db = (storage_remove_request sys.sqlite target cli.uid s1.db).0 }
    let s3 = handle_get_requests cli (handle_req_contacts cli s2)
    some (if not (accepted == 0) then send_online target (send_contacts target) s3 else s3)
