-- ===== src/ClientApp/Services/Meaning.antt =====
-- What the calls of src/client/services ask of the server, with no bytes in between: the operations
-- of src/server on the values themselves.
use mo_t.Base.{
  ℕ, ◌+◌, Option, some, List, [], ◌∷◌, Text, length, ltb, ◌==◌, if◌then◌else◌, ◌>>=◌, is_some,
  select, not, c_str, ◌&&◌,
}
use mo_t.Storage.Users.{
  storage_register_user, storage_check_credentials, storage_update_user, storage_get_uid_by_code,
}
use mo_t.Storage.Contacts.{storage_remove_request}
use mo_t.Storage.Conversations.{
  storage_get_conv_participants, storage_is_admin, storage_get_group_members,
  storage_remove_participant, storage_delete_conversation,
}
use mo_t.Storage.Messages.{storage_log_message, storage_get_history}
use mo_t.Clients.{Client, update_client}
use mo_t.Protocol.Types.{
  register_success, register_fail, update_success, resp_history, conv_created, resp_members,
}
use mo_t.Protocol.Replies.{no_body, history, new_conv, members}
use mo_t.ClientApp.Services.{group_uids}
use mo_t.Server.State.{System, Server, send, send_online, send_conversations, refresh_all}
use mo_t.Server.Auth.{login_reply, set_username}
use mo_t.Server.Chat.{max_participants, route_all}
use mo_t.Server.Groups.{notify_group_update, find_or_create}
use mo_t.Server.Friends.{
  request_friend, accept, send_contacts, handle_req_contacts, handle_get_requests,
}

-- A call of a service, with its arguments.
pub data Call : Type 0 where
  registers : Text → Text → Text → Call
  logs_in : Text → Text → Call
  updates : Text → Text → Call
  sends : ℕ → Text → Call
  reads_history : ℕ → Call
  adds_contact : Text → Call
  decides : ℕ → ℕ → Call
  creates_group : Text → Text → List ℕ → Call
  creates_private : ℕ → Text → Call
  deletes : ℕ → Call
  lists_members : ℕ → Call
  kicks : ℕ → ℕ → Call

module _ (sys : System) (cli : Client) (s : Server) where
  abbrev if_admin : ℕ → Option Server → Option Server
  if_admin conv act = if storage_is_admin sys.sqlite conv cli.uid s.db then act else some s

  abbrev pub created : ℕ → Text → Text → List ℕ → Option Server
  created kind name desc uids =
      let (db', new_id, is_new) = find_or_create sys kind name desc uids s.db in
      let s' = send cli conv_created (new_conv new_id) (record s { db = db' }) in
      some (
        if is_new && ltb 0 new_id
        then refresh_all sys (select (λ uid. not (uid == cli.uid)) uids) s'
        else s')

module _ (sys : System) (now my_uid : ℕ) (cli : Client) (s : Server) where
  -- What the server is asked to do.
  abbrev pub meaning : Call → Option Server
  meaning (registers email username password) =
      let (db', code) =
        storage_register_user sys.libc sys.sqlite email username password s.draws s.db in
      some (
        send cli (if is_some code then register_success else register_fail) no_body
          (record s { db = db'; draws = s.draws + 22 }))
  meaning (logs_in email password) = do
    user ← storage_check_credentials sys.libc sys.sqlite email password s.db
    some (login_reply sys cli s user)
  meaning (updates username password) = some (
      send cli update_success no_body (record s {
        db = storage_update_user sys.libc sys.sqlite cli.uid username password s.draws s.db;
        clients =
            if ltb 0 (length username)
            then update_client cli.fd (set_username sys username) s.clients
            else s.clients;
        draws = if ltb 0 (length password) then s.draws + 16 else s.draws;
      }))
  meaning (sends conv text) =
      let db' = storage_log_message sys.sqlite sys.evp s.key s.seals now conv cli.uid text s.db in
      some (
        route_all cli conv text (storage_get_conv_participants sys.sqlite conv max_participants db')
          (record s { db = db'; seals = s.seals + 1 }))
  meaning (reads_history conv) = do
    hist ← storage_get_history sys.libc sys.evp sys.sqlite s.key conv s.db
    some (send cli resp_history (history (c_str hist)) s)
  meaning (adds_contact code) =
      some (request_friend sys cli (storage_get_uid_by_code sys.sqlite code s.db) s)
  meaning (decides target accepted) =
      let s1 = if not (accepted == 0) then accept sys cli target s else s in
      let s2 = record s1 { db = (storage_remove_request sys.sqlite target cli.uid s1.db).0 } in
      let s3 = handle_get_requests sys cli (handle_req_contacts sys cli s2) in
      some (if not (accepted == 0) then send_online target (send_contacts sys target) s3 else s3)
  meaning (creates_group name desc uids) = created sys cli s 1 name desc (group_uids my_uid uids)
  meaning (creates_private target name) = created sys cli s 0 name [] (my_uid ∷ target ∷ [])
  meaning (deletes conv) = if_admin sys cli s conv (
      some (
        refresh_all sys (storage_get_conv_participants sys.sqlite conv max_participants s.db)
          (record s { db = storage_delete_conversation sys.sqlite conv s.db })))
  meaning (lists_members conv) =
      some (send cli resp_members (members (storage_get_group_members sys.sqlite conv 50 s.db)) s)
  meaning (kicks conv target) =
      let db' = (storage_remove_participant sys.sqlite conv target s.db).0 in
      if_admin sys cli s conv (
        some (
          if target == cli.uid
          then s
          else send_online target (send_conversations sys target)
              (notify_group_update sys conv 0 (record s { db = db' }))))
