-- ===== src/Server/Guarantees/Calm.antt =====
-- The handlers of src/server that leave the clients alone: all but login and update_user.
use mo_t.Base.{
  ℕ, ◌≡◌, ◌≢◌, refl, ◌∙◌, ◌&&◌, not, Option, none, some, List, ◌==◌, ltb, if◌then◌else◌, if_both,
  Holds, Holds-bind, arith,
}
use mo_t.Storage.Tables.{Db}
use mo_t.Storage.Users.{storage_get_uid_by_code}
use mo_t.Storage.Contacts.{storage_add_request}
use mo_t.Storage.Messages.{storage_get_history}
use mo_t.Storage.Conversations.{storage_is_admin, storage_add_participant}
use mo_t.Clients.{Client}
use mo_t.Protocol.Types.{
  MessageType, register, login, update_user, send_text, req_history, create_conv, req_conversations,
  update_group, add_member, req_members, kick_member, delete_group, req_contacts, add_by_code,
  get_requests, decide_request,
}
use mo_t.Protocol.Request.{u8_at, u32_at, text_at}
use mo_t.Server.{handle}
use mo_t.Server.State.{System, Server, send_conversations}
use mo_t.Server.State.Frame.{
  SendsOnly, SendsOnly-trans, send-SendsOnly, send_online-SendsOnly, send_conversations-SendsOnly,
  refresh_all-SendsOnly,
}
use mo_t.Server.Auth.{handle_register}
use mo_t.Server.Chat.{handle_send_text, handle_req_history}
use mo_t.Server.Groups.{
  claimed_uids, find_or_create, handle_create_conv, handle_req_conversations, handle_update_group,
  seat_member, handle_add_member, handle_req_members, handle_kick_member, handle_delete_group,
}
use mo_t.Server.Friends.{
  send_contacts, send_requests, handle_req_contacts, handle_get_requests, request_friend,
  handle_add_by_code, accept_friend, accept, handle_decide_request,
}
use mo_t.Server.Authority.Messages.{route_all-SendsOnly}
use mo_t.Server.Authority.Groups.{notify_group_update-SendsOnly}
use mo_t.Server.Authority.Friends.{
  send_contacts-SendsOnly, send_requests-SendsOnly, lists-SendsOnly,
}

pub record Calm (s s' : Server) : Type 0 where
  pub same_clients : s'.clients ≡ s.clients
  pub same_key : s'.key ≡ s.key
  pub same_freed : s'.freed ≡ s.freed
  pub same_closed : s'.closed ≡ s.closed

Calm-refl : (s : Server) → Calm s s
Calm-refl s = ground arith

Calm-SendsOnly : {s t u : Server} → Calm s t → SendsOnly t u → Calm s u
Calm-SendsOnly c f = record {
  same_clients = f.same_clients ∙ c.same_clients;
  same_key = f.same_key ∙ c.same_key;
  same_freed = f.same_freed ∙ c.same_freed;
  same_closed = f.same_closed ∙ c.same_closed;
}

pub SendsOnly-Calm : {s t : Server} → SendsOnly s t → Calm s t
SendsOnly-Calm f = ground arith

Calm-db : {s t : Server} → Calm s t → (d : Db) → Calm s (record t { db = d })
Calm-db c d = ground arith

module _ (sys : System) (s : Server) (cli : Client) where
  calm : Calm s s
  calm = Calm-refl s

  only_db : (d : Db) → Calm s (record s { db = d })
  only_db d = ground arith

  Calm-with :
      (d : Db) (draws seals : ℕ) → Calm s (record s { db = d; draws = draws; seals = seals })
  Calm-with d draws seals = ground arith

  seat_member-Calm : (conv : ℕ) (target : Option ℕ) → Calm s (seat_member sys cli conv target s)
  unfolding seat_member
  seat_member-Calm conv none = calm
  seat_member-Calm conv (some target) =
      if_both (Calm s) (storage_add_participant sys.sqlite conv target 0 s.db).1 _ _
        (Calm-SendsOnly (only_db _)
          (SendsOnly-trans (send-SendsOnly cli _ _ _) (notify_group_update-SendsOnly sys conv 0 _)))
        (only_db _)

  request_friend-Calm : (target : Option ℕ) → Calm s (request_friend sys cli target s)
  unfolding request_friend
  request_friend-Calm none = Calm-SendsOnly calm (send-SendsOnly cli _ _ s)
  request_friend-Calm (some target) =
      if_both (Calm s) (storage_add_request sys.sqlite cli.uid target s.db).1 _ _
        (Calm-SendsOnly (only_db _) (
          SendsOnly-trans (send-SendsOnly cli _ _ _) (
            send_online-SendsOnly (send_requests sys target) _
              (λ c. send_requests-SendsOnly sys target c _) target)))
        (Calm-SendsOnly (only_db _) (send-SendsOnly cli _ _ _))

  accept-Calm : (target : ℕ) → Calm s (accept sys cli target s)
  unfolding accept
  accept-Calm target =
      if_both (Calm s) (accept_friend sys cli.uid target s.db).1 _ _
        (Calm-SendsOnly (only_db _) (
          SendsOnly-trans (send_conversations-SendsOnly sys cli.uid cli _) (
            send_online-SendsOnly (send_conversations sys target) _
              (λ c. send_conversations-SendsOnly sys target c _) target)))
        (only_db _)

  kick-Calm : (p : List ℕ) → Holds (Calm s) (handle_kick_member sys cli p s)
  unfolding handle_kick_member
  kick-Calm p = Holds-bind (Calm s) (u32_at p 0) _ λ conv _.
      if_both (Holds (Calm s)) (storage_is_admin sys.sqlite conv cli.uid s.db) _ (some s)
        (Holds-bind (Calm s) (u32_at p 4) _ λ target _.
          if_both (Calm s) (target == cli.uid) s _ calm (
            Calm-SendsOnly (only_db _) (
              SendsOnly-trans (notify_group_update-SendsOnly sys conv 0 _) (
                send_online-SendsOnly (send_conversations sys target) _
                  (λ c. send_conversations-SendsOnly sys target c _) target))))
        calm

  decide-Calm : (p : List ℕ) → Holds (Calm s) (handle_decide_request sys cli p s)
  unfolding handle_decide_request
  decide-Calm p = Holds-bind (Calm s) (u8_at p 4) _ λ accepted _.
      Holds-bind (Calm s) (u32_at p 0) _ λ target _.
        let s1 = if not (accepted == 0) then accept sys cli target s else s in
        let decided = if_both (Calm s) (not (accepted == 0)) _ s (accept-Calm target) calm in
        let listed = Calm-SendsOnly (Calm-db decided _) (lists-SendsOnly sys cli _) in
        if_both (Calm s) (not (accepted == 0)) _ _
          (Calm-SendsOnly listed (
            send_online-SendsOnly (send_contacts sys target) _
              (λ c. send_contacts-SendsOnly sys target c _) target))
          listed

  -- Messages other than login and update_user.
  pub handle-Calm :
      (now : ℕ) (t : MessageType) (p : List ℕ)
      → t ≢ login
      → t ≢ update_user
      → Holds (Calm s) (handle sys now cli t p s)
  unfolding handle handle_register handle_send_text handle_req_history handle_create_conv
      handle_req_conversations handle_update_group handle_add_member handle_req_members
      handle_delete_group handle_req_contacts handle_add_by_code handle_get_requests
  handle-Calm now register p nl nu = Holds-bind (Calm s) (text_at p 0) _ λ email _.
      Holds-bind (Calm s) (text_at p 64) _ λ username _.
        Holds-bind (Calm s) (text_at p 96) _
          λ password _. Calm-SendsOnly (Calm-with _ _ _) (send-SendsOnly cli _ _ _)
  handle-Calm now login p nl nu = absurd (nl refl)
  handle-Calm now update_user p nl nu = absurd (nu refl)
  handle-Calm now send_text p nl nu = Holds-bind (Calm s) (u32_at p 0) _ λ conv _.
      Holds-bind (Calm s) (text_at p 4) _
        λ text _. Calm-SendsOnly (Calm-with _ _ _) (route_all-SendsOnly cli conv text _ _)
  handle-Calm now req_history p nl nu = Holds-bind (Calm s) (u32_at p 0) _ λ conv _.
      Holds-bind (Calm s) (storage_get_history sys.libc sys.evp sys.sqlite s.key conv s.db) _
        λ hist _. Calm-SendsOnly calm (send-SendsOnly cli _ _ s)
  handle-Calm now create_conv p nl nu = Holds-bind (Calm s) (u8_at p 0) _ λ kind _.
      Holds-bind (Calm s) (u32_at p 97) _ λ count _.
        Holds-bind (Calm s) (claimed_uids sys count p) _ λ uids _.
          Holds-bind (Calm s) (text_at p 1) _ λ name _.
            Holds-bind (Calm s) (text_at p 33) _ λ desc _.
              let told = Calm-SendsOnly (only_db _) (send-SendsOnly cli _ _ _) in
              if_both (Calm s)
                ((find_or_create sys kind name desc uids s.db).2
                  && ltb 0 (find_or_create sys kind name desc uids s.db).1)
                _ _ (Calm-SendsOnly told (refresh_all-SendsOnly sys _ _)) told
  handle-Calm now req_conversations p nl nu =
      Calm-SendsOnly calm (send_conversations-SendsOnly sys cli.uid cli s)
  handle-Calm now update_group p nl nu = Holds-bind (Calm s) (u32_at p 0) _ λ conv _.
      if_both (Holds (Calm s)) (storage_is_admin sys.sqlite conv cli.uid s.db) _ (some s)
        (Holds-bind (Calm s) (text_at p 4) _ λ name _.
          Holds-bind (Calm s) (text_at p 36) _
            λ desc _. Calm-SendsOnly (only_db _) (notify_group_update-SendsOnly sys conv 0 _))
        calm
  handle-Calm now add_member p nl nu = Holds-bind (Calm s) (u32_at p 0) _ λ conv _.
      if_both (Holds (Calm s)) (storage_is_admin sys.sqlite conv cli.uid s.db) _ (some s)
        (Holds-bind (Calm s) (text_at p 4) _
          λ code _. seat_member-Calm conv (storage_get_uid_by_code sys.sqlite code s.db))
        calm
  handle-Calm now req_members p nl nu =
      Holds-bind (Calm s) (u32_at p 0) _ λ conv _. Calm-SendsOnly calm (send-SendsOnly cli _ _ s)
  handle-Calm now kick_member p nl nu = kick-Calm p
  handle-Calm now delete_group p nl nu = Holds-bind (Calm s) (u32_at p 0) _ λ conv _.
      if_both (Holds (Calm s)) (storage_is_admin sys.sqlite conv cli.uid s.db) _ (some s)
        (Calm-SendsOnly (only_db _) (refresh_all-SendsOnly sys _ _)) calm
  handle-Calm now req_contacts p nl nu =
      Calm-SendsOnly calm (send_contacts-SendsOnly sys cli.uid cli s)
  handle-Calm now add_by_code p nl nu =
      Holds-bind (Calm s) (text_at p 0) _
        λ code _. request_friend-Calm (storage_get_uid_by_code sys.sqlite code s.db)
  handle-Calm now get_requests p nl nu =
      Calm-SendsOnly calm (send_requests-SendsOnly sys cli.uid cli s)
  handle-Calm now decide_request p nl nu = decide-Calm p
  handle-Calm now _ p nl nu = calm
