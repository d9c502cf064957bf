-- ===== src/Server/Authority/Friends.antt =====
-- src/server/handlers/contact_handler.c issues permitted statements only.
use mo_t.Base.{
  ℕ, refl, not, Option, none, some, List, [], ◌∷◌, codes, ◌==◌, if◌then◌else◌, if_both, Holds,
  Holds-bind, arith,
}
use mo_t.Storage.Path.{DbPath, here, DbPath-trans}
use mo_t.Storage.Path.Operations.{
  add_request-DbPath, remove_request-DbPath, add_friendship-DbPath, create_conversation-DbPath,
  add_friendship-conversation_seq,
}
use mo_t.Storage.Users.{storage_get_uid_by_code}
use mo_t.Clients.{Client}
use mo_t.Protocol.Request.{u8_at, u32_at, text_at}
use mo_t.Server.State.{System, Server, send_conversations}
use mo_t.Server.State.Frame.{
  SendsOnly, SendsOnly-trans, send-SendsOnly, send_online-SendsOnly, send_conversations-SendsOnly,
}
use mo_t.Server.Friends.{
  send_contacts, send_requests, handle_req_contacts, handle_get_requests, request_friend,
  handle_add_by_code, accept_friend, accept, handle_decide_request,
}
use mo_t.Server.Authority.{Permitted, IsPermitted, SendsOnly-IsPermitted}

module _ (sys : System) where
  pub send_contacts-SendsOnly :
      (uid : ℕ) (c : Client) (s : Server) → SendsOnly s (send_contacts sys uid c s)
  unfolding send_contacts
  send_contacts-SendsOnly uid c s = send-SendsOnly c _ _ s

  pub send_requests-SendsOnly :
      (uid : ℕ) (c : Client) (s : Server) → SendsOnly s (send_requests sys uid c s)
  unfolding send_requests
  send_requests-SendsOnly uid c s = send-SendsOnly c _ _ s

  pub lists-SendsOnly :
      (cli : Client) (s : Server)
      → SendsOnly s (handle_get_requests sys cli (handle_req_contacts sys cli s))
  unfolding handle_get_requests handle_req_contacts
  lists-SendsOnly cli s =
      SendsOnly-trans (send_contacts-SendsOnly cli.uid cli s)
        (send_requests-SendsOnly cli.uid cli _)

module _ (sys : System) (s : Server) (cli : Client) where
  request_friend-IsPermitted :
      (target : Option ℕ) → IsPermitted sys s cli (request_friend sys cli target s)
  unfolding request_friend
  request_friend-IsPermitted none = SendsOnly-IsPermitted sys s cli here (send-SendsOnly cli _ _ s)
  request_friend-IsPermitted (some target) =
      let requested =
        add_request-DbPath sys.sqlite (Permitted sys s cli) cli.uid target s.db
          (λ ne. (refl, ne)) in
      if_both (IsPermitted sys s cli) _ _ _
        (SendsOnly-IsPermitted sys s cli requested (
          SendsOnly-trans (send-SendsOnly cli _ _ _) (
            send_online-SendsOnly (send_requests sys target) _
              (λ c. send_requests-SendsOnly sys target c _) target)))
        (SendsOnly-IsPermitted sys s cli requested (send-SendsOnly cli _ _ _))

  pub handle_add_by_code-IsPermitted :
      (p : List ℕ) → Holds (IsPermitted sys s cli) (handle_add_by_code sys cli p s)
  unfolding handle_add_by_code
  handle_add_by_code-IsPermitted p =
      Holds-bind (IsPermitted sys s cli) (text_at p 0) _
        λ code _. request_friend-IsPermitted (storage_get_uid_by_code sys.sqlite code s.db)

  accept_friend-DbPath :
      (target : ℕ) → DbPath (Permitted sys s cli) s.db (accept_friend sys cli.uid target s.db).0
  unfolding accept_friend
  accept_friend-DbPath target =
      let befriended =
        add_friendship-DbPath sys.sqlite (Permitted sys s cli) cli.uid target s.db refl in
      if_both (DbPath (Permitted sys s cli) s.db) _ _ _
        (DbPath-trans befriended (
          create_conversation-DbPath sys.sqlite (Permitted sys s cli) 0 (codes "Private Chat") []
            (cli.uid ∷ target ∷ []) _ tt
            (λ conv uid role later.
              omega (arith, add_friendship-conversation_seq sys.sqlite cli.uid target s.db))))
        befriended

  accept-IsPermitted : (target : ℕ) → IsPermitted sys s cli (accept sys cli target s)
  unfolding accept
  accept-IsPermitted target =
      if_both (IsPermitted sys s cli) _ _ _
        (SendsOnly-IsPermitted sys s cli (accept_friend-DbPath target) (
          SendsOnly-trans (send_conversations-SendsOnly sys cli.uid cli _) (
            send_online-SendsOnly (send_conversations sys target) _
              (λ c. send_conversations-SendsOnly sys target c _) target)))
        (accept_friend-DbPath target)

  pub handle_decide_request-IsPermitted :
      (p : List ℕ) → Holds (IsPermitted sys s cli) (handle_decide_request sys cli p s)
  unfolding handle_decide_request
  handle_decide_request-IsPermitted p =
      Holds-bind (IsPermitted sys s cli) (u8_at p 4) _ λ accepted _.
        Holds-bind (IsPermitted sys s cli) (u32_at p 0) _ λ target _.
          let s1 = if not (accepted == 0) then accept sys cli target s else s in
          let decided =
            SendsOnly-IsPermitted sys s cli
              (DbPath-trans
                (if_both (IsPermitted sys s cli) (not (accepted == 0)) _ s
                  (accept-IsPermitted target) here)
                (remove_request-DbPath sys.sqlite (Permitted sys s cli) target cli.uid s1.db refl))
              (lists-SendsOnly sys cli _) in
          if_both (IsPermitted sys s cli) (not (accepted == 0)) _ _
            (SendsOnly-IsPermitted sys s cli decided (
              send_online-SendsOnly (send_contacts sys target) _
                (λ c. send_contacts-SendsOnly sys target c _) target))
            decided
