-- ===== src/Server/Authority/Dispatch.antt =====
-- The dispatcher of src/server/main.c issues permitted statements only.
use mo_t.Base.{ℕ, List, Holds, Option-cases, inl, inr}
use mo_t.Storage.Path.{here}
use mo_t.Clients.{Client}
use mo_t.Protocol.Types.{
  MessageType, message_type, register, login, update_user, send_text, req_history, create_conv,
  req_conversations, update_group, add_member, req_members, kick_member, delete_group, req_contacts,
  add_by_code, get_requests, decide_request,
}
use mo_t.Protocol.Request.{buffer}
use mo_t.Server.{handle, dispatch}
use mo_t.Server.State.{System, Server}
use mo_t.Server.State.Frame.{send_conversations-SendsOnly}
use mo_t.Server.Groups.{handle_req_conversations}
use mo_t.Server.Friends.{handle_req_contacts, handle_get_requests}
use mo_t.Server.Authority.{IsPermitted, SendsOnly-IsPermitted}
use mo_t.Server.Authority.Accounts.{
  handle_register-IsPermitted, handle_login-IsPermitted, handle_update_user-IsPermitted,
}
use mo_t.Server.Authority.Messages.{handle_send_text-IsPermitted, handle_req_history-IsPermitted}
use mo_t.Server.Authority.Groups.{
  handle_create_conv-IsPermitted, handle_update_group-IsPermitted, handle_add_member-IsPermitted,
  handle_req_members-IsPermitted, handle_kick_member-IsPermitted, handle_delete_group-IsPermitted,
}
use mo_t.Server.Authority.Friends.{
  send_contacts-SendsOnly, send_requests-SendsOnly, handle_add_by_code-IsPermitted,
  handle_decide_request-IsPermitted,
}

module _ (sys : System) (s : Server) (cli : Client) where
  handle-IsPermitted :
      (now : ℕ) (t : MessageType) (p : List ℕ)
      → Holds (IsPermitted sys s cli) (handle sys now cli t p s)
  unfolding handle handle_req_conversations handle_req_contacts handle_get_requests
  handle-IsPermitted now register p = handle_register-IsPermitted sys s cli p
  handle-IsPermitted now login p = handle_login-IsPermitted sys s cli p
  handle-IsPermitted now update_user p = handle_update_user-IsPermitted sys s cli p
  handle-IsPermitted now send_text p = handle_send_text-IsPermitted sys s cli now p
  handle-IsPermitted now req_history p = handle_req_history-IsPermitted sys s cli p
  handle-IsPermitted now create_conv p = handle_create_conv-IsPermitted sys s cli p
  handle-IsPermitted now req_conversations p =
      SendsOnly-IsPermitted sys s cli here (send_conversations-SendsOnly sys cli.uid cli s)
  handle-IsPermitted now update_group p = handle_update_group-IsPermitted sys s cli p
  handle-IsPermitted now add_member p = handle_add_member-IsPermitted sys s cli p
  handle-IsPermitted now req_members p = handle_req_members-IsPermitted sys s cli p
  handle-IsPermitted now kick_member p = handle_kick_member-IsPermitted sys s cli p
  handle-IsPermitted now delete_group p = handle_delete_group-IsPermitted sys s cli p
  handle-IsPermitted now req_contacts p =
      SendsOnly-IsPermitted sys s cli here (send_contacts-SendsOnly sys cli.uid cli s)
  handle-IsPermitted now add_by_code p = handle_add_by_code-IsPermitted sys s cli p
  handle-IsPermitted now get_requests p =
      SendsOnly-IsPermitted sys s cli here (send_requests-SendsOnly sys cli.uid cli s)
  handle-IsPermitted now decide_request p = handle_decide_request-IsPermitted sys s cli p
  handle-IsPermitted now _ p = here

  -- Whatever number and bytes a client sends, if the server goes on at all then each statement that
  -- went through on the way is one that `Permitted` grants to that client.
  pub dispatch-IsPermitted :
      (now type_value : ℕ) (payload : List ℕ)
      → Holds (IsPermitted sys s cli) (dispatch sys now cli type_value payload s)
  unfolding dispatch
  dispatch-IsPermitted now type_value payload = elim (Option-cases (message_type type_value)) [
    | inl e ↦ rw (e, dispatch) here
    | inr (t, e) ↦ rw (e, dispatch) (handle-IsPermitted now t (buffer payload))
  ]
