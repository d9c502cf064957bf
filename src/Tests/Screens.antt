-- ===== src/Tests/Screens.antt =====
-- The theorems on the client at concrete states and packets.
use mo_t.Base.{
  ℕ, ◌≡◌, refl, ◌+◌, true, none, some, List, [], ◌∷◌, ◌++◌, codes, take, length, ◌>>=◌, arith,
  Holds, Yields,
}
use mo_t.Storage.Contacts.{ContactSummary}
use mo_t.Protocol.Types.{login_success, type_code, message_type, message_type-type_code}
use mo_t.Protocol.Request.{u32_at}
use mo_t.Protocol.Replies.{MyInfoPayload}
use mo_t.Protocol.Layout.{zeros}
use mo_t.Protocol.Wire.{packet}
use mo_t.Server.{dispatch}
use mo_t.ClientApp.Services.{Request, service_kick_member, service_login}
use mo_t.ClientApp.Services.Meaning.{kicks, meaning}
use mo_t.ClientApp.Services.Agreement.{dispatch-request_of}
use mo_t.ClientApp.State.{
  AppState, Client, app_init, app_append_history, app_remove_request, state_chat, update_app,
}
use mo_t.ClientApp.Network.{redraw, network_step, chars_at}
use mo_t.ClientApp.Keys.Input.{char}
use mo_t.ClientApp.Keys.Groups.{edit_profile}
use mo_t.ClientApp.Keys.{Event, received, idle, pressed, start_loop, client_run}
use mo_t.ClientApp.Invariant.{IsClient, IsHistory, app_append_history-IsHistory}
use mo_t.ClientApp.Invariant.Run.{start_loop-client_run-IsClient}
use mo_t.ClientApp.Typing.{typed, Delivered, client_run-typed}
use mo_t.ClientApp.Removal.{app_remove_request_lem}
use mo_t.ClientApp.Session.{
  Door, login_result, my_info_at, after_login, knock, menu_turn, logs_in, enters, resumed,
  save_session, takes,
}
use mo_t.ClientApp.Session.Resumed.{menu_turn-resumed}
use mo_t.ClientApp.Frozen.{cached}
use mo_t.ClientApp.Frozen.Run.{edit_profile-client_run}
use mo_t.ClientApp.Delivery.Lists.{contact_list, reply_bytes, store_reply, network_step-reply_bytes}
use mo_t.Tests.World.{sys, group_db, client, server}

dispatch-request_of_example :
    dispatch sys 0 (client 1) 28 (service_kick_member 1 2).payload (server group_db)
    ≡ meaning sys 0 1 (client 1) (server group_db) (kicks 1 2)
unfolding service_kick_member type_code
dispatch-request_of_example =
    dispatch-request_of sys 0 1 (client 1) (server group_db) (kicks 1 2) (service_kick_member 1 2)
      (omega arith, omega arith) refl

abbrev pub info : MyInfoPayload
info = record { uid = 0; username = []; email = []; friend_code = [] }

abbrev contact : ℕ → ContactSummary
contact uid = record { uid = uid; username = codes "bob"; is_online = 1 }

abbrev pub in_chat : Client
in_chat =
    update_app (λ a. record a { current_state = state_chat; current_conv_id = 1 })
      (start_loop 24 80 info none)

client_run-typed_example :
    Yields
      (Delivered true (codes "hi") in_chat)
      (client_run (typed true (codes "hi") ++ pressed true (char 10) [] [] ∷ []) in_chat)
unfolding start_loop app_init
client_run-typed_example =
    client_run-typed true (codes "hi") in_chat (omega arith, omega arith) refl refl refl refl tt
      (ground arith) (omega arith) (omega arith)

abbrev events : List Event
events =
    received true 33 (codes "[ada]: hi\n")
    ∷ pressed true (char 103) [] []
    ∷ idle
    ∷ pressed true (char 110) (codes "team") []
    ∷ []

start_loop-client_run-IsClient_example :
    Holds IsClient (client_run events (start_loop 24 80 info none))
start_loop-client_run-IsClient_example = start_loop-client_run-IsClient 24 80 info none events

edit_profile-client_run_example :
    Holds
      (λ s'. cached s'.app ≡ cached in_chat.app)
      (edit_profile (codes "eve") [] in_chat >>= λ s1. client_run events s1)
edit_profile-client_run_example = edit_profile-client_run (codes "eve") [] in_chat events

abbrev with_history : AppState
with_history = record app_init {
  chat_history = some (codes "a");
  chat_history_len = 1;
  chat_history_size = 2;
}

app_append_history-IsHistory_example :
    Yields
      (λ a'.
        (a'.chat_history ≡ some (codes "ab"))
        × IsHistory a'.chat_history a'.chat_history_len a'.chat_history_size
        × (record with_history {
          chat_history = a'.chat_history;
          chat_history_len = a'.chat_history_len;
          chat_history_size = a'.chat_history_size;
        }
            ≡ a'))
      (app_append_history true (codes "b") with_history)
app_append_history-IsHistory_example =
    app_append_history-IsHistory true (codes "b") with_history (omega arith, omega arith)

abbrev with_requests : AppState
with_requests = record app_init {
  requests = contact 1 ∷ contact 2 ∷ contact 3 ∷ [];
  requests_count = 3;
}

app_remove_request_lem_example :
    Yields
      (λ a'.
        (a'.requests_count + 1 ≡ 3)
        × (length a'.requests ≡ 3)
        × (take a'.requests_count a'.requests ≡ contact 1 ∷ contact 3 ∷ []))
      (app_remove_request 1 with_requests)
unfolding app_init
app_remove_request_lem_example =
    app_remove_request_lem 1 with_requests refl (omega arith) (omega arith)

network_step-reply_bytes_example :
    network_step true 11 (reply_bytes (contact_list (contact 2 ∷ []))) in_chat
    ≡ some (redraw (update_app (store_reply (contact_list (contact 2 ∷ []))) in_chat))
unfolding start_loop app_init type_code
network_step-reply_bytes_example =
    network_step-reply_bytes true in_chat (contact_list (contact 2 ∷ [])) refl refl (ground arith)

abbrev login_request : Request
login_request = service_login (codes "a@b") (codes "pw")

abbrev entered : Door
entered = record {
  sent = login_request ∷ [];
  session = save_session (takes 128) (codes "a@b") (codes "pw") none;
}

entering :
    menu_turn
      (logs_in (codes "a@b") (codes "pw") true (takes 128) (packet 5 (zeros 107) []))
      (record { sent = []; session = none })
    ≡ some (entered, enters info)
unfolding menu_turn login_result my_info_at u32_at chars_at after_login knock type_code
entering =
    let known : message_type 5 ≡ some login_success = message_type-type_code login_success in
    rw (known, menu_turn, login_result) refl

menu_turn-resumed_example :
    (resumed entered.session ≡ some login_request) × (entered.sent ≡ login_request ∷ [])
menu_turn-resumed_example =
    menu_turn-resumed (codes "a@b") (codes "pw") true (takes 128) (packet 5 (zeros 107) [])
      (record { sent = []; session = none }) entered info (ground arith) (ground arith) entering
