-- ===== src/ClientApp/Keys/Talk.antt =====
-- The keys of STATE_HOME and STATE_CHAT in src/client/main.c.
use mo_t.Base.{
  ℕ, zero, suc, ◌-◌, Bool, false, ◌&&◌, ◌||◌, Option, none, some, List, [], ◌∷◌, ◌++◌, Text, codes,
  strncpy, snprintf, length, take, get_elem?, ltb, leb, ◌==◌, if◌then◌else◌, ◌>>=◌,
}
use mo_t.Storage.Conversations.{ConversationSummary}
use mo_t.ClientApp.Services.{
  service_refresh_contacts, service_refresh_requests, service_req_history,
  service_req_conversations, service_send_text,
}
use mo_t.ClientApp.State.{
  state_home, state_chat, state_create_group, state_friends, state_settings, state_group_settings,
  Client, lock, app_append_history, issue, issue_some, go, update_app,
}
use mo_t.ClientApp.Keys.Input.{
  Key, key_down, key_up, key_backspace, key_f1, char, letter, is_enter, move_down, move_up,
  find_conv,
}

abbrev pub nobody_selected : List Bool
nobody_selected = repeat 100
  where
    repeat : ℕ → List Bool
    repeat zero = []
    repeat (suc n) = false ∷ repeat n

unfoldable pub clear_unread : ℕ → List ConversationSummary → List ConversationSummary
clear_unread i [] = []
clear_unread zero (c ∷ cs) = record c { unread_count = 0 } ∷ cs
clear_unread (suc i) (c ∷ cs) = c ∷ clear_unread i cs

-- Enter on a conversation. `conversations[selection]` may lie outside of the array.
unfoldable pub open_chat : Client → Option Client
open_chat s = do
  c ← get_elem? s.app.conversations s.selection
  a ← lock s.app
  some (
      issue (service_req_history c.conv_id) (record s {
        app = record a {
          current_conv_id = c.conv_id;
          current_conv_name = strncpy 32 c.name;
          chat_history = none;
          chat_history_len = 0;
          conversations = clear_unread s.selection a.conversations;
          current_state = state_chat;
        };
      }))

unfoldable pub home_char : ℕ → Client → Option Client
home_char c s =
    if c == 113
    then some (record s { running = false })
    else if letter 103 c
    then some (
        go state_create_group (record s {
          group_selection_idx = 0;
          group_members_selected = nobody_selected;
          group_name_buf = codes "My Group";
          group_desc_buf = [];
        }))
    else if letter 102 c
    then some (
        issue service_refresh_requests
          (issue service_refresh_contacts (go state_friends (record s { selection = 0 }))))
    else if is_enter c && ltb 0 (length s.app.conversations)
    then open_chat s
    else if letter 115 c
    then some (go state_settings s)
    else some s

unfoldable pub home_key : Key → Client → Option Client
home_key key_down s =
    some (record s { selection = move_down (length s.app.conversations) s.selection })
home_key key_up s = some (record s { selection = move_up s.selection })
home_key (char c) s = home_char c s
home_key _ s = some s

-- "Me: %s\n" in a buffer of 1200 bytes.
unfoldable pub own_line : Text → Text
own_line text = snprintf 1200 (77 ∷ 101 ∷ 58 ∷ 32 ∷ text ++ 10 ∷ [])

unfoldable pub send_line : Bool → Client → Option Client
send_line allocated s = do
  a ← lock s.app
  a' ← app_append_history allocated (own_line a.chat_input_buffer) a
  some (
      issue_some (service_send_text a.current_conv_id a.chat_input_buffer)
        (record s { app = record a' { chat_input_buffer = [] } }))

unfoldable pub delete_last : Text → Text
delete_last text = take (length text - 1) text

-- MAX_TEXT_LEN is 1024.
unfoldable pub type_char : ℕ → Text → Text
type_char c text = if leb 32 c && leb c 126 && ltb (length text) 1023 then text ++ c ∷ [] else text

abbrev edit : (Text → Text) → Client → Client
edit f s = update_app (λ a. record a { chat_input_buffer = f a.chat_input_buffer }) s

unfoldable pub chat_char : Bool → ℕ → Client → Option Client
chat_char allocated c s =
    if c == 27
    then some (issue service_req_conversations (go state_home (edit (λ _. []) s)))
    else if is_enter c
    then (if ltb 0 (length s.app.chat_input_buffer) then send_line allocated s else some s)
    else if c == 127 || c == 8
    then some (edit delete_last s)
    else some (edit (type_char c) s)

-- F1: the settings of a group.
unfoldable pub open_settings : Option ConversationSummary → Client → Client
open_settings none s = s
open_settings (some c) s = if c.kind == 1 then go state_group_settings s else s

unfoldable pub chat_key : Bool → Key → Client → Option Client
chat_key allocated key_f1 s =
    some (open_settings (find_conv s.app.current_conv_id s.app.conversations) s)
chat_key allocated key_backspace s = some (edit delete_last s)
chat_key allocated (char c) s = chat_char allocated c s
chat_key allocated _ s = some s
