-- ===== src/ClientApp/Network.antt =====
-- network_thread of src/client/main.c. A payload is the buffer of `recv_packet`; an empty one is NULL.
-- `none` is undefined behaviour: a read outside of the payload or through NULL.
use mo_t.Base.{
  ℕ, zero, suc, ◌+◌, ◌/◌, ◌%◌, ◌^◌, Bool, true, false, Option, none, some, List, [], ◌∷◌, ◌++◌,
  Text, c_str, snprintf, length, take, drop, ltb, ◌==◌, if◌then◌else◌, ◌>>=◌,
}
use mo_t.Storage.Contacts.{ContactSummary}
use mo_t.Storage.Conversations.{ConversationSummary, GroupMemberSummary}
use mo_t.Protocol.Types.{
  MessageType, message_type, resp_conversations, conv_created, rte_text, resp_history,
  resp_contacts, resp_requests, resp_members, add_req_sent, add_success,
}
use mo_t.Protocol.Request.{buffer, u8_at, u32_at, text_at}
use mo_t.ClientApp.ChatScreen.{ui_draw_chat}
use mo_t.ClientApp.Services.{service_req_conversations, service_refresh_contacts}
use mo_t.ClientApp.State.{
  UiState, state_chat, AppState, Client, app_append_history, issue, update_app,
}

-- A char array of n bytes, read as a C string within the array.
unfoldable pub chars_at : ℕ → List ℕ → ℕ → Text
chars_at n buf off = take n (c_str (drop off buf))

-- The structs of include/system/protocol.h, off the front of some bytes.
unfoldable pub contact_at : List ℕ → Option ContactSummary
contact_at buf = do
  uid ← u32_at buf 0
  is_online ← u32_at buf 36
  some (record { uid = uid; username = chars_at 32 buf 4; is_online = is_online })

unfoldable pub conversation_at : List ℕ → Option ConversationSummary
conversation_at buf = do
  conv_id ← u32_at buf 0
  kind ← u8_at buf 4
  unread_count ← u32_at buf 101
  my_role ← u8_at buf 105
  some (record {
    conv_id = conv_id;
    kind = kind;
    name = chars_at 32 buf 5;
    description = chars_at 64 buf 37;
    unread_count = unread_count;
    my_role = my_role;
  })

unfoldable pub member_at : List ℕ → Option GroupMemberSummary
member_at buf = do
  uid ← u32_at buf 0
  role ← u8_at buf 36
  some (record { uid = uid; username = chars_at 32 buf 4; role = role })

-- An array of structs of a size.
unfoldable pub structs_at {ℓ} :
    {A : Type ℓ} → (List ℕ → Option A) → ℕ → ℕ → List ℕ → Option (List A)
structs_at read size zero buf = some []
structs_at read size (suc count) buf = do
  first ← read buf
  rest ← structs_at read size count (drop size buf)
  some (first ∷ rest)

unfoldable pub redraw : Client → Client
redraw s = update_app (λ a. record a { needs_redraw = true }) s

-- pthread_mutex_lock(&app.state_lock) by the network thread: it waits while main holds the lock.
unfoldable pub with_lock : (Client → Option Client) → Client → Option Client
with_lock act s = if s.app.locked then some (record s { stalled = true }) else act s

-- A reply that is an array takes the place of the one before.
unfoldable pub receive_array {ℓ} :
    {A : Type ℓ}
    → (List ℕ → Option A)
    → ℕ
    → (List A → AppState → AppState)
    → ℕ
    → List ℕ
    → Client
    → Option Client
receive_array read size store count p = with_lock (λ s. do
  items ← structs_at read size count (buffer p)
  some (redraw (update_app (store items) s)))

unfoldable pub store_contacts : List ContactSummary → AppState → AppState
store_contacts items a = record a { contacts = items }

unfoldable pub store_requests : List ContactSummary → AppState → AppState
store_requests items a = record a { requests = items; requests_count = length items }

unfoldable pub store_conversations : List ConversationSummary → AppState → AppState
store_conversations items a = record a { conversations = items }

unfoldable pub store_members : List GroupMemberSummary → AppState → AppState
store_members items a = record a { current_group_members = items }

unfoldable pub store_history : List ℕ → AppState → AppState
store_history p a = record a {
  chat_history = some (c_str p);
  chat_history_size = length p + 1;
  chat_history_len = length p;
}

unfoldable pub in_chat : UiState → Bool
in_chat state_chat = true
in_chat _ = false

-- The first conversation with an id has one more unread message.
unfoldable pub count_unread : ℕ → List ConversationSummary → List ConversationSummary
count_unread id [] = []
count_unread id (c ∷ cs) =
    let rest = count_unread id cs in
    if c.conv_id == id
    then record c { unread_count = (c.unread_count + 1) % 2 ^ 32 } ∷ cs
    else c ∷ rest

-- "[%s]: %s\n" in a buffer of 1200 bytes.
unfoldable pub chat_line : Text → Text → Text
chat_line username text = snprintf 1200 (91 ∷ username ++ (93 ∷ 58 ∷ 32 ∷ text ++ 10 ∷ []))

-- Whether the message belongs to the chat on the screen: the payload is read in the chat only.
unfoldable pub is_here : List ℕ → AppState → Option Bool
is_here buf a =
    if in_chat a.current_state
    then (do id ← u32_at buf 0; some (id == a.current_conv_id))
    else some false

unfoldable pub mark_unread : List ℕ → List ConversationSummary → Option (List ConversationSummary)
mark_unread buf [] = some []
mark_unread buf (c ∷ cs) = do id ← u32_at buf 0; some (count_unread id (c ∷ cs))

-- An array of some size as the string that `%s` prints. `none`: it has no NUL.
unfoldable pub terminated : ℕ → Text → Option Text
terminated size text = if ltb (length text) size then some text else none

-- `app.chat_history ? app.chat_history : ""`.
unfoldable pub history_text : Option Text → Text
history_text none = []
history_text (some text) = text

-- ui_draw_chat(app.current_conv_name, …): nothing of the state changes.
unfoldable pub draw_chat : Client → Option Client
draw_chat s = do
  name ← terminated 32 s.app.current_conv_name
  _ ← ui_draw_chat s.height s.width name (history_text s.app.chat_history) s.app.chat_input_buffer
  some s

-- MSG_RESP_HISTORY: drawn where the chat is on the screen.
unfoldable pub receive_history : List ℕ → Client → Option Client
receive_history p s = do
  let s' = update_app (store_history p) s
  s'' ← if in_chat s'.app.current_state then draw_chat s' else some s'
  some (redraw s'')

-- RoutedMessagePayload: conv_id, sender_username and text at 0, 8 and 40.
unfoldable pub receive_text : Bool → List ℕ → Client → Option Client
receive_text allocated buf s = do
  here ← is_here buf s.app
  if here
      then (do
        username ← text_at buf 8
        text ← text_at buf 40
        a ← app_append_history allocated (chat_line username text) s.app
        s' ← draw_chat (record s { app = a })
        some (redraw s'))
      else (do
        conversations' ← mark_unread buf s.app.conversations
        some (redraw (update_app (λ a. record a { conversations = conversations' }) s)))

-- The switch. The payload is NULL in the first clauses; a type that is no reply is passed over.
unfoldable pub on_packet : Bool → MessageType → List ℕ → Client → Option Client
on_packet allocated conv_created p s = some (redraw (issue service_req_conversations s))
on_packet allocated add_req_sent p s = some (redraw s)
on_packet allocated add_success p s = some (issue service_refresh_contacts s)
on_packet allocated rte_text p s = with_lock (receive_text allocated (buffer p)) s
on_packet allocated resp_conversations [] s = some (redraw s)
on_packet allocated resp_conversations p s =
    receive_array conversation_at 106 store_conversations (length p / 106) p s
on_packet allocated resp_history (b ∷ p) s = with_lock (receive_history (b ∷ p)) s
on_packet allocated resp_contacts (b ∷ p) s =
    receive_array contact_at 40 store_contacts (length (b ∷ p) / 40) (b ∷ p) s
on_packet allocated resp_requests (b ∷ p) s =
    receive_array contact_at 40 store_requests (length (b ∷ p) / 40) (b ∷ p) s
on_packet allocated resp_members (b ∷ p) s =
    receive_array member_at 37 store_members (length (b ∷ p) / 37) (b ∷ p) s
on_packet allocated _ p s = some s

-- A packet off the wire; one behind a packet that waits is not read.
unfoldable pub network_step : Bool → ℕ → List ℕ → Client → Option Client
network_step allocated type_value payload s =
    if s.stalled
    then some s
    else elim (message_type type_value) [ none ↦ some s | some t ↦ on_packet allocated t payload s ]
