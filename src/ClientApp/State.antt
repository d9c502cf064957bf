-- ===== src/ClientApp/State.antt =====
-- The state of the client: src/client/client_context.c and the locals of main in src/client/main.c.
-- An array with its count is a list. `app.requests` alone keeps its count: the array is longer once
-- a request is gone. The C string of `chat_history` stands with the bytes allocated for it.
use mo_t.Base.{
  ℕ, zero, suc, ◌+◌, ◌-◌, Bool, true, false, Option, none, some, List, [], ◌∷◌, ◌++◌, Text, length,
  ltb, if◌then◌else◌, ◌>>=◌,
}
use mo_t.Storage.Contacts.{ContactSummary}
use mo_t.Storage.Conversations.{ConversationSummary, GroupMemberSummary}
use mo_t.Protocol.Replies.{MyInfoPayload}
use mo_t.ClientApp.Services.{Request}

-- UIState of include/infrastructure/ui.h.
pub data UiState : Type 0 where
  state_start state_register state_login state_home state_create_group state_chat : UiState
  state_settings state_friends state_requests state_group_settings state_manage_members : UiState

-- `app`, without its connection. `locked` is set while `state_lock` is held by main for good.
pub record AppState : Type 0 where
  pub current_state : UiState
  pub needs_redraw : Bool
  pub my_info : MyInfoPayload
  pub contacts : List ContactSummary
  pub requests : List ContactSummary
  pub requests_count : ℕ
  pub conversations : List ConversationSummary
  pub current_group_members : List GroupMemberSummary
  pub member_selection_idx : ℕ
  pub current_conv_id : ℕ
  pub current_conv_name : Text
  pub chat_history : Option Text
  pub chat_history_size : ℕ
  pub chat_history_len : ℕ
  pub chat_input_buffer : Text
  pub locked : Bool

unfoldable pub app_init : AppState
app_init = record {
  current_state = state_start;
  needs_redraw = false;
  my_info = record { uid = 0; username = []; email = []; friend_code = [] };
  contacts = [];
  requests = [];
  requests_count = 0;
  conversations = [];
  current_group_members = [];
  member_selection_idx = 0;
  current_conv_id = 0;
  current_conv_name = [];
  chat_history = none;
  chat_history_size = 0;
  chat_history_len = 0;
  chat_input_buffer = [];
  locked = false;
}

-- pthread_mutex_lock(&app.state_lock) by main: undefined where main holds the lock.
unfoldable pub lock : AppState → Option AppState
lock a = if a.locked then none else some a

-- The loop of `app_remove_request` from an index on: each element takes the place of the one before.
unfoldable pub shift_left {ℓ} : {A : Type ℓ} → ℕ → List A → List A
shift_left (suc n) (x ∷ y ∷ xs) = y ∷ shift_left n (y ∷ xs)
shift_left _ xs = xs

unfoldable pub shift_from {ℓ} : {A : Type ℓ} → ℕ → ℕ → List A → List A
shift_from zero n xs = shift_left n xs
shift_from (suc i) n [] = []
shift_from (suc i) n (x ∷ xs) = x ∷ shift_from i n xs

unfoldable pub app_remove_request : ℕ → AppState → Option AppState
app_remove_request index a = do
  a' ← lock a
  some (
      if ltb index a'.requests_count
      then record a' {
        requests = shift_from index (a'.requests_count - 1 - index) a'.requests;
        requests_count = a'.requests_count - 1;
      }
      else a')

-- `strcat` behind a string in a buffer. `none` is a write past its end.
unfoldable pub strcat : ℕ → Text → Text → Option Text
strcat size old text = if ltb (length old + length text) size then some (old ++ text) else none

-- The two ways of `app_append_history`. Whether strdup or realloc finds memory is given.
unfoldable pub append_to : Bool → Text → Option Text → AppState → Option AppState
append_to allocated text none a = some (record a {
  chat_history = if allocated then some text else none;
  chat_history_size = length text + 1;
  chat_history_len = length text;
})
append_to false text (some old) a = some a
append_to true text (some old) a =
    let total = a.chat_history_len + length text + 1 in
    do
      new ← strcat total old text
      some (record a {
        chat_history = some new;
        chat_history_size = total;
        chat_history_len = a.chat_history_len + length text;
      })

unfoldable pub app_append_history : Bool → Text → AppState → Option AppState
app_append_history allocated text a = append_to allocated text a.chat_history a

-- main: `app`, the locals of the loop, the packets sent, the file of the session, whether the network
-- thread waits for the lock for good, and the size of the window.
pub record Client : Type 0 where
  pub app : AppState
  pub selection : ℕ
  pub group_selection_idx : ℕ
  pub group_members_selected : List Bool
  pub group_name_buf : Text
  pub group_desc_buf : Text
  pub sent : List Request
  pub session : Option (List ℕ)
  pub stalled : Bool
  pub running : Bool
  pub height : ℕ
  pub width : ℕ

unfoldable pub issue : Request → Client → Client
issue r s = record s { sent = s.sent ++ r ∷ [] }

-- A service that sends nothing on some arguments.
unfoldable pub issue_some : Option Request → Client → Client
issue_some none s = s
issue_some (some r) s = issue r s

-- The screen.
unfoldable pub go : UiState → Client → Client
go screen s = record s { app = record s.app { current_state = screen } }

abbrev pub update_app : (AppState → AppState) → Client → Client
update_app f s = record s { app = f s.app }
