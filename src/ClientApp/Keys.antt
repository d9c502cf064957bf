-- ===== src/ClientApp/Keys.antt =====
-- The loop of main in src/client/main.c with the network thread beside it: a run is a sequence of
-- packets and of turns of the loop. Each of them is one step.
pub mod Input
pub mod Talk
pub mod People
pub mod Groups
use mo_t.Base.{
  ℕ, Bool, true, false, Option, none, some, List, [], ◌∷◌, ◌++◌, Text, is_some, if◌then◌else◌,
  ◌>>=◌,
}
use mo_t.Protocol.Replies.{MyInfoPayload}
use mo_t.ClientApp.Services.{
  service_refresh_contacts, service_refresh_requests, service_req_conversations,
}
use mo_t.ClientApp.State.{
  UiState, state_home, state_create_group, state_chat, state_settings, state_friends,
  state_requests, state_group_settings, state_manage_members, AppState, Client, app_init, issue, go,
  update_app,
}
use mo_t.ClientApp.ListScreens.{ui_draw_create_group_form}
use mo_t.ClientApp.Network.{network_step, redraw, draw_chat}
use mo_t.Base.{codes}
use Input.{Key, find_conv}
use Talk.{home_key, chat_key, nobody_selected}
use People.{create_key, friends_key, requests_key}
use Groups.{settings_key, group_settings_key, members_key}

-- A packet with its type and payload; a turn without a key; a turn with a key, with what a prompt
-- would read. The Bool is whether the system grants what the step asks for: memory for a line of the
-- history, or the removal of the file of the session.
pub data Event : Type 0 where
  received : Bool → ℕ → List ℕ → Event
  idle : Event
  pressed : Bool → Key → Text → Text → Event

-- main behind the authentication.
unfoldable pub start_loop : ℕ → ℕ → MyInfoPayload → Option (List ℕ) → Client
start_loop height width info session = record {
  app = record app_init { my_info = info; needs_redraw = true; current_state = state_home };
  selection = 0;
  group_selection_idx = 0;
  group_members_selected = nobody_selected;
  group_name_buf = codes "New Group";
  group_desc_buf = codes "Description";
  sent = service_refresh_contacts ∷ service_refresh_requests ∷ service_req_conversations ∷ [];
  session = session;
  stalled = false;
  running = true;
  height = height;
  width = width;
}

-- The settings of a group that is gone are left.
unfoldable pub leave_lost_group : Client → Client
leave_lost_group s =
    if is_some (find_conv s.app.current_conv_id s.app.conversations) then s else go state_home s

-- The drawing of a screen, which changes nothing but that. The other screens read their lists within
-- their counts.
unfoldable pub draw_screen : UiState → Client → Option Client
draw_screen state_chat s = draw_chat s
draw_screen state_create_group s = do
  _ ← ui_draw_create_group_form s.group_members_selected s.app.contacts s.group_selection_idx 0
  some s
draw_screen state_group_settings s = some (leave_lost_group s)
draw_screen _ s = some s

-- The flag ends at 0.
unfoldable pub render : Client → Option Client
render s =
    if s.app.needs_redraw
    then (do
      s' ← draw_screen s.app.current_state s
      some (update_app (λ a. record a { needs_redraw = false }) s'))
    else some s

unfoldable pub on_key : UiState → Bool → Key → Text → Text → Client → Option Client
on_key state_home allocated key a b s = home_key key s
on_key state_chat allocated key a b s = chat_key allocated key s
on_key state_create_group allocated key a b s = create_key key a s
on_key state_friends allocated key a b s = friends_key key a s
on_key state_settings allocated key a b s = settings_key allocated key a b s
on_key state_requests allocated key a b s = requests_key key s
on_key state_group_settings allocated key a b s = some (group_settings_key key s)
on_key state_manage_members allocated key a b s = members_key key s
on_key _ allocated key a b s = some s

-- One event, while the loop runs. `none` is undefined behaviour.
unfoldable pub client_step : Event → Client → Option Client
client_step (received allocated type_value payload) s = network_step allocated type_value payload s
client_step idle s = render s
client_step (pressed granted key a b) s = do
  s' ← render s
  let s'' = redraw s'
  on_key s''.app.current_state granted key a b s''

unfoldable pub client_run : List Event → Client → Option Client
client_run [] s = some s
client_run (e ∷ es) s = do s' ← if s.running then client_step e s else some s; client_run es s'
