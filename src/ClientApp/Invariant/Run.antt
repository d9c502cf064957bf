-- ===== src/ClientApp/Invariant/Run.antt =====
-- The invariant of the client, over its runs.
use mo_t.Base.{Holds-bind}
use mo_t.ClientApp.ListScreens.{ui_draw_create_group_form}
use mo_t.ClientApp.Invariant.{Holds-draw_chat}
use mo_t.ClientApp.Keys.{draw_screen}
use mo_t.Base.{
  ℕ, Bool, Option, some, List, [], ◌∷◌, Text, if◌then◌else◌, is_some, if_both, Holds, Holds-chain,
  arith,
}
use mo_t.ClientApp.State.{
  UiState, state_home, state_create_group, state_chat, state_settings, state_friends,
  state_requests, state_group_settings, state_manage_members, Client, app_init, go,
}
use mo_t.Protocol.Replies.{MyInfoPayload}
use mo_t.ClientApp.Network.{redraw}
use mo_t.ClientApp.Keys.Input.{Key, find_conv}
use mo_t.ClientApp.Keys.{
  Event, received, idle, pressed, start_loop, leave_lost_group, render, on_key, client_step,
  client_run,
}
use mo_t.ClientApp.Invariant.{IsClient}
use mo_t.ClientApp.Invariant.Keys.{
  home_key-IsClient, chat_key-IsClient, create_key-IsClient, friends_key-IsClient,
  settings_key-IsClient, requests_key-IsClient, group_settings_key-IsClient, members_key-IsClient,
}
use mo_t.ClientApp.Invariant.Network.{network_step-IsClient}

draw_screen-IsClient :
    (screen : UiState) (s : Client) → IsClient s → Holds IsClient (draw_screen screen s)
unfolding draw_screen leave_lost_group go
draw_screen-IsClient state_chat s h = Holds-draw_chat IsClient s h
draw_screen-IsClient state_create_group s h =
    Holds-bind IsClient
      (ui_draw_create_group_form s.group_members_selected s.app.contacts s.group_selection_idx 0) _
      (λ rows e. h)
draw_screen-IsClient state_group_settings s h =
    if_both IsClient (is_some (find_conv s.app.current_conv_id s.app.conversations)) _ _ h h
draw_screen-IsClient _ s h = h

render-IsClient : (s : Client) → IsClient s → Holds IsClient (render s)
unfolding render
render-IsClient s h =
    if_both (Holds IsClient) s.app.needs_redraw _ _
      (Holds-chain IsClient IsClient (draw_screen s.app.current_state s) _
        (draw_screen-IsClient s.app.current_state s h) (λ s' h'. h'))
      h

on_key-IsClient :
    (screen : UiState) (m : Bool) (k : Key) (a b : Text) (s : Client)
    → IsClient s
    → Holds IsClient (on_key screen m k a b s)
unfolding on_key
on_key-IsClient state_home m k a b s h = home_key-IsClient k s h
on_key-IsClient state_chat m k a b s h = chat_key-IsClient m k s h
on_key-IsClient state_create_group m k a b s h = create_key-IsClient k a s h
on_key-IsClient state_friends m k a b s h = friends_key-IsClient k a s h
on_key-IsClient state_settings m k a b s h = settings_key-IsClient m k a b s h
on_key-IsClient state_requests m k a b s h = requests_key-IsClient k s h
on_key-IsClient state_group_settings m k a b s h = group_settings_key-IsClient k s h
on_key-IsClient state_manage_members m k a b s h = members_key-IsClient k s h
on_key-IsClient _ m k a b s h = h

-- A step keeps the invariant.
pub client_step-IsClient : (e : Event) (s : Client) → IsClient s → Holds IsClient (client_step e s)
unfolding client_step redraw
client_step-IsClient (received m n p) s h = network_step-IsClient m n p s h
client_step-IsClient idle s h = render-IsClient s h
client_step-IsClient (pressed m k a b) s h =
    Holds-chain IsClient IsClient (render s) _ (render-IsClient s h)
      (λ s' h'. on_key-IsClient (redraw s').app.current_state m k a b (redraw s') h')

pub client_run-IsClient :
    (es : List Event) (s : Client) → IsClient s → Holds IsClient (client_run es s)
unfolding client_run
client_run-IsClient [] s h = h
client_run-IsClient (e ∷ es) s h =
    Holds-chain IsClient IsClient (if s.running then client_step e s else some s) _
      (if_both (Holds IsClient) s.running _ _ (client_step-IsClient e s h) h)
      (λ s' h'. client_run-IsClient es s' h')

start_loop-IsClient :
    (height width : ℕ) (info : MyInfoPayload) (session : Option (List ℕ))
    → IsClient (start_loop height width info session)
unfolding start_loop app_init
start_loop-IsClient height width info session = ground arith

-- In every run of the client from the start of its loop, over any keys, prompts and packets, as
-- long as it meets no undefined behaviour: the line that is typed is printable and below 1024
-- bytes, the string of the history is no longer than its length is kept and fits its buffer with
-- the NUL, no more requests are counted than there are, and the group has a name of at most 31 and
-- a description of at most 63 bytes and 100 marks.
pub start_loop-client_run-IsClient :
    (height width : ℕ) (info : MyInfoPayload) (session : Option (List ℕ)) (es : List Event)
    → Holds IsClient (client_run es (start_loop height width info session))
start_loop-client_run-IsClient height width info session es =
    client_run-IsClient es _ (start_loop-IsClient height width info session)
