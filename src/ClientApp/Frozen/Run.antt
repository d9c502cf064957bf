-- ===== src/ClientApp/Frozen/Run.antt =====
-- What the client shows after the profile prompts, over its runs.
use mo_t.Base.{
  ℕ, ◌≡◌, refl, Bool, is_some, Option, none, some, List, [], ◌∷◌, Text, length, take, ltb, ◌||◌,
  if◌then◌else◌, ◌>>=◌, if_both, Holds, Holds-chain, Holds-map,
}
use mo_t.Protocol.Types.{MessageType, message_type}
use mo_t.ClientApp.State.{AppState, Client, issue, go}
use mo_t.ClientApp.Keys.Groups.{edit_profile}
use mo_t.ClientApp.Keys.Input.{Key, find_conv}
use mo_t.Protocol.Types.{
  MessageType, message_type, resp_conversations, conv_created, rte_text, resp_history,
  resp_contacts, resp_requests, resp_members, add_req_sent, add_success,
}
use mo_t.ClientApp.State.{
  UiState, state_home, state_create_group, state_chat, state_settings, state_friends,
  state_requests, state_group_settings, state_manage_members,
}
use mo_t.ClientApp.Network.{redraw, with_lock, receive_array, on_packet, network_step}
use mo_t.ClientApp.Keys.{
  Event, received, idle, pressed, leave_lost_group, render, on_key, client_step, client_run,
}
use mo_t.ClientApp.Invariant.{Holds-lock, Holds-draw_chat}
use mo_t.ClientApp.ListScreens.{ui_draw_create_group_form}
use mo_t.ClientApp.Keys.{draw_screen}
use mo_t.Base.{Holds-bind}
use mo_t.ClientApp.Frozen.{
  cached, IsFrozen, home_key-IsFrozen, chat_key-IsFrozen, create_key-IsFrozen, friends_key-IsFrozen,
  settings_key-IsFrozen, requests_key-IsFrozen, group_settings_key-IsFrozen, members_key-IsFrozen,
}

module _ (a : AppState) where
  with_lock-IsFrozen :
      (act : Client → Option Client) (s : Client)
      → IsFrozen a s
      → Holds (IsFrozen a) (with_lock act s)
  unfolding with_lock
  with_lock-IsFrozen act s h = rw (h.0, with_lock) (refl, h.1)

  on_packet-IsFrozen :
      (m : Bool) (t : MessageType) (p : List ℕ) (s : Client)
      → IsFrozen a s
      → Holds (IsFrozen a) (on_packet m t p s)
  unfolding on_packet redraw issue receive_array
  on_packet-IsFrozen m conv_created p s h = h
  on_packet-IsFrozen m add_req_sent p s h = h
  on_packet-IsFrozen m add_success p s h = h
  on_packet-IsFrozen m rte_text p s h = with_lock-IsFrozen _ s h
  on_packet-IsFrozen m resp_conversations [] s h = h
  on_packet-IsFrozen m resp_conversations (b ∷ p) s h = with_lock-IsFrozen _ s h
  on_packet-IsFrozen m resp_history [] s h = h
  on_packet-IsFrozen m resp_history (b ∷ p) s h = with_lock-IsFrozen _ s h
  on_packet-IsFrozen m resp_contacts [] s h = h
  on_packet-IsFrozen m resp_contacts (b ∷ p) s h = with_lock-IsFrozen _ s h
  on_packet-IsFrozen m resp_requests [] s h = h
  on_packet-IsFrozen m resp_requests (b ∷ p) s h = with_lock-IsFrozen _ s h
  on_packet-IsFrozen m resp_members [] s h = h
  on_packet-IsFrozen m resp_members (b ∷ p) s h = with_lock-IsFrozen _ s h
  on_packet-IsFrozen m _ p s h = h

  network_step-IsFrozen :
      (m : Bool) (n : ℕ) (p : List ℕ) (s : Client)
      → IsFrozen a s
      → Holds (IsFrozen a) (network_step m n p s)
  unfolding network_step
  network_step-IsFrozen m n p s h =
      if_both (Holds (IsFrozen a)) s.stalled _ _ h (by_type (message_type n))
    where
      by_type :
          (o : Option MessageType)
          → Holds (IsFrozen a) (elim o [ none ↦ some s | some t ↦ on_packet m t p s ])
      by_type none = h
      by_type (some t) = on_packet-IsFrozen m t p s h

  draw_screen-IsFrozen :
      (screen : UiState) (s : Client) → IsFrozen a s → Holds (IsFrozen a) (draw_screen screen s)
  unfolding draw_screen leave_lost_group go
  draw_screen-IsFrozen state_chat s h = Holds-draw_chat (IsFrozen a) s h
  draw_screen-IsFrozen state_create_group s h =
      Holds-bind (IsFrozen a)
        (ui_draw_create_group_form s.group_members_selected s.app.contacts s.group_selection_idx 0)
        _ (λ rows e. h)
  draw_screen-IsFrozen state_group_settings s h =
      if_both (IsFrozen a) (is_some (find_conv s.app.current_conv_id s.app.conversations)) _ _ h h
  draw_screen-IsFrozen _ s h = h

  render-IsFrozen : (s : Client) → IsFrozen a s → Holds (IsFrozen a) (render s)
  unfolding render
  render-IsFrozen s h =
      if_both (Holds (IsFrozen a)) s.app.needs_redraw _ _
        (Holds-chain (IsFrozen a) (IsFrozen a) (draw_screen s.app.current_state s) _
          (draw_screen-IsFrozen s.app.current_state s h) (λ s' h'. h'))
        h

  on_key-IsFrozen :
      (screen : UiState) (m : Bool) (k : Key) (b c : Text) (s : Client)
      → IsFrozen a s
      → Holds (IsFrozen a) (on_key screen m k b c s)
  unfolding on_key
  on_key-IsFrozen state_home m k b c s h = home_key-IsFrozen a k s h
  on_key-IsFrozen state_chat m k b c s h = chat_key-IsFrozen a m k s h
  on_key-IsFrozen state_create_group m k b c s h = create_key-IsFrozen a k b s h
  on_key-IsFrozen state_friends m k b c s h = friends_key-IsFrozen a k b s h
  on_key-IsFrozen state_settings m k b c s h = settings_key-IsFrozen a m k b c s h
  on_key-IsFrozen state_requests m k b c s h = requests_key-IsFrozen a k s h
  on_key-IsFrozen state_group_settings m k b c s h = group_settings_key-IsFrozen a k s h
  on_key-IsFrozen state_manage_members m k b c s h = members_key-IsFrozen a k s h
  on_key-IsFrozen _ m k b c s h = h

  client_step-IsFrozen :
      (e : Event) (s : Client) → IsFrozen a s → Holds (IsFrozen a) (client_step e s)
  unfolding client_step redraw
  client_step-IsFrozen (received m n p) s h = network_step-IsFrozen m n p s h
  client_step-IsFrozen idle s h = render-IsFrozen s h
  client_step-IsFrozen (pressed m k b c) s h =
      Holds-chain (IsFrozen a) (IsFrozen a) (render s) _ (render-IsFrozen s h)
        (λ s' h'. on_key-IsFrozen (redraw s').app.current_state m k b c (redraw s') h')

  client_run-IsFrozen :
      (es : List Event) (s : Client) → IsFrozen a s → Holds (IsFrozen a) (client_run es s)
  unfolding client_run
  client_run-IsFrozen [] s h = h
  client_run-IsFrozen (e ∷ es) s h =
      Holds-chain (IsFrozen a) (IsFrozen a) (if s.running then client_step e s else some s) _
        (if_both (Holds (IsFrozen a)) s.running _ _ (client_step-IsFrozen e s h) h)
        (λ s' h'. client_run-IsFrozen es s' h')

edit_profile-IsFrozen :
    (username password : Text) (s : Client)
    → Holds (IsFrozen s.app) (edit_profile username password s)
unfolding edit_profile issue
edit_profile-IsFrozen username password s = Holds-lock (IsFrozen s.app) s.app _ (
    if_both (IsFrozen s.app)
      (ltb 0 (length (take 31 username)) || ltb 0 (length (take 63 password))) _ _ (refl, refl)
      (refl, refl))

-- After the prompts for the profile, in every run that meets no undefined behaviour, the contacts,
-- the requests, the conversations, the members and the history of the client stay what they were
-- at the prompts, whatever the server sends.
pub edit_profile-client_run :
    (username password : Text) (s : Client) (es : List Event)
    → Holds
        (λ s'. cached s'.app ≡ cached s.app)
        (edit_profile username password s >>= λ s1. client_run es s1)
edit_profile-client_run username password s es =
    Holds-chain (IsFrozen s.app) (λ s'. cached s'.app ≡ cached s.app)
      (edit_profile username password s) _ (edit_profile-IsFrozen username password s)
      (λ s1 h.
        Holds-map (IsFrozen s.app) (λ s'. cached s'.app ≡ cached s.app) (client_run es s1)
          (λ s' h'. h'.1) (client_run-IsFrozen s.app es s1 h))
