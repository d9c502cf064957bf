-- ===== src/ClientApp/Frozen.antt =====
-- The profile prompts of src/client/main.c, and what the client shows after them.
pub mod Run
use mo_t.Base.{
  ℕ, zero, suc, ◌+◌, ◌-◌, ◌≤◌, ◌<◌, ◌≡◌, refl, ap, ◌∙◌, inl, inr, Bool, true, false, is_some,
  Bool-cases, Option, none, some, List, [], ◌∷◌, ◌++◌, Text, IsText, c_str, All, All-append,
  All-take, length, length-append, length-take, take, ltb, leb, get_elem?, ◌==◌, ◌&&◌, ◌||◌,
  if◌then◌else◌, ◌>>=◌, if_both, if_cases, Yields, Holds, Holds-bind, Holds-chain, Holds-map, arith,
}
use mo_t.Protocol.Types.{MessageType, message_type}
use mo_t.ClientApp.State.{
  AppState, Client, lock, append_to, app_append_history, strcat, shift_from, shift_left,
  app_remove_request, issue, issue_some, go,
}
use mo_t.Storage.Contacts.{ContactSummary}
use mo_t.Storage.Conversations.{ConversationSummary}
use mo_t.ClientApp.Services.{Request, service_create_group}
use mo_t.Server.Chat.{max_participants}
use mo_t.ClientApp.Keys.People.{
  create_key, create_char, create_group, after_create, toggle, selected_uids, friends_key,
  friends_char, open_private, back_to_home, requests_key, requests_char, decide, back_to_friends,
}
use mo_t.ClientApp.Keys.Groups.{
  settings_key, settings_char, logout, edit_profile, group_settings_key, group_settings_char,
  remove_group, show_members, members_key, members_char, kick_selected,
}
use mo_t.ClientApp.Keys.Input.{
  Key, key_down, key_up, key_backspace, key_f1, key_dc, char, move_down, move_up, find_conv, letter,
  is_enter,
}
use mo_t.ClientApp.Keys.Talk.{
  home_key, home_char, chat_key, chat_char, open_chat, send_line, own_line, delete_last, type_char,
  open_settings,
}
use mo_t.Protocol.Types.{
  MessageType, message_type, resp_conversations, conv_created, rte_text, resp_history,
  resp_contacts, resp_requests, resp_members, add_req_sent, add_success,
}
use mo_t.Protocol.Request.{buffer}
use mo_t.Storage.Conversations.{GroupMemberSummary}
use mo_t.ClientApp.State.{
  UiState, state_start, state_register, state_login, state_home, state_create_group, state_chat,
  state_settings, state_friends, state_requests, state_group_settings, state_manage_members,
  update_app,
}
use mo_t.ClientApp.Network.{redraw, with_lock, receive_array, on_packet, network_step}
use mo_t.ClientApp.Keys.{
  Event, received, idle, pressed, leave_lost_group, render, on_key, client_step, client_run,
}

-- What the client holds of the server's data.
abbrev pub cached :
    AppState
    → List ContactSummary
      × List ContactSummary
      × ℕ
      × List ConversationSummary
      × List GroupMemberSummary
      × Option Text
cached a = (
  a.contacts, a.requests, a.requests_count, a.conversations, a.current_group_members,
  a.chat_history,
)

abbrev pub IsFrozen : AppState → Client → Type 0
IsFrozen a s = (s.app.locked ≡ true) × (cached s.app ≡ cached a)

module _ (a : AppState) where
  -- Behind the lock nothing is done.
  frozen-lock {ℓ} :
      {B : Type ℓ} (P : B → Type 0) (s : Client) (f : AppState → Option B)
      → IsFrozen a s
      → Holds P (lock s.app >>= f)
  unfolding lock
  frozen-lock P s f h = rw (h.0, lock) tt

  pub home_key-IsFrozen : (k : Key) (s : Client) → IsFrozen a s → Holds (IsFrozen a) (home_key k s)
  unfolding home_key home_char go issue open_chat
  home_key-IsFrozen (char c) s h = if_both (Holds (IsFrozen a)) (c == 113) _ _ h (
      if_both (Holds (IsFrozen a)) (letter 103 c) _ _ h (
        if_both (Holds (IsFrozen a)) (letter 102 c) _ _ h (
          if_both (Holds (IsFrozen a)) (is_enter c && ltb 0 (length s.app.conversations)) _ _
            (Holds-bind (IsFrozen a) (get_elem? s.app.conversations s.selection) _
              (λ conv e. frozen-lock (IsFrozen a) s _ h))
            (if_both (Holds (IsFrozen a)) (letter 115 c) _ _ h h))))
  home_key-IsFrozen _ s h = h

  chat_char-IsFrozen :
      (m : Bool) (c : ℕ) (s : Client) → IsFrozen a s → Holds (IsFrozen a) (chat_char m c s)
  unfolding chat_char go issue send_line
  chat_char-IsFrozen m c s h = if_both (Holds (IsFrozen a)) (c == 27) _ _ h (
      if_both (Holds (IsFrozen a)) (is_enter c) _ _
        (if_both (Holds (IsFrozen a)) (ltb 0 (length s.app.chat_input_buffer)) _ _
          (frozen-lock (IsFrozen a) s _ h) h)
        (if_both (Holds (IsFrozen a)) (c == 127 || c == 8) _ _ h h))

  open_settings-IsFrozen :
      (o : Option ConversationSummary) (s : Client) → IsFrozen a s → IsFrozen a (open_settings o s)
  unfolding open_settings go
  open_settings-IsFrozen none s h = h
  open_settings-IsFrozen (some c) s h = if_both (IsFrozen a) (c.kind == 1) _ _ h h

  pub chat_key-IsFrozen :
      (m : Bool) (k : Key) (s : Client) → IsFrozen a s → Holds (IsFrozen a) (chat_key m k s)
  unfolding chat_key
  chat_key-IsFrozen m key_f1 s h =
      open_settings-IsFrozen (find_conv s.app.current_conv_id s.app.conversations) s h
  chat_key-IsFrozen m (char c) s h = chat_char-IsFrozen m c s h
  chat_key-IsFrozen m key_backspace s h = h
  chat_key-IsFrozen m key_down s h = h
  chat_key-IsFrozen m key_up s h = h
  chat_key-IsFrozen m key_dc s h = h

  after_create-IsFrozen :
      (r : Option Request) (s : Client) → IsFrozen a s → IsFrozen a (after_create r s)
  unfolding after_create go issue
  after_create-IsFrozen none s h = h
  after_create-IsFrozen (some r) s h = h

  create_group-IsFrozen : (s : Client) → IsFrozen a s → Holds (IsFrozen a) (create_group s)
  unfolding create_group
  create_group-IsFrozen s h =
      Holds-bind (IsFrozen a)
        (selected_uids s.group_members_selected s.app.contacts max_participants) _
        (λ uids e.
          after_create-IsFrozen
            (service_create_group s.app.my_info.uid s.group_name_buf s.group_desc_buf uids) s h)

  pub create_key-IsFrozen :
      (k : Key) (b : Text) (s : Client) → IsFrozen a s → Holds (IsFrozen a) (create_key k b s)
  unfolding create_key create_char go
  create_key-IsFrozen (char c) b s h = if_both (Holds (IsFrozen a)) (c == 27) _ _ h (
      if_both (Holds (IsFrozen a)) (c == 32) _ _
        (Holds-bind (IsFrozen a) (toggle s.group_selection_idx s.group_members_selected) _
          (λ flags e. h))
        (if_both (Holds (IsFrozen a)) (letter 110 c) _ _ h (
          if_both (Holds (IsFrozen a)) (letter 100 c) _ _ h
            (if_both (Holds (IsFrozen a)) (is_enter c) _ _ (create_group-IsFrozen s h) h))))
  create_key-IsFrozen _ b s h = h

  pub friends_key-IsFrozen :
      (k : Key) (b : Text) (s : Client) → IsFrozen a s → Holds (IsFrozen a) (friends_key k b s)
  unfolding friends_key friends_char back_to_home go issue open_private
  friends_key-IsFrozen (char c) b s h = ground arith
  friends_key-IsFrozen _ b s h = h

  pub settings_key-IsFrozen :
      (m : Bool) (k : Key) (b c : Text) (s : Client)
      → IsFrozen a s
      → Holds (IsFrozen a) (settings_key m k b c s)
  unfolding settings_key settings_char logout go edit_profile issue lock
  settings_key-IsFrozen m (char n) b c s h = ground arith
  settings_key-IsFrozen m _ b c s h = h

  app_remove_request-locked :
      (i : ℕ) (s : Client) → IsFrozen a s → app_remove_request i s.app ≡ none
  unfolding app_remove_request lock
  app_remove_request-locked i s h = rw (h.0, app_remove_request, lock) refl

  pub requests_key-IsFrozen :
      (k : Key) (s : Client) → IsFrozen a s → Holds (IsFrozen a) (requests_key k s)
  unfolding requests_key requests_char back_to_friends go decide app_remove_request issue
  requests_key-IsFrozen (char c) s h = if_both (Holds (IsFrozen a)) (c == 98) _ _ h (
      if_both (Holds (IsFrozen a)) ((c == 10 || c == 100) && ltb 0 s.app.requests_count) _ _
        (Holds-bind (IsFrozen a) (get_elem? s.app.requests s.selection) _
          (λ r e. rw (app_remove_request-locked s.selection s h) tt))
        h)
  requests_key-IsFrozen _ s h = h

  pub group_settings_key-IsFrozen :
      (k : Key) (s : Client) → IsFrozen a s → IsFrozen a (group_settings_key k s)
  unfolding group_settings_key group_settings_char remove_group go show_members issue
  group_settings_key-IsFrozen (char c) s h = ground arith
  group_settings_key-IsFrozen key_dc s h = ground arith
  group_settings_key-IsFrozen _ s h = h

  pub members_key-IsFrozen :
      (k : Key) (s : Client) → IsFrozen a s → Holds (IsFrozen a) (members_key k s)
  unfolding members_key members_char kick_selected go issue
  members_key-IsFrozen (char c) s h = ground arith
  members_key-IsFrozen _ s h = h
