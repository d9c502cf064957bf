-- ===== src/ClientApp/Invariant/Keys.antt =====
-- The invariant of the client, over the keys of each screen.
use mo_t.Base.{
  ℕ, zero, suc, ◌-◌, ◌≡◌, refl, ap, ◌∙◌, Bool, Option, none, some, List, [], ◌∷◌, Text, All-append,
  All-take, length, length-append, length-take, ltb, leb, get_elem?, ◌==◌, ◌&&◌, ◌||◌,
  if◌then◌else◌, if_both, if_cases, Holds, Holds-bind, Holds-chain, arith,
}
use mo_t.ClientApp.State.{Client, lock, app_remove_request, issue, issue_some, go}
use mo_t.Storage.Conversations.{ConversationSummary}
use mo_t.ClientApp.Services.{Request, service_create_group}
use mo_t.Server.Chat.{max_participants}
use mo_t.ClientApp.Keys.People.{
  create_key, create_char, create_group, after_create, toggle, selected_uids, friends_key,
  friends_char, open_private, back_to_home, requests_key, requests_char, decide, back_to_friends,
}
use mo_t.ClientApp.Keys.Groups.{
  settings_key, settings_char, logout, edit_profile, group_settings_key, group_settings_char,
  remove_group, show_members, members_key, members_char, kick_selected,
}
use mo_t.ClientApp.Keys.Input.{
  Key, key_down, key_up, key_backspace, key_f1, key_dc, char, find_conv, letter, is_enter,
}
use mo_t.ClientApp.Keys.Talk.{
  home_key, home_char, chat_key, chat_char, open_chat, send_line, own_line, delete_last, type_char,
  open_settings,
}
use mo_t.ClientApp.Removal.{length-shift_from}
use mo_t.ClientApp.Invariant.{IsTyped, IsClient, Holds-lock, app_append_history-IsHistory}

IsTyped-type_char : (c : ℕ) (text : Text) → IsTyped text → IsTyped (type_char c text)
unfolding type_char
IsTyped-type_char c text (p, n) =
    if_cases IsTyped (leb 32 c && leb c 126 && ltb (length text) 1023) _ _
      (λ e.
        (All-append _ text (c ∷ []) p (ground arith), ground (arith, length-append text (c ∷ []))))
      (λ e. (p, n))

IsTyped-delete_last : (text : Text) → IsTyped text → IsTyped (delete_last text)
unfolding delete_last
IsTyped-delete_last text (p, n) =
    (All-take _ (length text - 1) text p, omega (arith, length-take (length text - 1) text))

issue_some-IsClient : (r : Option Request) (s : Client) → IsClient s → IsClient (issue_some r s)
unfolding issue_some issue
issue_some-IsClient none s h = h
issue_some-IsClient (some r) s h = h

send_line-IsClient :
    (allocated : Bool) (s : Client) → IsClient s → Holds IsClient (send_line allocated s)
unfolding send_line
send_line-IsClient allocated s h =
    let (a', e, (_, hist, frame)) =
      app_append_history-IsHistory allocated (own_line s.app.chat_input_buffer) s.app h.1 in
    Holds-lock IsClient s.app _ (
      rw e (
        issue_some-IsClient _ (record s { app = record a' { chat_input_buffer = [] } })
          ((tt, omega arith), hist, rw (← frame) h.2, h.3, h.4, h.5)))

chat_char-IsClient : (b : Bool) (c : ℕ) (s : Client) → IsClient s → Holds IsClient (chat_char b c s)
unfolding chat_char go issue
chat_char-IsClient b c s h =
    if_both (Holds IsClient) (c == 27) _ _ ((tt, omega arith), h.1, h.2, h.3, h.4, h.5)
      (if_both (Holds IsClient) (is_enter c) _ _
        (if_both (Holds IsClient) (ltb 0 (length s.app.chat_input_buffer)) _ _
          (send_line-IsClient b s h) h)
        (if_both (Holds IsClient) (c == 127 || c == 8) _ _
          (IsTyped-delete_last s.app.chat_input_buffer h.0, h.1, h.2, h.3, h.4, h.5)
          (IsTyped-type_char c s.app.chat_input_buffer h.0, h.1, h.2, h.3, h.4, h.5)))

open_settings-IsClient :
    (o : Option ConversationSummary) (s : Client) → IsClient s → IsClient (open_settings o s)
unfolding open_settings go
open_settings-IsClient none s h = h
open_settings-IsClient (some c) s h = if_both IsClient (c.kind == 1) _ _ h h

pub chat_key-IsClient :
    (b : Bool) (k : Key) (s : Client) → IsClient s → Holds IsClient (chat_key b k s)
unfolding chat_key
chat_key-IsClient b key_f1 s h =
    open_settings-IsClient (find_conv s.app.current_conv_id s.app.conversations) s h
chat_key-IsClient b key_backspace s h =
    (IsTyped-delete_last s.app.chat_input_buffer h.0, h.1, h.2, h.3, h.4, h.5)
chat_key-IsClient b (char c) s h = chat_char-IsClient b c s h
chat_key-IsClient b key_down s h = h
chat_key-IsClient b key_up s h = h
chat_key-IsClient b key_dc s h = h

home_char-IsClient : (c : ℕ) (s : Client) → IsClient s → Holds IsClient (home_char c s)
unfolding home_char go issue open_chat lock
home_char-IsClient c s h = ground arith

pub home_key-IsClient : (k : Key) (s : Client) → IsClient s → Holds IsClient (home_key k s)
unfolding home_key
home_key-IsClient (char c) s h = home_char-IsClient c s h
home_key-IsClient _ s h = h

length-toggle :
    (i : ℕ) (flags : List Bool) → Holds (λ flags'. length flags' ≡ length flags) (toggle i flags)
unfolding toggle
length-toggle i [] = tt
length-toggle zero (b ∷ bs) = refl
length-toggle (suc i) (b ∷ bs) =
    Holds-chain (λ flags. length flags ≡ length bs) (λ flags. length flags ≡ suc (length bs))
      (toggle i bs) _ (length-toggle i bs) (λ bs' e. ap suc e)

after_create-IsClient : (r : Option Request) (s : Client) → IsClient s → IsClient (after_create r s)
unfolding after_create go issue
after_create-IsClient none s h = h
after_create-IsClient (some r) s h = h

create_group-IsClient : (s : Client) → IsClient s → Holds IsClient (create_group s)
unfolding create_group
create_group-IsClient s h =
    Holds-bind IsClient (selected_uids s.group_members_selected s.app.contacts max_participants) _
      (λ uids e.
        after_create-IsClient
          (service_create_group s.app.my_info.uid s.group_name_buf s.group_desc_buf uids) s h)

create_char-IsClient :
    (c : ℕ) (answer : Text) (s : Client) → IsClient s → Holds IsClient (create_char c answer s)
unfolding create_char go
create_char-IsClient c answer s h = if_both (Holds IsClient) (c == 27) _ _ h (
    if_both (Holds IsClient) (c == 32) _ _
      (Holds-chain (λ flags. length flags ≡ length s.group_members_selected) IsClient
        (toggle s.group_selection_idx s.group_members_selected) _
        (length-toggle s.group_selection_idx s.group_members_selected)
        (λ flags same. (h.0, h.1, h.2, h.3, h.4, same ∙ h.5)))
      (if_both (Holds IsClient) (letter 110 c) _ _
        (h.0, h.1, h.2, omega (arith, length-take 31 answer), h.4, h.5)
        (if_both (Holds IsClient) (letter 100 c) _ _
          (h.0, h.1, h.2, h.3, omega (arith, length-take 63 answer), h.5)
          (if_both (Holds IsClient) (is_enter c) _ _ (create_group-IsClient s h) h))))

pub create_key-IsClient :
    (k : Key) (answer : Text) (s : Client) → IsClient s → Holds IsClient (create_key k answer s)
unfolding create_key
create_key-IsClient (char c) answer s h = create_char-IsClient c answer s h
create_key-IsClient _ answer s h = h

pub friends_key-IsClient :
    (k : Key) (answer : Text) (s : Client) → IsClient s → Holds IsClient (friends_key k answer s)
unfolding friends_key friends_char back_to_home go issue open_private
friends_key-IsClient (char c) answer s h = ground arith
friends_key-IsClient _ answer s h = h

pub settings_key-IsClient :
    (m : Bool) (k : Key) (a b : Text) (s : Client)
    → IsClient s
    → Holds IsClient (settings_key m k a b s)
unfolding settings_key settings_char logout go edit_profile issue lock
settings_key-IsClient m (char c) a b s h = ground arith
settings_key-IsClient m _ a b s h = h

remove_group-IsClient : (s : Client) → IsClient s → IsClient (remove_group s)
unfolding remove_group go issue
remove_group-IsClient s h = ground arith

pub group_settings_key-IsClient :
    (k : Key) (s : Client) → IsClient s → IsClient (group_settings_key k s)
unfolding group_settings_key group_settings_char go show_members issue
group_settings_key-IsClient (char c) s h = ground (arith, remove_group-IsClient s h)
group_settings_key-IsClient key_dc s h = remove_group-IsClient s h
group_settings_key-IsClient _ s h = h

pub members_key-IsClient : (k : Key) (s : Client) → IsClient s → Holds IsClient (members_key k s)
unfolding members_key members_char kick_selected go issue
members_key-IsClient (char c) s h = ground arith
members_key-IsClient _ s h = h

app_remove_request-IsClient :
    (i : ℕ) (s : Client)
    → IsClient s
    → Holds (λ a. IsClient (record s { app = a })) (app_remove_request i s.app)
unfolding app_remove_request
app_remove_request-IsClient i s h =
    Holds-lock (λ a. IsClient (record s { app = a })) s.app _
      (if_both (λ a. IsClient (record s { app = a })) (ltb i s.app.requests_count) _ _
        (
          h.0,
          h.1,
          omega (arith, h.2, length-shift_from i (s.app.requests_count - 1 - i) s.app.requests),
          h.3,
          h.4,
          h.5,
        )
        h)

decide-IsClient : (accepted : ℕ) (s : Client) → IsClient s → Holds IsClient (decide accepted s)
unfolding decide issue
decide-IsClient accepted s h = Holds-bind IsClient (get_elem? s.app.requests s.selection) _ (λ c e.
    Holds-chain (λ a. IsClient (record s { app = a })) IsClient
      (app_remove_request s.selection s.app) _ (app_remove_request-IsClient s.selection s h)
      (λ a kept. kept))

pub requests_key-IsClient : (k : Key) (s : Client) → IsClient s → Holds IsClient (requests_key k s)
unfolding requests_key requests_char back_to_friends go
requests_key-IsClient (char c) s h = if_both (Holds IsClient) (c == 98) _ _ h (
    if_both (Holds IsClient) ((c == 10 || c == 100) && ltb 0 s.app.requests_count) _ _
      (decide-IsClient (if c == 10 then 1 else 0) s h) h)
requests_key-IsClient _ s h = h
