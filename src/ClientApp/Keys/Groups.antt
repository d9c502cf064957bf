-- ===== src/ClientApp/Keys/Groups.antt =====
-- The keys of STATE_SETTINGS, STATE_GROUP_SETTINGS and STATE_MANAGE_MEMBERS in src/client/main.c.
use mo_t.Base.{
  ℕ, Bool, true, false, ◌&&◌, ◌||◌, Option, none, some, Text, length, take, get_elem?, ltb, ◌==◌,
  if◌then◌else◌, ◌>>=◌,
}
use mo_t.ClientApp.Services.{
  service_update_user, service_delete_group, service_req_members, service_kick_member,
}
use mo_t.ClientApp.State.{
  state_home, state_chat, state_group_settings, state_manage_members, Client, lock, issue, go,
  update_app,
}
use mo_t.ClientApp.Keys.Input.{
  Key, key_down, key_up, key_backspace, key_dc, char, letter, move_down, move_up, my_role_in,
}

-- service_logout of auth_service.c, and the end of the loop.
unfoldable pub logout : Bool → Client → Client
logout removed s = record s { session = if removed then none else s.session; running = false }

-- The lock that the prompts are read under is never given back.
unfoldable pub edit_profile : Text → Text → Client → Option Client
edit_profile username password s = do
  a ← lock s.app
  let u = take 31 username
  let p = take 63 password
  let s' = record s { app = record a { locked = true } }
  some (if ltb 0 (length u) || ltb 0 (length p) then issue (service_update_user u p) s' else s')

unfoldable pub settings_char : Bool → ℕ → Text → Text → Client → Option Client
settings_char removed c username password s =
    if letter 108 c
    then some (logout removed s)
    else if letter 101 c
    then edit_profile username password s
    else if c == 127 || c == 98
    then some (go state_home s)
    else some s

unfoldable pub settings_key : Bool → Key → Text → Text → Client → Option Client
settings_key removed key_backspace username password s = some (go state_home s)
settings_key removed (char c) username password s = settings_char removed c username password s
settings_key removed _ username password s = some s

abbrev am_admin : Client → Bool
am_admin s = my_role_in s.app.current_conv_id false s.app.conversations

-- Del, for an admin.
unfoldable pub remove_group : Client → Client
remove_group s =
    if am_admin s then go state_home (issue (service_delete_group s.app.current_conv_id) s) else s

unfoldable pub show_members : Client → Client
show_members s =
    let idx = if am_admin s then 0 else s.app.member_selection_idx in
    issue (service_req_members s.app.current_conv_id) (
      update_app
        (λ a. record a { current_state = state_manage_members; member_selection_idx = idx }) s)

unfoldable pub group_settings_char : ℕ → Client → Client
group_settings_char c s =
    if c == 27
    then go state_chat s
    else if c == 330
    then remove_group s
    else if letter 109 c
    then show_members s
    else s

unfoldable pub group_settings_key : Key → Client → Client
group_settings_key key_backspace s = go state_chat s
group_settings_key key_dc s = remove_group s
group_settings_key (char c) s = group_settings_char c s
group_settings_key _ s = s

-- A member but the user, by an admin.
unfoldable pub kick_selected : Client → Option Client
kick_selected s =
    if am_admin s && ltb 0 (length s.app.current_group_members)
    then (do
      m ← get_elem? s.app.current_group_members s.app.member_selection_idx
      some (
          if m.uid == s.app.my_info.uid
          then s
          else issue (service_req_members s.app.current_conv_id)
              (issue (service_kick_member s.app.current_conv_id m.uid) s)))
    else some s

unfoldable pub members_char : ℕ → Client → Option Client
members_char c s =
    if c == 27
    then some (go state_group_settings s)
    else if letter 107 c
    then kick_selected s
    else some s

abbrev move : (ℕ → ℕ) → Client → Client
move f s = update_app (λ a. record a { member_selection_idx = f a.member_selection_idx }) s

unfoldable pub members_key : Key → Client → Option Client
members_key key_down s = some (move (move_down (length s.app.current_group_members)) s)
members_key key_up s = some (move move_up s)
members_key (char c) s = members_char c s
members_key _ s = some s
