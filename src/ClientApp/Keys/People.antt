-- ===== src/ClientApp/Keys/People.antt =====
-- The keys of STATE_CREATE_GROUP, STATE_FRIENDS and STATE_REQUESTS in src/client/main.c. A prompt
-- gives at most the characters that `wgetnstr` is told to read.
use mo_t.Base.{
  ℕ, zero, suc, Bool, true, false, not, ◌&&◌, ◌||◌, Option, none, some, List, [], ◌∷◌, Text, length,
  take, get_elem?, ltb, ◌==◌, if◌then◌else◌, ◌>>=◌,
}
use mo_t.Storage.Contacts.{ContactSummary}
use mo_t.Server.Chat.{max_participants}
use mo_t.ClientApp.Services.{
  Request, service_create_group, service_add_contact, service_create_private,
  service_decide_request,
}
use mo_t.ClientApp.State.{
  state_home, state_friends, state_requests, Client, app_remove_request, issue, go,
}
use mo_t.ClientApp.Keys.Input.{
  Key, key_down, key_up, key_backspace, char, letter, is_enter, move_down, move_up,
}

-- `group_members_selected[i] = !group_members_selected[i]`: an array of 100.
unfoldable pub toggle : ℕ → List Bool → Option (List Bool)
toggle i [] = none
toggle zero (b ∷ bs) = some (not b ∷ bs)
toggle (suc i) (b ∷ bs) = do bs' ← toggle i bs; some (b ∷ bs')

-- The ids of the selected contacts, in an array with some room. `none` is a read or a write past an array.
unfoldable pub selected_uids : List Bool → List ContactSummary → ℕ → Option (List ℕ)
selected_uids flags [] room = some []
selected_uids [] (c ∷ cs) room = none
selected_uids (true ∷ flags) (c ∷ cs) zero = none
selected_uids (true ∷ flags) (c ∷ cs) (suc room) = do
  uids ← selected_uids flags cs room
  some (c.uid ∷ uids)
selected_uids (false ∷ flags) (c ∷ cs) room = selected_uids flags cs room

-- The screen stays where nothing is sent.
unfoldable pub after_create : Option Request → Client → Client
after_create none s = s
after_create (some r) s = go state_home (issue r s)

unfoldable pub create_group : Client → Option Client
create_group s = do
  uids ← selected_uids s.group_members_selected s.app.contacts max_participants
  some (
      after_create (service_create_group s.app.my_info.uid s.group_name_buf s.group_desc_buf uids)
        s)

unfoldable pub create_char : ℕ → Text → Client → Option Client
create_char c answer s =
    if c == 27
    then some (go state_home s)
    else if c == 32
    then (do
      flags ← toggle s.group_selection_idx s.group_members_selected
      some (record s { group_members_selected = flags }))
    else if letter 110 c
    then some (record s { group_name_buf = take 31 answer })
    else if letter 100 c
    then some (record s { group_desc_buf = take 63 answer })
    else if is_enter c
    then create_group s
    else some s

unfoldable pub create_key : Key → Text → Client → Option Client
create_key key_down answer s =
    some
      (record s { group_selection_idx = move_down (length s.app.contacts) s.group_selection_idx })
create_key key_up answer s = some (record s { group_selection_idx = move_up s.group_selection_idx })
create_key (char c) answer s = create_char c answer s
create_key _ answer s = some s

unfoldable pub back_to_home : Client → Client
back_to_home s = go state_home (record s { selection = 0 })

-- Enter on a friend. The selection stays as it is.
unfoldable pub open_private : Client → Option Client
open_private s = do
  c ← get_elem? s.app.contacts s.selection
  some (go state_home (issue (service_create_private s.app.my_info.uid c.uid c.username) s))

unfoldable pub friends_char : ℕ → Text → Client → Option Client
friends_char c answer s =
    if c == 98 || c == 27
    then some (back_to_home s)
    else if letter 97 c
    then some (issue (service_add_contact (take 10 answer)) s)
    else if letter 114 c
    then some (go state_requests (record s { selection = 0 }))
    else if is_enter c && ltb 0 (length s.app.contacts)
    then open_private s
    else some s

unfoldable pub friends_key : Key → Text → Client → Option Client
friends_key key_down answer s =
    some (record s { selection = move_down (length s.app.contacts) s.selection })
friends_key key_up answer s = some (record s { selection = move_up s.selection })
friends_key key_backspace answer s = some (back_to_home s)
friends_key (char c) answer s = friends_char c answer s
friends_key _ answer s = some s

-- The selection does not move with the request that goes.
unfoldable pub decide : ℕ → Client → Option Client
decide accepted s = do
  c ← get_elem? s.app.requests s.selection
  a ← app_remove_request s.selection s.app
  some (issue (service_decide_request c.uid accepted) (record s { app = a }))

unfoldable pub back_to_friends : Client → Client
back_to_friends s = go state_friends (record s { selection = 0 })

unfoldable pub requests_char : ℕ → Client → Option Client
requests_char c s =
    if c == 98
    then some (back_to_friends s)
    else if (c == 10 || c == 100) && ltb 0 s.app.requests_count
    then decide (if c == 10 then 1 else 0) s
    else some s

unfoldable pub requests_key : Key → Client → Option Client
requests_key key_backspace s = some (back_to_friends s)
requests_key (char c) s = requests_char c s
requests_key _ s = some s
