-- ===== src/ClientApp/ListScreens/Enter.antt =====
-- The list of STATE_HOME as src/client/ui.c draws it, and the key Enter of src/client/main.c.
use mo_t.Base.{◌≡◌, Bool, false, [], ◌∷◌, ◌++◌}
use mo_t.Storage.Conversations.{ConversationSummary}
use mo_t.ClientApp.Services.{service_req_history}
use mo_t.ClientApp.State.{Client, state_home, state_chat}

-- The client on the home screen.
abbrev at_home : Bool → Client → Client
at_home flag s = record s {
  app = record s.app { current_state = state_home; locked = false; needs_redraw = flag };
}

abbrev pub Opened : ConversationSummary → Client → Client → Type 0
Opened c s s' =
    (s'.app.current_state ≡ state_chat)
    × (s'.app.current_conv_id ≡ c.conv_id)
    × (s'.sent ≡ s.sent ++ service_req_history c.conv_id ∷ [])
