-- ===== src/Tests/Drawings.antt =====
-- The theorems on the screens at a concrete history and a concrete list.
use mo_t.Base.{none, ℕ, ◌≡◌, ◌≤◌, ◌+◌, [], ◌∷◌, List, map, Text, codes, take, length, arith, Yields}
use mo_t.ClientApp.ChatScreen.{joined, mark_line, ui_draw_chat, ui_draw_chat-joined}
use mo_t.Storage.Conversations.{ConversationSummary}
use mo_t.ClientApp.State.{Client, update_app}
use mo_t.ClientApp.Keys.{start_loop}
use mo_t.Tests.Screens.{info}

abbrev lines : List Text
lines = codes "[ada]: hi" ∷ codes "Me: hello" ∷ codes "Me: bye" ∷ []

ui_draw_chat-joined_example :
    Yields
      (λ screen.
        (length screen.title + 30 ≤ 80)
        × (screen.lines ≡ map mark_line (take 2 lines))
        × (screen.input ≡ codes "x"))
      (ui_draw_chat 8 80 (codes "team") (joined lines) (codes "x"))
ui_draw_chat-joined_example =
    ui_draw_chat-joined 8 80 (codes "team") (codes "x") lines (omega arith) (ground arith)
      (omega arith)

abbrev chat : ℕ → ConversationSummary
chat id = record {
  conv_id = id;
  kind = 1;
  name = codes "team";
  description = [];
  unread_count = 2;
  my_role = 0;
}

-- The second of three is selected.
abbrev at_home : Client
at_home =
    record (update_app (λ a. record a { conversations = chat 5 ∷ chat 6 ∷ chat 7 ∷ [] })
      (start_loop 24 80 info none)) { selection = 1 }
