-- ===== src/ClientApp/Keys/Input.antt =====
-- What getch gives to the loop of src/client/main.c, and the tests that several screens share.
use mo_t.Base.{
  ℕ, zero, suc, ◌+◌, ◌-◌, Bool, ◌||◌, Option, none, some, List, [], ◌∷◌, ltb, ◌==◌, if◌then◌else◌,
}
use mo_t.Storage.Conversations.{ConversationSummary}

-- The keys that curses names KEY_DOWN, KEY_UP, KEY_BACKSPACE, KEY_F(1) and KEY_DC, and a code.
pub data Key : Type 0 where
  key_down key_up key_backspace key_f1 key_dc : Key
  char : ℕ → Key

-- A letter, small or large.
abbrev pub letter : ℕ → ℕ → Bool
letter small c = c == small || c == small - 32

abbrev pub is_enter : ℕ → Bool
is_enter c = c == 10 || c == 13

-- `if (ch == KEY_DOWN && i < count - 1) i++;` on ints: a count of 0 has no next.
abbrev pub move_down : ℕ → ℕ → ℕ
move_down count i = if ltb (i + 1) count then i + 1 else i

abbrev pub move_up : ℕ → ℕ
move_up zero = zero
move_up (suc i) = i

-- The role in the last conversation with an id.
unfoldable pub my_role_in : ℕ → Bool → List ConversationSummary → Bool
my_role_in id is_admin [] = is_admin
my_role_in id is_admin (c ∷ cs) =
    my_role_in id (if c.conv_id == id then c.my_role == 1 else is_admin) cs

-- The first conversation with an id.
unfoldable pub find_conv : ℕ → List ConversationSummary → Option ConversationSummary
find_conv id [] = none
find_conv id (c ∷ cs) = let rest = find_conv id cs in if c.conv_id == id then some c else rest
