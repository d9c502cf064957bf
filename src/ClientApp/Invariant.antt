-- ===== src/ClientApp/Invariant.antt =====
-- What stays true in every run of the client.
pub mod Keys
pub mod Network
pub mod Run
pub mod Progress
use mo_t.ClientApp.Network.{terminated, history_text, draw_chat}
use mo_t.ClientApp.ChatScreen.{ui_draw_chat, cut_title_lem}
use mo_t.Base.{snprintf}
use mo_t.Base.{
  ℕ, zero, suc, ◌+◌, ◌-◌, ◌≤◌, ◌<◌, ◌≡◌, refl, inl, inr, Bool, true, false, Bool-cases, Option,
  none, some, List, [], ◌∷◌, ◌++◌, Text, IsText, c_str, All, All-append, All-take, length,
  length-append, length-take, take, ltb, leb, ◌==◌, ◌&&◌, ◌||◌, if◌then◌else◌, ◌>>=◌, if_both,
  if_cases, Yields, Holds, Holds-bind, Holds-map, arith,
}
use mo_t.Protocol.Types.{MessageType, message_type}
use mo_t.ClientApp.State.{
  AppState, Client, lock, append_to, app_append_history, strcat, shift_from, shift_left,
  app_remove_request, issue, issue_some, go,
}
use mo_t.ClientApp.Services.{Request}
use mo_t.ClientApp.Keys.Input.{
  Key, key_down, key_up, key_backspace, key_f1, key_dc, char, move_down, move_up, letter, is_enter,
}
use mo_t.ClientApp.Keys.Talk.{
  home_key, home_char, chat_key, chat_char, open_chat, send_line, own_line, delete_last, type_char,
  open_settings,
}

abbrev pub IsPrintable : ℕ → Type 0
IsPrintable c = (32 ≤ c) × (c ≤ 126)

-- What can stand in the line that is typed: MAX_TEXT_LEN less the NUL.
abbrev pub IsTyped : Text → Type 0
IsTyped text = All IsPrintable text × (length text ≤ 1023)

-- The string, its length as it is kept, and the bytes allocated.
abbrev pub IsHistory : Option Text → ℕ → ℕ → Type 0
IsHistory none len size = Unit
IsHistory (some text) len size = (length text ≤ len) × (len < size)

abbrev pub IsClient : Client → Type 0
IsClient s =
    IsTyped s.app.chat_input_buffer
    × IsHistory s.app.chat_history s.app.chat_history_len s.app.chat_history_size
    × (s.app.requests_count ≤ length s.app.requests)
    × (length s.group_name_buf ≤ 31)
    × (length s.group_desc_buf ≤ 63)
    × (length s.group_members_selected ≡ 100)

-- The history on the screen.
abbrev pub shown : Option Text → Text
shown none = []
shown (some text) = text

append_to-IsHistory :
    (allocated : Bool) (text : Text) (old : Option Text) (a : AppState)
    → a.chat_history ≡ old
    → IsHistory old a.chat_history_len a.chat_history_size
    → Yields
        (λ a'.
          (a'.chat_history ≡ (if allocated then some (shown old ++ text) else old))
          × IsHistory a'.chat_history a'.chat_history_len a'.chat_history_size
          × (record a {
            chat_history = a'.chat_history;
            chat_history_len = a'.chat_history_len;
            chat_history_size = a'.chat_history_size;
          }
              ≡ a'))
        (append_to allocated text old a)
unfolding append_to strcat
append_to-IsHistory true text none a e h = (_, refl, (refl, (omega arith, omega arith), refl))
append_to-IsHistory false text none a e h = (_, refl, (refl, tt, refl))
append_to-IsHistory true text (some old) a e h =
    let fits : ltb (length old + length text) (a.chat_history_len + length text + 1) ≡ true =
      ground arith in
    rw (fits, strcat) (_, refl, (refl, (omega (arith, length-append old text), omega arith), refl))
append_to-IsHistory false text (some old) a e h = (a, refl, (e, rw e h, refl))

-- Where the string of the history is no longer than its kept length and fits its buffer with the
-- NUL, app_append_history writes nothing past the buffer, adds the text behind the history if
-- there is memory and leaves the history alone if not, keeps these bounds, and changes nothing
-- else.
pub app_append_history-IsHistory :
    (allocated : Bool) (text : Text) (a : AppState)
    → IsHistory a.chat_history a.chat_history_len a.chat_history_size
    → Yields
        (λ a'.
          (a'.chat_history
            ≡ (if allocated then some (shown a.chat_history ++ text) else a.chat_history))
          × IsHistory a'.chat_history a'.chat_history_len a'.chat_history_size
          × (record a {
            chat_history = a'.chat_history;
            chat_history_len = a'.chat_history_len;
            chat_history_size = a'.chat_history_size;
          }
              ≡ a'))
        (app_append_history allocated text a)
unfolding app_append_history
app_append_history-IsHistory allocated text a h =
    append_to-IsHistory allocated text a.chat_history a refl h

-- Behind the lock the state is the same.
pub Holds-lock {ℓ κ} :
    {B : Type ℓ} (P : B → Type κ) (a : AppState) (f : AppState → Option B)
    → Holds P (f a)
    → Holds P (lock a >>= f)
unfolding lock
Holds-lock P a f h = if_both (λ m. Holds P (m >>= f)) a.locked none (some a) tt h

-- Drawing changes nothing.
pub Holds-draw_chat {κ} : (P : Client → Type κ) (s : Client) → P s → Holds P (draw_chat s)
unfolding draw_chat
Holds-draw_chat P s h = Holds-bind P (terminated 32 s.app.current_conv_name) _ (λ name e.
    Holds-bind P
      (ui_draw_chat s.height s.width name (history_text s.app.chat_history) s.app.chat_input_buffer)
      _ (λ screen e'. h))

-- What drawing the chat needs: a window of 33 columns, and a name that leaves room for its NUL.
abbrev pub CanDraw : Client → Type 0
CanDraw s = (33 ≤ s.width) × (length s.app.current_conv_name < 32)

pub draw_chat-CanDraw : (s : Client) → CanDraw s → draw_chat s ≡ some s
unfolding draw_chat terminated ui_draw_chat
draw_chat-CanDraw s (wide, room) =
    let named : ltb (length s.app.current_conv_name) 32 ≡ true = ground arith in
    let (title, e, _) =
      cut_title_lem s.width (snprintf 64 (32 ∷ s.app.current_conv_name ++ 32 ∷ [])) wide in
    rw (named, e, draw_chat, terminated, ui_draw_chat) refl
