-- ===== src/ClientApp/Typing.antt =====
-- A message typed in STATE_CHAT of src/client/main.c and sent with Enter.
use mo_t.Base.{
  ℕ, ◌+◌, ◌≤◌, ◌<◌, ◌≡◌, refl, sym, ap, subst, ◌∙◌, Bool, true, false, ◌&&◌, ◌||◌, Option, none,
  some, List, [], ◌∷◌, ◌++◌, map, append-nil, append_assoc, Text, All, length, length-append,
  take-all, ltb, leb, ◌==◌, if◌then◌else◌, ◌>>=◌, Yields, arith,
}
use mo_t.Protocol.Types.{send_text}
use mo_t.Protocol.Layout.{le32, char_array}
use mo_t.ClientApp.Services.{service_send_text}
use mo_t.ClientApp.State.{state_chat, Client, lock, issue, issue_some}
use mo_t.ClientApp.Network.{redraw}
use mo_t.ClientApp.Keys.Input.{char, is_enter}
use mo_t.ClientApp.Keys.Talk.{chat_key, chat_char, type_char, send_line, own_line}
use mo_t.ClientApp.Keys.{Event, pressed, render, draw_screen, on_key, client_step, client_run}
use mo_t.ClientApp.Invariant.{
  IsPrintable, IsHistory, shown, app_append_history-IsHistory, CanDraw, draw_chat-CanDraw,
}

-- The keys of a text.
abbrev pub typed : Bool → Text → List Event
typed granted text = map (λ c. pressed granted (char c) [] []) text

-- The client in a chat with some text in its line.
abbrev chatting : Bool → Text → Client → Client
chatting flag text s = record s {
  running = true;
  app = record s.app {
    current_state = state_chat;
    locked = false;
    needs_redraw = flag;
    chat_input_buffer = text;
  };
}

wakes :
    (flag : Bool) (text : Text) (s : Client)
    → CanDraw s
    → (render (chatting flag text s) >>= λ s'. some (redraw s')) ≡ some (chatting true text s)
unfolding redraw render draw_screen
wakes true text s can = rw (draw_chat-CanDraw (chatting true text s) can) refl
wakes false text s can = refl

-- A turn in the chat.
chat_step :
    (granted flag : Bool) (c : ℕ) (text : Text) (s : Client)
    → CanDraw s
    → client_step (pressed granted (char c) [] []) (chatting flag text s)
      ≡ chat_char granted c (chatting true text s)
unfolding client_step on_key chat_key
chat_step granted flag c text s can =
    in_turn (render (chatting flag text s)) (wakes flag text s can)
  where
    in_turn :
        (o : Option Client)
        → (o >>= λ s'. some (redraw s')) ≡ some (chatting true text s)
        → (o >>= λ s'. on_key (redraw s').app.current_state granted (char c) [] [] (redraw s'))
          ≡ chat_char granted c (chatting true text s)
    in_turn none e = cc
    in_turn (some s') e =
        let same : redraw s' ≡ chatting true text s = cc e in
        ap (λ s''. on_key s''.app.current_state granted (char c) [] [] s'') same

type_step :
    (granted : Bool) (c : ℕ) (text : Text) (s : Client)
    → IsPrintable c
    → length text < 1023
    → chat_char granted c (chatting true text s) ≡ some (chatting true (text ++ c ∷ []) s)
unfolding chat_char type_char
type_step granted c text s p n =
    let e1 : (c == 27) ≡ false = ground arith in
    let e2 : is_enter c ≡ false = ground arith in
    let e3 : (c == 127 || c == 8) ≡ false = ground arith in
    let e4 : (leb 32 c && leb c 126 && ltb (length text) 1023) ≡ true = ground arith in
    rw (e1, e2, e3, e4) refl

value_of {ℓ} : {A : Type ℓ} (o : Option A) → (o >>= λ a. some a) ≡ o
value_of none = refl
value_of (some a) = refl

-- The keys of the rest of a text, and Enter.
type_run :
    (granted : Bool) (cs : Text) (flag : Bool) (text : Text) (s : Client)
    → CanDraw s
    → All IsPrintable cs
    → 0 < length text + length cs
    → length text + length cs ≤ 1023
    → client_run (typed granted cs ++ pressed granted (char 10) [] [] ∷ []) (chatting flag text s)
      ≡ send_line granted (chatting true (text ++ cs) s)
unfolding client_run chat_char
type_run granted [] flag text s can p n m =
    let full : ltb 0 (length text) ≡ true = ground arith in
    rw (chat_step granted flag 10 text s can, full, append-nil text, client_run, chat_char)
      (value_of (send_line granted (chatting true text s)))
type_run granted (c ∷ cs) flag text s can (p, ps) n m =
    rw (chat_step granted flag c text s can, type_step granted c text s p (omega arith), client_run)
      (type_run granted cs true (text ++ c ∷ []) s can ps
          (omega (arith, length-append text (c ∷ []))) (omega (arith, length-append text (c ∷ [])))
        ∙ ap (λ t. send_line granted (chatting true t s)) (append_assoc text (c ∷ []) cs))

-- The line is not cut, and neither is the payload.
own_line_lem :
    (text : Text) → length text ≤ 1023 → own_line text ≡ 77 ∷ 101 ∷ 58 ∷ 32 ∷ text ++ 10 ∷ []
unfolding own_line
own_line_lem text n =
    take-all 1199 (77 ∷ 101 ∷ 58 ∷ 32 ∷ text ++ 10 ∷ [])
      (omega (arith, length-append text (10 ∷ [])))

pub service_send_text_lem :
    (conv : ℕ) (text : Text)
    → 0 < length text
    → length text ≤ 1023
    → service_send_text conv text
      ≡ some (record { kind = send_text; payload = le32 conv ++ char_array 1024 text })
unfolding service_send_text
service_send_text_lem conv text n m =
    let some_text : (length text == 0) ≡ false = ground arith in
    rw (some_text, take-all 1023 text m) refl

abbrev pub Delivered : Bool → Text → Client → Client → Type 0
Delivered granted text s s' =
    (s'.sent
      ≡ s.sent
        ++ record { kind = send_text; payload = le32 s.app.current_conv_id ++ char_array 1024 text }
          ∷ [])
    × (s'.app.chat_input_buffer ≡ [])
    × (s'.app.chat_history ≡ (
        if granted
        then some (shown s.app.chat_history ++ (77 ∷ 101 ∷ 58 ∷ 32 ∷ text ++ 10 ∷ []))
        else s.app.chat_history))

send_line-chatting :
    (granted : Bool) (text : Text) (s : Client)
    → IsHistory s.app.chat_history s.app.chat_history_len s.app.chat_history_size
    → 0 < length text
    → length text ≤ 1023
    → Yields (Delivered granted text s) (send_line granted (chatting true text s))
unfolding send_line lock issue_some issue
send_line-chatting granted text s hist n m =
    let (a', e, (line, _, frame)) =
      app_append_history-IsHistory granted (own_line text) (chatting true text s).app hist in
    rw (e, service_send_text_lem s.app.current_conv_id text n m, send_line)
      (
        _,
        refl,
        (
          refl,
          refl,
          line
              ∙ ap
                  (λ l.
                    if granted then some (shown s.app.chat_history ++ l) else s.app.chat_history)
                  (own_line_lem text m),
        ),
      )

-- Where the loop runs, the window has at least 33 columns, the client is in a chat whose name is
-- shorter than its array, with an empty line and a history within its buffer, and the lock is
-- free: typing a text of 1 to 1023 printable characters and Enter meets no undefined behaviour,
-- the drawing of the chat at every turn included, sends one packet with the conversation and the
-- whole text, empties the line, and adds the text, marked as the own and uncut, to the history if
-- there is memory, and leaves the history alone if not.
pub client_run-typed :
    (granted : Bool) (text : Text) (s : Client)
    → CanDraw s
    → s.running ≡ true
    → s.app.current_state ≡ state_chat
    → s.app.locked ≡ false
    → s.app.chat_input_buffer ≡ []
    → IsHistory s.app.chat_history s.app.chat_history_len s.app.chat_history_size
    → All IsPrintable text
    → 0 < length text
    → length text ≤ 1023
    → Yields
        (Delivered granted text s)
        (client_run (typed granted text ++ pressed granted (char 10) [] [] ∷ []) s)
client_run-typed granted text s can e1 e2 e3 e4 hist p n m =
    let here : chatting s.app.needs_redraw [] s ≡ s = λ i. record s {
      running = sym e1 i;
      app = record s.app {
        current_state = sym e2 i;
        locked = sym e3 i;
        chat_input_buffer = sym e4 i;
      };
    } in
    let ran = type_run granted text s.app.needs_redraw [] s can p (omega arith) (omega arith) in
    subst
      (λ s0.
        Yields (Delivered granted text s)
          (client_run (typed granted text ++ pressed granted (char 10) [] [] ∷ []) s0))
      here (rw ran (send_line-chatting granted text s hist n m))
