-- ===== src/ClientApp/Invariant/Progress.antt =====
-- How the network thread of src/client/main.c reads payloads of any size.
use mo_t.Base.{
  ℕ, zero, suc, ◌+◌, ◌*◌, ◌≤◌, ◌<◌, ◌≡◌, refl, ap, Bool, true, Option, none, some, List, [], ◌∷◌,
  ◌++◌, length, length-append, length-drop, drop, get_elem?, ltb, ◌>>=◌, is_some, is_some-bind,
  if_both, arith,
}
use mo_t.Storage.Conversations.{ConversationSummary}
use mo_t.Protocol.Types.{
  MessageType, message_type, resp_conversations, conv_created, rte_text, resp_history,
  resp_contacts, resp_requests, resp_members, add_req_sent, add_success,
}
use mo_t.Protocol.Request.{buffer, u8_at, u32_at, text_at}
use mo_t.ClientApp.State.{AppState, Client, app_append_history}
use mo_t.ClientApp.Network.{
  contact_at, conversation_at, member_at, structs_at, with_lock, receive_array, store_contacts,
  store_requests, store_conversations, store_members, chat_line, redraw, in_chat, is_here,
  mark_unread, receive_text, on_packet, network_step,
}
use mo_t.ClientApp.Network.{draw_chat, receive_history, store_history}
use mo_t.ClientApp.State.{update_app}
use mo_t.Base.{if◌then◌else◌}
use mo_t.ClientApp.Invariant.{CanDraw, draw_chat-CanDraw, IsClient, app_append_history-IsHistory}

is_some-get_elem? : (bs : List ℕ) (i : ℕ) → i < length bs → is_some (get_elem? bs i) ≡ true
is_some-get_elem? [] i h = absurd (omega arith)
is_some-get_elem? (b ∷ bs) zero h = refl
is_some-get_elem? (b ∷ bs) (suc i) h = is_some-get_elem? bs i (omega arith)

is_some-u8_at : (bs : List ℕ) (i : ℕ) → i < length bs → is_some (u8_at bs i) ≡ true
unfolding u8_at
is_some-u8_at bs i h = is_some-get_elem? bs i h

is_some-u32_at : (bs : List ℕ) (i : ℕ) → i + 3 < length bs → is_some (u32_at bs i) ≡ true
unfolding u32_at
is_some-u32_at bs i h =
    is_some-bind (get_elem? bs i) _ (is_some-get_elem? bs i (omega arith)) (λ b0 e0.
      is_some-bind (get_elem? bs (i + 1)) _ (is_some-get_elem? bs (i + 1) (omega arith)) (λ b1 e1.
        is_some-bind (get_elem? bs (i + 2)) _ (is_some-get_elem? bs (i + 2) (omega arith)) (λ b2 e2.
          is_some-bind (get_elem? bs (i + 3)) _ (is_some-get_elem? bs (i + 3) h) (λ b3 e3. refl))))

is_some-text_at : (bs : List ℕ) (i : ℕ) → i < length bs → is_some (text_at bs i) ≡ true
unfolding text_at
is_some-text_at bs i h = let e : ltb i (length bs) ≡ true = ground arith in rw (e, text_at) refl

is_some-contact_at : (bs : List ℕ) → 40 ≤ length bs → is_some (contact_at bs) ≡ true
unfolding contact_at
is_some-contact_at bs h =
    is_some-bind (u32_at bs 0) _ (is_some-u32_at bs 0 (omega arith))
      (λ b0 e0. is_some-bind (u32_at bs 36) _ (is_some-u32_at bs 36 (omega arith)) (λ b1 e1. refl))

is_some-member_at : (bs : List ℕ) → 37 ≤ length bs → is_some (member_at bs) ≡ true
unfolding member_at
is_some-member_at bs h =
    is_some-bind (u32_at bs 0) _ (is_some-u32_at bs 0 (omega arith))
      (λ b0 e0. is_some-bind (u8_at bs 36) _ (is_some-u8_at bs 36 (omega arith)) (λ b1 e1. refl))

is_some-conversation_at : (bs : List ℕ) → 106 ≤ length bs → is_some (conversation_at bs) ≡ true
unfolding conversation_at
is_some-conversation_at bs h =
    is_some-bind (u32_at bs 0) _ (is_some-u32_at bs 0 (omega arith)) (λ b0 e0.
      is_some-bind (u8_at bs 4) _ (is_some-u8_at bs 4 (omega arith)) (λ b1 e1.
        is_some-bind (u32_at bs 101) _ (is_some-u32_at bs 101 (omega arith)) (λ b2 e2.
          is_some-bind (u8_at bs 105) _ (is_some-u8_at bs 105 (omega arith)) (λ b3 e3. refl))))

module _ {ℓ} {A : Type ℓ} (read : List ℕ → Option A) (size : ℕ)
    (reads : (bs : List ℕ) → size ≤ length bs → is_some (read bs) ≡ true) where
  is_some-structs_at :
      (count : ℕ) (bs : List ℕ)
      → count * size ≤ length bs
      → is_some (structs_at read size count bs) ≡ true
  unfolding structs_at
  is_some-structs_at zero bs h = refl
  is_some-structs_at (suc count) bs h =
      let e : suc count * size ≡ size + count * size = grind arith in
      is_some-bind (read bs) _ (reads bs (omega (arith, e))) (λ x e0.
        is_some-bind (structs_at read size count (drop size bs)) _
          (is_some-structs_at count (drop size bs) (omega (arith, e, length-drop size bs)))
          (λ xs e1. refl))

abbrev Goes : Option Client → Type 0
Goes o = is_some o ≡ true

is_some-with_lock :
    (act : Client → Option Client) (s : Client) → Goes (act s) → Goes (with_lock act s)
unfolding with_lock
is_some-with_lock act s h = if_both Goes s.app.locked _ _ refl h

length-buffer : (p : List ℕ) → length p ≤ length (buffer p)
length-buffer [] = omega arith
length-buffer (b ∷ p) = omega (arith, length-append p (0 ∷ []))

is_some-receive_array {ℓ} :
    {A : Type ℓ} (read : List ℕ → Option A) (size : ℕ) (store : List A → AppState → AppState)
    (count : ℕ) (p : List ℕ) (s : Client)
    → ((bs : List ℕ) → size ≤ length bs → is_some (read bs) ≡ true)
    → count * size ≤ length p
    → Goes (receive_array read size store count p s)
unfolding receive_array
is_some-receive_array read size store count p s reads h = is_some-with_lock _ s (
    is_some-bind (structs_at read size count (buffer p)) _
      (is_some-structs_at read size reads count (buffer p) (omega (arith, length-buffer p)))
      (λ xs e. refl))

is_some-mark_unread :
    (buf : List ℕ) (cs : List ConversationSummary)
    → 4 ≤ length buf
    → is_some (mark_unread buf cs) ≡ true
unfolding mark_unread
is_some-mark_unread buf [] h = refl
is_some-mark_unread buf (c ∷ cs) h =
    is_some-bind (u32_at buf 0) _ (is_some-u32_at buf 0 (omega arith)) (λ id e. refl)

is_some-is_here : (buf : List ℕ) (a : AppState) → 4 ≤ length buf → is_some (is_here buf a) ≡ true
unfolding is_here
is_some-is_here buf a h =
    if_both (λ (o : Option Bool). is_some o ≡ true) (in_chat a.current_state) _ _
      (is_some-bind (u32_at buf 0) _ (is_some-u32_at buf 0 (omega arith)) (λ id e. refl)) refl

drawn : (s : Client) → CanDraw s → Goes (draw_chat s >>= λ s'. some (redraw s'))
drawn s can = rw (draw_chat-CanDraw s can) refl

is_some-receive_history : (p : List ℕ) (s : Client) → CanDraw s → Goes (receive_history p s)
unfolding receive_history store_history
is_some-receive_history p s can =
    let s' = update_app (store_history p) s in
    is_some-bind (if in_chat s'.app.current_state then draw_chat s' else some s') _
      (if_both Goes (in_chat s'.app.current_state) _ _ (rw (draw_chat-CanDraw s' can) refl) refl)
      (λ s'' e. refl)

is_some-receive_text :
    (allocated : Bool) (buf : List ℕ) (s : Client)
    → IsClient s
    → CanDraw s
    → 40 < length buf
    → Goes (receive_text allocated buf s)
unfolding receive_text
is_some-receive_text allocated buf s h can long =
    is_some-bind (is_here buf s.app) _ (is_some-is_here buf s.app (omega arith)) (λ here e.
      if_both Goes here _ _
        (is_some-bind (text_at buf 8) _ (is_some-text_at buf 8 (omega arith)) (λ username e1.
          is_some-bind (text_at buf 40) _ (is_some-text_at buf 40 long)
            (λ text e2. adds username text)))
        (is_some-bind (mark_unread buf s.app.conversations) _
          (is_some-mark_unread buf s.app.conversations (omega arith)) (λ cs e1. refl)))
  where
    adds :
        (username text : List ℕ)
        → Goes (
            app_append_history allocated (chat_line username text) s.app >>= λ a.
            (draw_chat (record s { app = a }) >>= λ s'. some (redraw s')))
    adds username text =
        let (a', e, (_, _, frame)) =
          app_append_history-IsHistory allocated (chat_line username text) s.app h.1 in
        rw e (drawn (record s { app = a' }) (can.0, rw (← frame) can.1))

is_some-on_packet :
    (allocated : Bool) (t : MessageType) (p : List ℕ) (s : Client)
    → IsClient s
    → CanDraw s
    → (t ≡ rte_text → 40 ≤ length p)
    → Goes (on_packet allocated t p s)
unfolding on_packet
is_some-on_packet allocated rte_text [] s h can long = absurd (omega (arith, long refl))
is_some-on_packet allocated rte_text (b ∷ p) s h can long = is_some-with_lock _ s (
    is_some-receive_text allocated (b ∷ p ++ 0 ∷ []) s h can
      (omega (arith, long refl, length-append p (0 ∷ []))))
is_some-on_packet allocated resp_conversations [] s h can long = refl
is_some-on_packet allocated resp_conversations (b ∷ p) s h can long =
    is_some-receive_array conversation_at 106 store_conversations _ (b ∷ p) s
      is_some-conversation_at (omega arith)
is_some-on_packet allocated resp_history [] s h can long = refl
is_some-on_packet allocated resp_history (b ∷ p) s h can long =
    is_some-with_lock _ s (is_some-receive_history (b ∷ p) s can)
is_some-on_packet allocated resp_contacts [] s h can long = refl
is_some-on_packet allocated resp_contacts (b ∷ p) s h can long =
    is_some-receive_array contact_at 40 store_contacts _ (b ∷ p) s is_some-contact_at (omega arith)
is_some-on_packet allocated resp_requests [] s h can long = refl
is_some-on_packet allocated resp_requests (b ∷ p) s h can long =
    is_some-receive_array contact_at 40 store_requests _ (b ∷ p) s is_some-contact_at (omega arith)
is_some-on_packet allocated resp_members [] s h can long = refl
is_some-on_packet allocated resp_members (b ∷ p) s h can long =
    is_some-receive_array member_at 37 store_members _ (b ∷ p) s is_some-member_at (omega arith)
is_some-on_packet allocated conv_created p s h can long = refl
is_some-on_packet allocated add_req_sent p s h can long = refl
is_some-on_packet allocated add_success p s h can long = refl
is_some-on_packet allocated _ p s h can long = refl

-- Where the client satisfies IsClient, the window has at least 33 columns and the name of the
-- conversation is shorter than its array, every packet is handled without undefined behaviour, of
-- any type and with a payload of any size, the drawing of the chat included, if it is not a routed
-- message of less than 40 bytes.
pub network_step-is_some :
    (allocated : Bool) (n : ℕ) (p : List ℕ) (s : Client)
    → IsClient s
    → CanDraw s
    → (message_type n ≡ some rte_text → 40 ≤ length p)
    → is_some (network_step allocated n p s) ≡ true
unfolding network_step
network_step-is_some allocated n p s h can long =
    if_both Goes s.stalled _ _ refl (by_type (message_type n) long)
  where
    by_type :
        (o : Option MessageType)
        → (o ≡ some rte_text → 40 ≤ length p)
        → Goes (elim o [ none ↦ some s | some t ↦ on_packet allocated t p s ])
    by_type none long = refl
    by_type (some t) long = is_some-on_packet allocated t p s h can (λ e. long (ap some e))
