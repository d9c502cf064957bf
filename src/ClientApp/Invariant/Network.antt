-- ===== src/ClientApp/Invariant/Network.antt =====
-- The invariant of the client, over the packets of the server.
use mo_t.Base.{if◌then◌else◌, ◌>>=◌, some, Holds-chain}
use mo_t.ClientApp.Invariant.{Holds-draw_chat}
use mo_t.ClientApp.Network.{draw_chat, receive_history, in_chat}
use mo_t.Base.{
  ℕ, ◌≤◌, Bool, Option, none, some, List, [], ◌∷◌, c_str, length, if_both, Holds, Holds-bind, arith,
}
use mo_t.Protocol.Types.{
  MessageType, message_type, resp_conversations, conv_created, rte_text, resp_history,
  resp_contacts, resp_requests, resp_members, add_req_sent, add_success,
}
use mo_t.Protocol.Request.{buffer, text_at}
use mo_t.ClientApp.State.{AppState, Client, issue, update_app}
use mo_t.ClientApp.Network.{
  structs_at, redraw, with_lock, receive_array, contact_at, conversation_at, member_at,
  store_contacts, store_requests, store_conversations, store_members, store_history, chat_line,
  is_here, mark_unread, receive_text, on_packet, network_step,
}
use mo_t.ClientApp.Invariant.{IsClient, app_append_history-IsHistory}

length-c_str : (bs : List ℕ) → length (c_str bs) ≤ length bs
length-c_str [] = omega arith
length-c_str (b ∷ bs) = ground (arith, length-c_str bs)

with_lock-IsClient :
    (act : Client → Option Client) (s : Client)
    → IsClient s
    → Holds IsClient (act s)
    → Holds IsClient (with_lock act s)
unfolding with_lock
with_lock-IsClient act s h k = if_both (Holds IsClient) s.app.locked _ _ h k

receive_array-IsClient {ℓ} :
    {A : Type ℓ} (read : List ℕ → Option A) (size : ℕ) (store : List A → AppState → AppState)
    (count : ℕ) (p : List ℕ) (s : Client)
    → ((items : List A) → IsClient (update_app (store items) s))
    → IsClient s
    → Holds IsClient (receive_array read size store count p s)
unfolding receive_array redraw
receive_array-IsClient read size store count p s keep h =
    with_lock-IsClient _ s h
      (Holds-bind IsClient (structs_at read size count (buffer p)) _ (λ items e. keep items))

redrawn : (s : Client) → IsClient s → Holds IsClient (draw_chat s >>= λ s'. some (redraw s'))
unfolding redraw
redrawn s h =
    Holds-chain IsClient IsClient (draw_chat s) _ (Holds-draw_chat IsClient s h) (λ s' h'. h')

receive_history-IsClient :
    (b : ℕ) (p : List ℕ) (s : Client) → IsClient s → Holds IsClient (receive_history (b ∷ p) s)
unfolding receive_history store_history redraw
receive_history-IsClient b p s h =
    let s' = update_app (store_history (b ∷ p)) s in
    let h' : IsClient s' = (h.0, (length-c_str (b ∷ p), omega arith), h.2, h.3, h.4, h.5) in
    Holds-chain IsClient IsClient (if in_chat s'.app.current_state then draw_chat s' else some s') _
      (if_both (Holds IsClient) (in_chat s'.app.current_state) _ _ (Holds-draw_chat IsClient s' h')
        h')
      (λ s'' h''. h'')

receive_text-IsClient :
    (allocated : Bool) (buf : List ℕ) (s : Client)
    → IsClient s
    → Holds IsClient (receive_text allocated buf s)
unfolding receive_text redraw
receive_text-IsClient allocated buf s h = Holds-bind IsClient (is_here buf s.app) _ (λ here e.
    if_both (Holds IsClient) here _ _
      (Holds-bind IsClient (text_at buf 8) _ (λ username e'.
        Holds-bind IsClient (text_at buf 40) _ (λ text e''.
          let (a', e1, (_, hist, frame)) =
            app_append_history-IsHistory allocated (chat_line username text) s.app h.1 in
          rw e1 (
            redrawn (record s { app = a' })
              (rw (← frame) h.0, hist, rw (← frame) h.2, h.3, h.4, h.5)))))
      (Holds-bind IsClient (mark_unread buf s.app.conversations) _ (λ conversations e'. h)))

on_packet-IsClient :
    (allocated : Bool) (t : MessageType) (p : List ℕ) (s : Client)
    → IsClient s
    → Holds IsClient (on_packet allocated t p s)
unfolding on_packet redraw issue store_contacts store_requests store_conversations store_members
    store_history
on_packet-IsClient allocated conv_created p s h = h
on_packet-IsClient allocated add_req_sent p s h = h
on_packet-IsClient allocated add_success p s h = h
on_packet-IsClient allocated rte_text p s h =
    with_lock-IsClient _ s h (receive_text-IsClient allocated (buffer p) s h)
on_packet-IsClient allocated resp_conversations [] s h = h
on_packet-IsClient allocated resp_conversations (b ∷ p) s h =
    receive_array-IsClient conversation_at 106 store_conversations _ (b ∷ p) s (λ items. h) h
on_packet-IsClient allocated resp_history [] s h = h
on_packet-IsClient allocated resp_history (b ∷ p) s h =
    with_lock-IsClient _ s h (receive_history-IsClient b p s h)
on_packet-IsClient allocated resp_contacts [] s h = h
on_packet-IsClient allocated resp_contacts (b ∷ p) s h =
    receive_array-IsClient contact_at 40 store_contacts _ (b ∷ p) s (λ items. h) h
on_packet-IsClient allocated resp_requests [] s h = h
on_packet-IsClient allocated resp_requests (b ∷ p) s h =
    receive_array-IsClient contact_at 40 store_requests _ (b ∷ p) s
      (λ items. (h.0, h.1, omega arith, h.3, h.4, h.5)) h
on_packet-IsClient allocated resp_members [] s h = h
on_packet-IsClient allocated resp_members (b ∷ p) s h =
    receive_array-IsClient member_at 37 store_members _ (b ∷ p) s (λ items. h) h
on_packet-IsClient allocated _ p s h = h

pub network_step-IsClient :
    (allocated : Bool) (n : ℕ) (p : List ℕ) (s : Client)
    → IsClient s
    → Holds IsClient (network_step allocated n p s)
unfolding network_step
network_step-IsClient allocated n p s h =
    if_both (Holds IsClient) s.stalled _ _ h (by_type (message_type n))
  where
    by_type :
        (o : Option MessageType)
        → Holds IsClient (elim o [ none ↦ some s | some t ↦ on_packet allocated t p s ])
    by_type none = h
    by_type (some t) = on_packet-IsClient allocated t p s h
