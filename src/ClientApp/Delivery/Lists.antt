-- ===== src/ClientApp/Delivery/Lists.antt =====
-- The lists that src/server sends, and what network_thread of src/client/main.c makes of them.
use mo_t.Base.{
  ℕ, ◌*◌, ◌/◌, ◌<◌, ◌≡◌, refl, ap, ◌∙◌, Bool, false, some, List, [], ◌∷◌, All, length,
  length-append, if◌then◌else◌, arith,
}
use mo_t.Storage.Contacts.{ContactSummary}
use mo_t.Storage.Conversations.{ConversationSummary, GroupMemberSummary}
use mo_t.Protocol.Types.{
  MessageType, type_code, message_type-type_code, resp_contacts, resp_requests, resp_conversations,
  resp_members,
}
use mo_t.ClientApp.State.{AppState, Client, update_app}
use mo_t.ClientApp.Network.{
  contact_at, conversation_at, member_at, redraw, receive_array, store_contacts, store_requests,
  store_conversations, store_members, on_packet, network_step,
}
use mo_t.ClientApp.Delivery.{
  contact_bytes, conversation_bytes, member_bytes, array_bytes, IsContact, IsConversation, IsMember,
  contact_at-contact_bytes, conversation_at-conversation_bytes, member_at-member_bytes,
}
use mo_t.ClientApp.Delivery.Arrays.{
  receive_array-array_bytes, length-contact_bytes, length-member_bytes, length-conversation_bytes,
}

-- A list in a reply.
pub data Reply : Type 0 where
  contact_list request_list : List ContactSummary → Reply
  conversation_list : List ConversationSummary → Reply
  member_list : List GroupMemberSummary → Reply

abbrev pub reply_type : Reply → MessageType
reply_type (contact_list cs) = resp_contacts
reply_type (request_list cs) = resp_requests
reply_type (conversation_list cs) = resp_conversations
reply_type (member_list ms) = resp_members

abbrev pub reply_bytes : Reply → List ℕ
reply_bytes (contact_list cs) = array_bytes contact_bytes cs
reply_bytes (request_list cs) = array_bytes contact_bytes cs
reply_bytes (conversation_list cs) = array_bytes conversation_bytes cs
reply_bytes (member_list ms) = array_bytes member_bytes ms

-- The list has an element, and its fields fit their places.
abbrev pub IsReply : Reply → Type 0
IsReply (contact_list cs) = All IsContact cs × (0 < length cs)
IsReply (request_list cs) = All IsContact cs × (0 < length cs)
IsReply (conversation_list cs) = All IsConversation cs × (0 < length cs)
IsReply (member_list ms) = All IsMember ms × (0 < length ms)

abbrev pub store_reply : Reply → AppState → AppState
store_reply (contact_list cs) a = record a { contacts = cs }
store_reply (request_list cs) a = record a { requests = cs; requests_count = length cs }
store_reply (conversation_list cs) a = record a { conversations = cs }
store_reply (member_list ms) a = record a { current_group_members = ms }

length-contacts :
    (cs : List ContactSummary) → length (array_bytes contact_bytes cs) ≡ 40 * length cs
unfolding array_bytes
length-contacts [] = omega arith
length-contacts (c ∷ cs) = omega (
  arith,
  length-append (contact_bytes c) (array_bytes contact_bytes cs),
  length-contact_bytes c,
  length-contacts cs,
)

length-conversations :
    (cs : List ConversationSummary) → length (array_bytes conversation_bytes cs) ≡ 106 * length cs
unfolding array_bytes
length-conversations [] = omega arith
length-conversations (c ∷ cs) = omega (
  arith,
  length-append (conversation_bytes c) (array_bytes conversation_bytes cs),
  length-conversation_bytes c,
  length-conversations cs,
)

length-members :
    (ms : List GroupMemberSummary) → length (array_bytes member_bytes ms) ≡ 37 * length ms
unfolding array_bytes
length-members [] = omega arith
length-members (m ∷ ms) = omega (
  arith,
  length-append (member_bytes m) (array_bytes member_bytes ms),
  length-member_bytes m,
  length-members ms,
)

-- A payload that is not empty is an array.
module _ (allocated : Bool) (s : Client) where
  on_contacts :
      (p : List ℕ)
      → 0 < length p
      → on_packet allocated resp_contacts p s
        ≡ receive_array contact_at 40 store_contacts (length p / 40) p s
  unfolding on_packet
  on_contacts [] n = absurd (omega arith)
  on_contacts (b ∷ p) n = refl

  on_requests :
      (p : List ℕ)
      → 0 < length p
      → on_packet allocated resp_requests p s
        ≡ receive_array contact_at 40 store_requests (length p / 40) p s
  unfolding on_packet
  on_requests [] n = absurd (omega arith)
  on_requests (b ∷ p) n = refl

  on_conversations :
      (p : List ℕ)
      → 0 < length p
      → on_packet allocated resp_conversations p s
        ≡ receive_array conversation_at 106 store_conversations (length p / 106) p s
  unfolding on_packet
  on_conversations [] n = absurd (omega arith)
  on_conversations (b ∷ p) n = refl

  on_members :
      (p : List ℕ)
      → 0 < length p
      → on_packet allocated resp_members p s
        ≡ receive_array member_at 37 store_members (length p / 37) p s
  unfolding on_packet
  on_members [] n = absurd (omega arith)
  on_members (b ∷ p) n = refl

  on_packet-reply_bytes :
      (r : Reply)
      → s.app.locked ≡ false
      → IsReply r
      → on_packet allocated (reply_type r) (reply_bytes r) s
        ≡ some (redraw (update_app (store_reply r) s))
  unfolding store_contacts store_requests store_conversations store_members
  on_packet-reply_bytes (contact_list cs) free (h, n) =
      let e = length-contacts cs in
      on_contacts (array_bytes contact_bytes cs) (omega (arith, e))
      ∙ receive_array-array_bytes contact_at contact_bytes 40 IsContact contact_at-contact_bytes
          length-contact_bytes store_contacts _ cs s free h (omega (arith, e)) (omega (arith, e))
  on_packet-reply_bytes (request_list cs) free (h, n) =
      let e = length-contacts cs in
      on_requests (array_bytes contact_bytes cs) (omega (arith, e))
      ∙ receive_array-array_bytes contact_at contact_bytes 40 IsContact contact_at-contact_bytes
          length-contact_bytes store_requests _ cs s free h (omega (arith, e)) (omega (arith, e))
  on_packet-reply_bytes (conversation_list cs) free (h, n) =
      let e = length-conversations cs in
      on_conversations (array_bytes conversation_bytes cs) (omega (arith, e))
      ∙ receive_array-array_bytes conversation_at conversation_bytes 106 IsConversation
          conversation_at-conversation_bytes length-conversation_bytes store_conversations _ cs s
          free h (omega (arith, e)) (omega (arith, e))
  on_packet-reply_bytes (member_list ms) free (h, n) =
      let e = length-members ms in
      on_members (array_bytes member_bytes ms) (omega (arith, e))
      ∙ receive_array-array_bytes member_at member_bytes 37 IsMember member_at-member_bytes
          length-member_bytes store_members _ ms s free h (omega (arith, e)) (omega (arith, e))

  -- Where the network thread does not wait and the lock is free, a list of contacts, requests,
  -- conversations or members that is not empty, with ids below 2^32 and C strings that fit their
  -- arrays, in the bytes of its structs: the packet makes exactly this list the one that the
  -- client keeps, asks for a redraw, and changes nothing else.
  pub network_step-reply_bytes :
      (r : Reply)
      → s.stalled ≡ false
      → s.app.locked ≡ false
      → IsReply r
      → network_step allocated (type_code (reply_type r)) (reply_bytes r) s
        ≡ some (redraw (update_app (store_reply r) s))
  unfolding network_step
  network_step-reply_bytes r flowing free h =
      rw (message_type-type_code (reply_type r), network_step)
        (ap
            (λ (b : Bool).
              if b then some s else on_packet allocated (reply_type r) (reply_bytes r) s)
            flowing
          ∙ on_packet-reply_bytes r free h)
