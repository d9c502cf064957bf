-- ===== src/ClientApp/Services/Agreement.antt =====
-- The services of src/client/services and the handlers of src/server/handlers: what the dispatcher
-- does with a packet that a service sent.
use mo_t.Base.{
  ℕ, ◌%◌, ◌^◌, ◌≤◌, ◌<◌, ◌≡◌, ◌⊎◌, refl, ◌∙◌, inl, inr, Bool, true, false, none, some, List, [],
  ◌∷◌, Text, IsText, All, All-take, length, length-take, take, take-all, strncpy, ltb, ◌==◌,
  if◌then◌else◌, arith,
}
use mo_t.Clients.{Client}
use mo_t.Protocol.Types.{message_type-type_code, type_code}
use mo_t.Protocol.Request.{buffer, u32s_at}
use mo_t.Protocol.Layout.{IsText-take, le32, char_array}
use mo_t.Server.{handle, dispatch}
use mo_t.Server.State.{System, Server}
use mo_t.Server.Auth.{handle_register, handle_login, handle_update_user}
use mo_t.Server.Chat.{handle_send_text, handle_req_history}
use mo_t.Server.Groups.{
  handle_create_conv, claimed_uids, handle_req_members, handle_kick_member, handle_delete_group,
}
use mo_t.Server.Friends.{handle_add_by_code, handle_decide_request}
use mo_t.ClientApp.Services.{
  Request, service_register, service_login, service_update_user, service_send_text,
  service_req_history, service_add_contact, service_decide_request, group_uids, create_payload,
  service_create_group, service_create_private, service_delete_group, service_req_members,
  service_kick_member,
}
use mo_t.ClientApp.Services.Meaning.{
  Call, registers, logs_in, updates, sends, reads_history, adds_contact, decides, creates_group,
  creates_private, deletes, lists_members, kicks, meaning, created,
}
use mo_t.ClientApp.Services.Layouts.{
  register_fields, login_fields, update_fields, u32_field, text_fields, second_field, code_field,
  decide_fields, create_fields,
}
use mo_t.ClientApp.Services.Calls.{request_of, clipped, IsCall}

sent_is : (b : Bool) {r r' : Request} → (if b then none else some r) ≡ some r' → r ≡ r'
sent_is true h = cc
sent_is false h = cc

-- At most ten ids are all taken off the packet.
all_claimed :
    (sys : System) (uids p : List ℕ)
    → length uids ≤ 10
    → u32s_at (length uids) p 101 ≡ some uids
    → claimed_uids sys (length uids) p ≡ some uids
unfolding claimed_uids
all_claimed sys uids p few h =
    let small : ltb (length uids) (2 ^ 31) ≡ true = ground arith in
    let whole : ltb 10 (length uids) ≡ false = ground arith in rw (small, whole) h

module _ (sys : System) (now my_uid : ℕ) (cli : Client) (s : Server) where
  dispatch-send :
      (r : Request)
      → dispatch sys now cli (type_code r.kind) r.payload s
        ≡ handle sys now cli r.kind (buffer r.payload) s
  unfolding dispatch
  dispatch-send r = rw (dispatch, message_type-type_code r.kind) refl

  abbrev Served : Call → Request → Type 0
  Served call r =
      dispatch sys now cli (type_code r.kind) r.payload s
      ≡ meaning sys now my_uid cli s (clipped call)

  registers-Served :
      (email username password : Text)
      → IsCall my_uid (registers email username password)
      → Served (registers email username password) (service_register email username password)
  unfolding handle handle_register service_register
  registers-Served email username password (te, tu, tp) =
      let (e, u, p) = register_fields email username password te tu tp in
      dispatch-send _ ∙ rw (e, u, p) refl

  logs_in-Served :
      (email password : Text)
      → IsCall my_uid (logs_in email password)
      → Served (logs_in email password) (service_login email password)
  unfolding handle handle_login service_login
  logs_in-Served email password (te, tp) =
      let (e, p) = login_fields email [] password te tt tp in dispatch-send _ ∙ rw (e, p) refl

  updates-Served :
      (username password : Text)
      → IsCall my_uid (updates username password)
      → Served (updates username password) (service_update_user username password)
  unfolding handle handle_update_user service_update_user
  updates-Served username password (tu, tp) =
      let (u, p) = update_fields [] username password tt tu tp in dispatch-send _ ∙ rw (u, p) refl

  sends-Served :
      (conv : ℕ) (text : Text) (r : Request)
      → IsCall my_uid (sends conv text)
      → service_send_text conv text ≡ some r
      → Served (sends conv text) r
  unfolding handle handle_send_text service_send_text
  sends-Served conv text r (small, t) h = rw (← sent_is (length text == 0) h) (
      dispatch-send _
      ∙ rw
          (
            u32_field conv small (char_array 1024 (strncpy 1023 text)),
            text_fields conv small text t,
          )
          refl)

  reads_history-Served :
      (conv : ℕ) → conv < 2 ^ 32 → Served (reads_history conv) (service_req_history conv)
  unfolding handle handle_req_history service_req_history
  reads_history-Served conv small = dispatch-send _ ∙ rw (u32_field conv small []) refl

  adds_contact-Served :
      (code : Text) → IsText code → Served (adds_contact code) (service_add_contact code)
  unfolding handle handle_add_by_code service_add_contact
  adds_contact-Served code t = dispatch-send _ ∙ rw (code_field code t) refl

  decides-Served :
      (target accept : ℕ)
      → target < 2 ^ 32
      → Served (decides target accept) (service_decide_request target accept)
  unfolding handle handle_decide_request service_decide_request
  decides-Served target accept small =
      let (a, t) = decide_fields target (accept % 256) small in dispatch-send _ ∙ rw (a, t) refl

  deletes-Served : (conv : ℕ) → conv < 2 ^ 32 → Served (deletes conv) (service_delete_group conv)
  unfolding handle handle_delete_group service_delete_group
  deletes-Served conv small = dispatch-send _ ∙ rw (u32_field conv small []) refl

  lists_members-Served :
      (conv : ℕ) → conv < 2 ^ 32 → Served (lists_members conv) (service_req_members conv)
  unfolding handle handle_req_members service_req_members
  lists_members-Served conv small = dispatch-send _ ∙ rw (u32_field conv small []) refl

  kicks-Served :
      (conv target : ℕ)
      → conv < 2 ^ 32
      → target < 2 ^ 32
      → Served (kicks conv target) (service_kick_member conv target)
  unfolding handle handle_kick_member service_kick_member
  kicks-Served conv target small small' =
      dispatch-send _
      ∙ rw (u32_field conv small (le32 target), second_field conv small target small') refl

  -- A conversation of at most ten users.
  handle_create_conv-created :
      (kind : ℕ) (name desc : Text) (uids : List ℕ)
      → IsText name
      → IsText desc
      → length desc < 64
      → length uids ≤ 10
      → All (λ n. n < 2 ^ 32) uids
      → (length name < 32) ⊎ (desc ≡ [])
      → handle_create_conv sys cli (buffer (create_payload kind name desc uids)) s
        ≡ created sys cli s kind (take 32 name) desc uids
  unfolding handle_create_conv
  handle_create_conv-created kind name desc uids tn td short few small ended =
      let (k, count, us, n, d) = create_fields kind name desc uids tn td short few small ended in
      rw (k, count, all_claimed sys uids _ few us, n, d) refl

  creates_group-Served :
      (name desc : Text) (uids : List ℕ) (r : Request)
      → IsCall my_uid (creates_group name desc uids)
      → service_create_group my_uid name desc uids ≡ some r
      → Served (creates_group name desc uids) r
  unfolding handle service_create_group group_uids
  creates_group-Served name desc uids r (tn, td, me, small) h =
      rw (← sent_is (ltb (length uids) 1) h) (
        dispatch-send _
        ∙ handle_create_conv-created 1 (take 31 name) (take 63 desc) (group_uids my_uid uids)
            (IsText-take 31 name tn) (IsText-take 63 desc td) (omega (arith, length-take 63 desc))
            (omega (arith, length-take 9 uids)) (me, All-take _ 9 uids small)
            (inl (omega (arith, length-take 31 name)))
        ∙ rw (take-all 32 (take 31 name) (omega (arith, length-take 31 name))) refl)

  creates_private-Served :
      (target : ℕ) (name : Text)
      → IsCall my_uid (creates_private target name)
      → Served (creates_private target name) (service_create_private my_uid target name)
  unfolding handle service_create_private
  creates_private-Served target name (tn, me, you) =
      dispatch-send _
      ∙ handle_create_conv-created 0 (take 32 name) [] (my_uid ∷ target ∷ [])
          (IsText-take 32 name tn) tt (omega arith) (omega arith) (me, (you, tt)) (inr refl)
      ∙ rw (take-all 32 (take 32 name) (omega (arith, length-take 32 name))) refl

  by_packet : (call : Call) (r r' : Request) → some r ≡ some r' → Served call r → Served call r'
  by_packet call r r' sent served = let same : r ≡ r' = cc sent in rw (← same) served

  -- Where a call of a service has C strings as its texts and ids below 2^32, and the service sends
  -- a packet, the dispatcher does with that packet what the call asks for: it runs the operations
  -- of the handlers on the arguments of the call, the texts cut to their arrays and the acceptance
  -- to its byte.
  pub dispatch-request_of :
      (call : Call) (r : Request)
      → IsCall my_uid call
      → request_of my_uid call ≡ some r
      → dispatch sys now cli (type_code r.kind) r.payload s
        ≡ meaning sys now my_uid cli s (clipped call)
  dispatch-request_of (registers e u p) r h sent =
      by_packet (registers e u p) _ r sent (registers-Served e u p h)
  dispatch-request_of (logs_in e p) r h sent =
      by_packet (logs_in e p) _ r sent (logs_in-Served e p h)
  dispatch-request_of (updates u p) r h sent =
      by_packet (updates u p) _ r sent (updates-Served u p h)
  dispatch-request_of (sends conv text) r h sent = sends-Served conv text r h sent
  dispatch-request_of (reads_history conv) r h sent =
      by_packet (reads_history conv) _ r sent (reads_history-Served conv h)
  dispatch-request_of (adds_contact code) r h sent =
      by_packet (adds_contact code) _ r sent (adds_contact-Served code h)
  dispatch-request_of (decides t a) r h sent =
      by_packet (decides t a) _ r sent (decides-Served t a h)
  dispatch-request_of (creates_group n d uids) r h sent = creates_group-Served n d uids r h sent
  dispatch-request_of (creates_private t n) r h sent =
      by_packet (creates_private t n) _ r sent (creates_private-Served t n h)
  dispatch-request_of (deletes conv) r h sent =
      by_packet (deletes conv) _ r sent (deletes-Served conv h)
  dispatch-request_of (lists_members conv) r h sent =
      by_packet (lists_members conv) _ r sent (lists_members-Served conv h)
  dispatch-request_of (kicks conv t) r h sent =
      by_packet (kicks conv t) _ r sent (kicks-Served conv t h.0 h.1)
