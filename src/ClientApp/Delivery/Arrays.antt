-- ===== src/ClientApp/Delivery/Arrays.antt =====
-- The arrays of structs in the packets that network_thread of src/client/main.c reads.
use mo_t.Base.{
  ℕ, ◌<◌, ◌≡◌, refl, ap, ◌∙◌, Bool, true, false, Option, some, List, [], ◌∷◌, ◌++◌, append_assoc,
  All, length, length-append, drop, drop-append, if◌then◌else◌, arith,
}
use mo_t.Storage.Contacts.{ContactSummary}
use mo_t.Storage.Conversations.{ConversationSummary, GroupMemberSummary}
use mo_t.Protocol.Layout.{le32, char_array, buffer-append, length-char_array}
use mo_t.ClientApp.State.{AppState, Client, update_app}
use mo_t.ClientApp.Network.{structs_at, redraw, with_lock, receive_array}
use mo_t.ClientApp.Delivery.{contact_bytes, conversation_bytes, member_bytes, array_bytes}

module _ {ℓ} {A : Type ℓ} (read : List ℕ → Option A) (bytes : A → List ℕ) (size : ℕ)
    (Fits : A → Type 0) (back : (x : A) (rest : List ℕ) → Fits x → read (bytes x ++ rest) ≡ some x)
    (len : (x : A) → length (bytes x) ≡ size) where
  structs_at-array_bytes :
      (xs : List A) (rest : List ℕ)
      → All Fits xs
      → structs_at read size (length xs) (array_bytes bytes xs ++ rest) ≡ some xs
  unfolding structs_at array_bytes
  structs_at-array_bytes [] rest h = refl
  structs_at-array_bytes (x ∷ xs) rest h =
      let behind = array_bytes bytes xs ++ rest in
      let others : structs_at read size (length xs) (drop size (bytes x ++ behind)) ≡ some xs =
        ap (structs_at read size (length xs)) (drop-append (bytes x) behind size (len x))
        ∙ structs_at-array_bytes xs rest h.1 in
      rw (append_assoc (bytes x) (array_bytes bytes xs) rest, structs_at, back x behind h.0, others)
        refl

  -- A list in a packet takes the place of the one before.
  pub receive_array-array_bytes :
      (store : List A → AppState → AppState) (count : ℕ) (xs : List A) (s : Client)
      → s.app.locked ≡ false
      → All Fits xs
      → 0 < length (array_bytes bytes xs)
      → count ≡ length xs
      → receive_array read size store count (array_bytes bytes xs) s
        ≡ some (redraw (update_app (store xs) s))
  unfolding receive_array with_lock
  receive_array-array_bytes store count xs s free h full e =
      rw (e, buffer-append (array_bytes bytes xs) full, structs_at-array_bytes xs (0 ∷ []) h)
        (ap
          (λ (b : Bool).
            if b
            then some (record s { stalled = true })
            else some (redraw (update_app (store xs) s)))
          free)

pub length-contact_bytes : (c : ContactSummary) → length (contact_bytes c) ≡ 40
unfolding contact_bytes
length-contact_bytes c = omega (
  arith,
  length-char_array 32 c.username,
  length-append (char_array 32 c.username) (le32 c.is_online),
)

pub length-member_bytes : (m : GroupMemberSummary) → length (member_bytes m) ≡ 37
unfolding member_bytes
length-member_bytes m =
    omega (
      arith,
      length-char_array 32 m.username,
      length-append (char_array 32 m.username) (m.role ∷ []),
    )

pub length-conversation_bytes : (c : ConversationSummary) → length (conversation_bytes c) ≡ 106
unfolding conversation_bytes
length-conversation_bytes c =
    let last = le32 c.unread_count ++ c.my_role ∷ [] in
    omega (
      arith,
      length-char_array 32 c.name,
      length-char_array 64 c.description,
      length-append (char_array 32 c.name) (char_array 64 c.description ++ last),
      length-append (char_array 64 c.description) last,
    )
