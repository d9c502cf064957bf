-- ===== src/ClientApp/Delivery.antt =====
-- The arrays of structs that src/server sends and network_thread of src/client/main.c reads. A char
-- array is what strncpy leaves: it has no NUL if it is full.
pub mod Arrays
pub mod Lists
use mo_t.Base.{
  ℕ, zero, suc, ◌+◌, ◌-◌, ◌*◌, ◌/◌, ◌^◌, ◌≤◌, ◌<◌, ◌≡◌, refl, sym, ap, ◌∙◌, Option, none, some,
  List, [], ◌∷◌, ◌++◌, append_assoc, append-nil, Text, IsText, c_str, All, length, length-append,
  take, take-all, take-append, drop, false, ◌==◌, ◌>>=◌, arith,
}
use mo_t.Storage.Contacts.{ContactSummary}
use mo_t.Storage.Conversations.{ConversationSummary, GroupMemberSummary}
use mo_t.Protocol.Request.{u8_at, u32_at}
use mo_t.Protocol.Layout.{
  le32, zeros, char_array, length-char_array, u8_at-append, u32_at-append, u32_at-le32, drop_behind,
}
use mo_t.ClientApp.Network.{chars_at, contact_at, conversation_at, member_at, structs_at}

unfoldable pub contact_bytes : ContactSummary → List ℕ
contact_bytes c = le32 c.uid ++ (char_array 32 c.username ++ le32 c.is_online)

unfoldable pub conversation_bytes : ConversationSummary → List ℕ
conversation_bytes c =
    le32 c.conv_id
    ++ (c.kind ∷ char_array 32 c.name
        ++ (char_array 64 c.description ++ (le32 c.unread_count ++ c.my_role ∷ [])))

unfoldable pub member_bytes : GroupMemberSummary → List ℕ
member_bytes m = le32 m.uid ++ (char_array 32 m.username ++ m.role ∷ [])

unfoldable pub array_bytes {ℓ} : {A : Type ℓ} → (A → List ℕ) → List A → List ℕ
array_bytes bytes [] = []
array_bytes bytes (x ∷ xs) = bytes x ++ array_bytes bytes xs

c_str_behind : (s rest : List ℕ) → IsText s → c_str (s ++ rest) ≡ s ++ c_str rest
c_str_behind [] rest t = refl
c_str_behind (c ∷ s) rest t =
    let here : (c == 0) ≡ false = ground arith in
    rw (here, c_str) (ap (◌∷◌ c) (c_str_behind s rest t.1))

-- The characters of an array, which may be full.
chars_at-char_array :
    (n : ℕ) (s : Text) (rest : List ℕ)
    → IsText s
    → length s ≤ n
    → chars_at n (char_array n s ++ rest) 0 ≡ s
unfolding chars_at char_array
chars_at-char_array n s rest t h =
    rw
      (
        take-all n s h,
        append_assoc s (zeros (n - length s)) rest,
        c_str_behind s (zeros (n - length s) ++ rest) t,
      )
      (by_room (n - length s) refl)
  where
    by_room : (m : ℕ) → n - length s ≡ m → take n (s ++ c_str (zeros m ++ rest)) ≡ s
    by_room zero e = take-append s (c_str rest) n (omega arith)
    by_room (suc m) e = rw (append-nil s) (take-all n s h)

chars_at-append :
    (front rest : List ℕ) (n i off : ℕ)
    → i ≡ length front + off
    → chars_at n (front ++ rest) i ≡ chars_at n rest off
unfolding chars_at
chars_at-append front rest n i off e = ap (λ p. take n (c_str p)) (drop_behind front rest i off e)

-- A name between a uint32_t and other fields.
module _ (uid : ℕ) (name : Text) (tail : List ℕ) (small : uid < 2 ^ 32) (t : IsText name)
    (n : length name ≤ 32) where
  named_uid : u32_at (le32 uid ++ (char_array 32 name ++ tail)) 0 ≡ some uid
  named_uid = u32_at-le32 uid (char_array 32 name ++ tail) small

  named_name : chars_at 32 (le32 uid ++ (char_array 32 name ++ tail)) 4 ≡ name
  named_name =
      chars_at-append (le32 uid) (char_array 32 name ++ tail) 32 4 0 refl
      ∙ chars_at-char_array 32 name tail t n

abbrev pub IsContact : ContactSummary → Type 0
IsContact c =
    (c.uid < 2 ^ 32) × IsText c.username × (length c.username ≤ 32) × (c.is_online < 2 ^ 32)

pub contact_at-contact_bytes :
    (c : ContactSummary) (rest : List ℕ)
    → IsContact c
    → contact_at (contact_bytes c ++ rest) ≡ some c
unfolding contact_at contact_bytes
contact_at-contact_bytes c rest (u, t, n, o) =
    let tail = le32 c.is_online ++ rest in
    let online : u32_at (le32 c.uid ++ (char_array 32 c.username ++ tail)) 36 ≡ some c.is_online =
      u32_at-append (le32 c.uid) (char_array 32 c.username ++ tail) 4 32 refl 36 refl
      ∙ u32_at-append (char_array 32 c.username) tail 32 0 (length-char_array 32 c.username) 32 refl
      ∙ u32_at-le32 c.is_online rest o in
    rw
      (
        append_assoc (char_array 32 c.username) (le32 c.is_online) rest,
        named_uid c.uid c.username tail u t n,
        online,
        named_name c.uid c.username tail u t n,
        contact_at,
      )
      refl

first_byte : (b : ℕ) (rest : List ℕ) → u8_at (b ∷ rest) 0 ≡ some b
unfolding u8_at
first_byte b rest = refl

abbrev pub IsMember : GroupMemberSummary → Type 0
IsMember m = (m.uid < 2 ^ 32) × IsText m.username × (length m.username ≤ 32)

pub member_at-member_bytes :
    (m : GroupMemberSummary) (rest : List ℕ)
    → IsMember m
    → member_at (member_bytes m ++ rest) ≡ some m
unfolding member_at member_bytes
member_at-member_bytes m rest (u, t, n) =
    let tail = m.role ∷ rest in
    let role : u8_at (le32 m.uid ++ (char_array 32 m.username ++ tail)) 36 ≡ some m.role =
      u8_at-append (le32 m.uid) (char_array 32 m.username ++ tail) 4 32 refl 36 refl
      ∙ u8_at-append (char_array 32 m.username) tail 32 0 (length-char_array 32 m.username) 32 refl
      ∙ first_byte m.role rest in
    rw
      (
        append_assoc (char_array 32 m.username) (m.role ∷ []) rest,
        named_uid m.uid m.username tail u t n,
        role,
        named_name m.uid m.username tail u t n,
        member_at,
      )
      refl

abbrev pub IsConversation : ConversationSummary → Type 0
IsConversation c =
    (c.conv_id < 2 ^ 32)
    × (IsText c.name × (length c.name ≤ 32))
    × (IsText c.description × (length c.description ≤ 64))
    × (c.unread_count < 2 ^ 32)

pub conversation_at-conversation_bytes :
    (c : ConversationSummary) (rest : List ℕ)
    → IsConversation c
    → conversation_at (conversation_bytes c ++ rest) ≡ some c
unfolding conversation_at conversation_bytes u8_at
conversation_at-conversation_bytes c rest (u, (t, n), (td, nd), un) =
    let name = char_array 32 c.name in
    let desc = char_array 64 c.description in
    let last = le32 c.unread_count ++ c.my_role ∷ rest in
    let front = le32 c.conv_id ++ c.kind ∷ [] in
    let n1 = length-char_array 32 c.name in
    let n2 = length-char_array 64 c.description in
    let regroup : conversation_bytes c ++ rest ≡ front ++ (name ++ (desc ++ last)) =
      rw
        (
          conversation_bytes,
          append_assoc name (desc ++ (le32 c.unread_count ++ c.my_role ∷ [])) rest,
          append_assoc desc (le32 c.unread_count ++ c.my_role ∷ []) rest,
        )
        refl in
    let shown_name : chars_at 32 (front ++ (name ++ (desc ++ last))) 5 ≡ c.name =
      chars_at-append front (name ++ (desc ++ last)) 32 5 0 refl
      ∙ chars_at-char_array 32 c.name (desc ++ last) t n in
    let shown_desc : chars_at 64 (front ++ (name ++ (desc ++ last))) 37 ≡ c.description =
      chars_at-append front (name ++ (desc ++ last)) 64 37 32 refl
      ∙ chars_at-append name (desc ++ last) 64 32 0 (omega (arith, n1))
      ∙ chars_at-char_array 64 c.description last td nd in
    let unread : u32_at (front ++ (name ++ (desc ++ last))) 101 ≡ some c.unread_count =
      u32_at-append front (name ++ (desc ++ last)) 5 96 refl 101 refl
      ∙ u32_at-append name (desc ++ last) 32 64 n1 96 refl
      ∙ u32_at-append desc last 64 0 n2 64 refl
      ∙ u32_at-le32 c.unread_count (c.my_role ∷ rest) un in
    let role : u8_at (front ++ (name ++ (desc ++ last))) 105 ≡ some c.my_role =
      u8_at-append front (name ++ (desc ++ last)) 5 100 refl 105 refl
      ∙ u8_at-append name (desc ++ last) 32 68 n1 100 refl
      ∙ u8_at-append desc last 64 4 n2 68 refl in
    rw
      (
        regroup,
        u32_at-le32 c.conv_id (c.kind ∷ name ++ (desc ++ last)) u,
        shown_name,
        shown_desc,
        unread,
        role,
        conversation_at,
      )
      refl
