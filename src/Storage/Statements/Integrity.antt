-- ===== src/Storage/Statements/Integrity.antt =====
-- The constraints of the schema in src/server/storage.c, as predicates on the tables.
pub mod Users
pub mod Friends
pub mod Exec
use mo_t.Base.{
  ℕ, ◌≤◌, ◌<◌, ◌≡◌, ◌≢◌, true, Bool, ◌&&◌, List, any, All, Unique, suc, ◌+◌, ◌++◌, ◌∷◌, [], arith,
  All-append, All-map, ◌==◌,
}
use mo_t.Storage.Tables.{UserRow, ConversationRow, ParticipantRow, MessageRow, Db}
use mo_t.Storage.Statements.{same_pair}

-- An id that AUTOINCREMENT has given.
abbrev pub IsGiven : ℕ → ℕ → Type 0
IsGiven seq id = (0 < id) × (id ≤ seq)

abbrev pub seat_key : ParticipantRow → ℕ × ℕ
seat_key p = (p.conv_id, p.user_id)

abbrev pub pair_key : ℕ × ℕ → ℕ × ℕ
pair_key p = p

pub record UserKeys (users : List UserRow) (seq : ℕ) : Type 0 where
  pub given : All (λ u. IsGiven seq u.uid) users
  pub uids : Unique (λ (u : UserRow). u.uid) users
  pub usernames : Unique (λ (u : UserRow). u.username) users
  pub emails : Unique (λ (u : UserRow). u.email) users
  pub codes : Unique (λ (u : UserRow). u.friend_code) users

-- Friendship goes both ways, and nobody is their own friend.
abbrev pub IsMutual : List (ℕ × ℕ) → Type 0
IsMutual contacts =
    (a b : ℕ)
    → any (same_pair a b) contacts ≡ true
    → (any (same_pair b a) contacts ≡ true) × (a ≢ b)

pub record ContactKeys (contacts : List (ℕ × ℕ)) : Type 0 where
  pub pairs : Unique pair_key contacts
  pub friendships : IsMutual contacts

pub record ConversationKeys (conversations : List ConversationRow) (seq : ℕ) : Type 0 where
  pub given : All (λ c. IsGiven seq c.conv_id) conversations
  pub conv_ids : Unique (λ (c : ConversationRow). c.conv_id) conversations

pub record MessageKeys (messages : List MessageRow) (seq : ℕ) : Type 0 where
  pub given : All (λ m. IsGiven seq m.id) messages
  pub ids : Unique (λ (m : MessageRow). m.id) messages

pub record Integrity (db : Db) : Type 0 where
  pub users : UserKeys db.users db.user_seq
  pub contacts : ContactKeys db.contacts
  pub requests : Unique pair_key db.requests
  pub conversations : ConversationKeys db.conversations db.conversation_seq
  pub seats : Unique seat_key db.participants
  pub messages : MessageKeys db.messages db.message_seq

-- Ids that were given stay so, and a new one differs from them.
module _ {A : Type 0} (key : A → ℕ) (seq skipped : ℕ) (xs : List A)
    (h : All (λ x. IsGiven seq (key x)) xs) where
  pub IsGiven-ne : All (λ x. key x ≢ seq + suc skipped) xs
  IsGiven-ne = All-map (λ x g. omega arith) xs h

  pub IsGiven-snoc :
      (x : A)
      → key x ≡ seq + suc skipped
      → All (λ x. IsGiven (seq + suc skipped) (key x)) (xs ++ x ∷ [])
  IsGiven-snoc x e =
      All-append (λ x. IsGiven (seq + suc skipped) (key x)) xs (x ∷ [])
        (All-map (λ x g. omega arith) xs h) (omega arith, tt)
