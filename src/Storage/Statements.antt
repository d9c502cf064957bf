-- ===== src/Storage/Statements.antt =====
-- The SQL statements of src/server/storage.c with the values bound to them, and what each does to
-- the tables under the constraints of the schema.
pub mod Integrity
use mo_t.Base.{
  ℕ, suc, ◌+◌, Bool, true, ◌&&◌, ◌||◌, not, Option, none, some, List, [], ◌∷◌, ◌++◌, map, Text,
  text_eq, select, any, ◌==◌, if◌then◌else◌,
}
use mo_t.Storage.Tables.{UserRow, ConversationRow, ParticipantRow, MessageRow, Db}

-- The statements that change the tables. A hash that `crypt` failed to make is bound as NULL.
pub data Update : Type 0 where
  insert_user : Text → Text → Option Text → Text → Update
  update_username : Text → ℕ → Update
  update_password : Option Text → ℕ → Update
  insert_request delete_request insert_contacts : ℕ → ℕ → Update
  insert_conversation : ℕ → Text → Text → Update
  insert_participant insert_or_ignore_participant : ℕ → ℕ → ℕ → Update
  update_conversation : Text → Text → ℕ → Update
  delete_participant : ℕ → ℕ → Update
  delete_messages delete_participants delete_conversation : ℕ → Update
  insert_message : ℕ → ℕ → Text → ℕ → Update

-- The statements that read.
pub data Query : Type 0 where
  select_credentials select_uid : Text → Query
  select_user select_contacts select_requests : ℕ → Query
  select_private : ℕ → ℕ → Query
  select_conversations : ℕ → Query
  select_other : ℕ → ℕ → Query
  select_participants : ℕ → Query
  select_role : ℕ → ℕ → Query
  select_members select_history : ℕ → Query

abbrev pub same_pair : ℕ → ℕ → ℕ × ℕ → Bool
same_pair a b p = p.0 == a && p.1 == b

abbrev pub same_seat : ℕ → ℕ → ParticipantRow → Bool
same_seat conv uid p = p.conv_id == conv && p.user_id == uid

abbrev pub has_username : Text → UserRow → Bool
has_username name u = text_eq u.username name

-- UNIQUE of username, email and friend_code.
abbrev pub same_user : Text → Text → Text → UserRow → Bool
same_user name email code u =
    text_eq u.username name || text_eq u.email email || text_eq u.friend_code code

-- UPDATE users SET username = ? WHERE uid = ?
abbrev pub rename : Text → ℕ → UserRow → UserRow
rename name uid u = if u.uid == uid then record u { username = name } else u

-- UPDATE users SET password_hash = ? WHERE uid = ?
abbrev pub rehash : Text → ℕ → UserRow → UserRow
rehash hash uid u = if u.uid == uid then record u { password_hash = hash } else u

-- UPDATE conversations SET name = ?, description = ? WHERE conv_id = ?
abbrev pub retitle : Text → Text → ℕ → ConversationRow → ConversationRow
retitle name desc conv c =
    if c.conv_id == conv then record c { name = name; description = desc } else c

unfoldable pub add_participant : Db → ℕ → ℕ → ℕ → Option Db
add_participant db conv uid role =
    if any (same_seat conv uid) db.participants
    then none
    else some (record db { participants = db.participants ++ seat ∷ [] })
  where
    seat : ParticipantRow
    seat = record { conv_id = conv; user_id = uid; role = role }

-- What a statement does to the tables; `none` is SQLITE_CONSTRAINT, which undoes the statement.
-- `skipped` is how many ids AUTOINCREMENT leaves out before the one that it gives.
unfoldable pub exec : ℕ → Update → Db → Option Db
unfolding add_participant
exec skipped (insert_user name email none code) db = none
exec skipped (insert_user name email (some hash) code) db =
    if any (same_user name email code) db.users
    then none
    else some (record db {
      users =
          db.users
          ++ record {
            uid = db.user_seq + suc skipped;
            username = name;
            email = email;
            password_hash = hash;
            friend_code = code;
          }
            ∷ [];
      user_seq = db.user_seq + suc skipped;
    })
exec skipped (update_username name uid) db =
    if any (λ u. u.uid == uid) db.users
      && any (λ u. has_username name u && not (u.uid == uid)) db.users
    then none
    else some (record db { users = map (rename name uid) db.users })
exec skipped (update_password none uid) db =
    if any (λ u. u.uid == uid) db.users then none else some db
exec skipped (update_password (some hash) uid) db =
    some (record db { users = map (rehash hash uid) db.users })
exec skipped (insert_request from to) db =
    if any (same_pair from to) db.requests
    then none
    else some (record db { requests = db.requests ++ (from, to) ∷ [] })
exec skipped (delete_request from to) db =
    some (record db { requests = select (λ r. not (same_pair from to r)) db.requests })
exec skipped (insert_contacts a b) db =
    if any (same_pair a b) db.contacts || any (same_pair b a) db.contacts || a == b
    then none
    else some (record db { contacts = db.contacts ++ (a, b) ∷ (b, a) ∷ [] })
exec skipped (insert_conversation kind name desc) db = some (record db {
  conversations =
      db.conversations
      ++ record {
        conv_id = db.conversation_seq + suc skipped;
        kind = kind;
        name = name;
        description = desc;
      }
        ∷ [];
  conversation_seq = db.conversation_seq + suc skipped;
})
exec skipped (insert_participant conv uid role) db = add_participant db conv uid role
exec skipped (insert_or_ignore_participant conv uid role) db =
    elim (add_participant db conv uid role) [ none ↦ some db | some db' ↦ some db' ]
exec skipped (update_conversation name desc conv) db =
    some (record db { conversations = map (retitle name desc conv) db.conversations })
exec skipped (delete_participant conv uid) db =
    some (record db { participants = select (λ p. not (same_seat conv uid p)) db.participants })
exec skipped (delete_messages conv) db =
    some (record db { messages = select (λ m. not (m.conv_id == conv)) db.messages })
exec skipped (delete_participants conv) db =
    some (record db { participants = select (λ p. not (p.conv_id == conv)) db.participants })
exec skipped (delete_conversation conv) db =
    some (record db { conversations = select (λ c. not (c.conv_id == conv)) db.conversations })
exec skipped (insert_message conv sender text time) db = some (record db {
  messages =
      db.messages
      ++ record {
        id = db.message_seq + suc skipped;
        conv_id = conv;
        sender_id = sender;
        text = text;
        timestamp = time;
      }
        ∷ [];
  message_seq = db.message_seq + suc skipped;
})
