-- ===== src/Storage/Tables.antt =====
-- The tables that `storage_init` of src/server/storage.c creates. A table is the list of its rows.
-- An INTEGER column that the program binds and reads as 32 bits holds that 32-bit pattern.
use mo_t.Base.{ℕ, List, [], Text}

-- users: uid AUTOINCREMENT; username, email and friend_code are UNIQUE NOT NULL.
pub record UserRow : Type 0 where
  pub uid : ℕ
  pub username : Text
  pub email : Text
  pub password_hash : Text
  pub friend_code : Text

-- conversations: conv_id AUTOINCREMENT.
pub record ConversationRow : Type 0 where
  pub conv_id : ℕ
  pub kind : ℕ
  pub name : Text
  pub description : Text

-- participants: PRIMARY KEY(conv_id, user_id).
pub record ParticipantRow : Type 0 where
  pub conv_id : ℕ
  pub user_id : ℕ
  pub role : ℕ

-- messages: id AUTOINCREMENT.
pub record MessageRow : Type 0 where
  pub id : ℕ
  pub conv_id : ℕ
  pub sender_id : ℕ
  pub text : Text
  pub timestamp : ℕ

-- contacts: PRIMARY KEY(user_id, contact_id); requests: PRIMARY KEY(sender_id, receiver_id).
-- The three `_seq` fields are the rows of sqlite_sequence: the largest id ever given.
pub record Db : Type 0 where
  pub users : List UserRow
  pub contacts : List (ℕ × ℕ)
  pub requests : List (ℕ × ℕ)
  pub conversations : List ConversationRow
  pub participants : List ParticipantRow
  pub messages : List MessageRow
  pub user_seq : ℕ
  pub conversation_seq : ℕ
  pub message_seq : ℕ

-- The database of a first run.
abbrev pub empty_db : Db
empty_db = record {
  users = [];
  contacts = [];
  requests = [];
  conversations = [];
  participants = [];
  messages = [];
  user_seq = 0;
  conversation_seq = 0;
  message_seq = 0;
}
