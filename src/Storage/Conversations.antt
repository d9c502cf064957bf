-- ===== src/Storage/Conversations.antt =====
-- The conversations and participants of src/server/storage.c.
use mo_t.Base.{
  ℕ, Bool, false, ◌&&◌, List, [], ◌∷◌, ◌++◌, Text, codes, take, select, any, strncpy, snprintf, not,
  ◌==◌, if◌then◌else◌, map, ◌%◌,
}
use mo_t.Storage.Tables.{UserRow, ConversationRow, ParticipantRow, Db}
use mo_t.Storage.Statements.{
  insert_conversation, insert_participant, insert_or_ignore_participant, update_conversation,
  delete_participant, delete_messages, delete_participants, delete_conversation, select_private,
  select_conversations, select_other, select_participants, select_role, select_members, same_seat,
}
use mo_t.Storage.Engine.{Sqlite, perform, fetch}

-- struct ConversationSummary and struct GroupMemberSummary of include/system/protocol.h.
pub record ConversationSummary : Type 0 where
  pub conv_id : ℕ
  pub kind : ℕ
  pub name : Text
  pub description : Text
  pub unread_count : ℕ
  pub my_role : ℕ

pub record GroupMemberSummary : Type 0 where
  pub uid : ℕ
  pub username : Text
  pub role : ℕ

-- The participants of a conversation, and the seats of a user.
abbrev pub participants_of : ℕ → Db → List ParticipantRow
participants_of conv db = select (λ p. p.conv_id == conv) db.participants

abbrev seats_of : ℕ → Db → List ParticipantRow
seats_of uid db = select (λ p. p.user_id == uid) db.participants

-- c JOIN p1 JOIN p2 with c.type = 0, p1.user_id = a and p2.user_id = b: a pair of seats gives at
-- most one row, since the keys of participants are unique.
abbrev is_private_of : ℕ → ℕ → Db → ConversationRow → Bool
is_private_of a b db c =
    c.kind == 0
    && (any (same_seat c.conv_id a) db.participants && any (same_seat c.conv_id b) db.participants)

-- The rows (conversation, seat) of a user.
pub join_seats :
    List ConversationRow → List ParticipantRow → List (ConversationRow × ParticipantRow)
join_seats [] seats = []
join_seats (c ∷ cs) seats =
    map (λ p. (c, p)) (select (λ p. p.conv_id == c.conv_id) seats) ++ join_seats cs seats

-- The rows (user, role) of some participants.
pub join_members : List ParticipantRow → List UserRow → List (UserRow × ℕ)
join_members [] users = []
join_members (p ∷ ps) users =
    map (λ u. (u, p.role)) (select (λ u. u.uid == p.user_id) users) ++ join_members ps users

abbrev first_name : List (UserRow × ℕ) → Text
first_name [] = codes "Private Chat"
first_name ((u, role) ∷ rest) = snprintf 32 (codes "Private with " ++ u.username)

module _ (sqlite : Sqlite) where
  first_conv : List ConversationRow → ℕ
  first_conv [] = 0
  first_conv (c ∷ rest) = c.conv_id

  -- 0 if there is none.
  unfoldable pub storage_find_private_conversation : ℕ → ℕ → Db → ℕ
  unfolding first_conv
  storage_find_private_conversation uid_a uid_b db = first_conv (
      fetch sqlite (select_private uid_a uid_b) db
        (select (is_private_of uid_a uid_b db) db.conversations))

  -- The loop over `uids`, whose first entry is the admin of a group. A step that fails is passed over.
  unfoldable pub seat_all : ℕ → Bool → List ℕ → Db → Db
  seat_all conv admin [] db = db
  seat_all conv admin (uid ∷ uids) db =
      seat_all conv false uids
        (perform sqlite (insert_participant conv uid (if admin then 1 else 0)) db).0

  unfoldable pub storage_create_conversation : ℕ → Text → Text → List ℕ → Db → Db × ℕ
  storage_create_conversation kind name desc uids db =
      let (db', prepared, done) = perform sqlite (insert_conversation kind name desc) db in
      if done
      then (seat_all db'.conversation_seq (kind == 1) uids db', db'.conversation_seq)
      else (db, 0)

  other_name : ℕ → ℕ → Db → Text
  other_name conv uid db = first_name (
      fetch sqlite (select_other conv uid) db
        (join_members (select (λ p. not (p.user_id == uid)) (participants_of conv db)) db.users))

  conversation_summary : ℕ → Db → ConversationRow × ParticipantRow → ConversationSummary
  unfolding other_name
  conversation_summary uid db (c, p) =
      if c.kind == 0
      then record {
        conv_id = c.conv_id;
        kind = 0;
        name = other_name c.conv_id uid db;
        description = [];
        unread_count = 0;
        my_role = p.role % 256;
      }
      else record {
        conv_id = c.conv_id;
        kind = c.kind % 256;
        name = strncpy 32 c.name;
        description = strncpy 64 c.description;
        unread_count = 0;
        my_role = p.role % 256;
      }

  unfoldable pub storage_get_user_conversations : ℕ → ℕ → Db → List ConversationSummary
  unfolding conversation_summary
  storage_get_user_conversations uid max_count db = map (conversation_summary uid db) (
      take max_count (
        fetch sqlite (select_conversations uid) db (join_seats db.conversations (seats_of uid db))))

  unfoldable pub storage_get_conv_participants : ℕ → ℕ → Db → List ℕ
  storage_get_conv_participants conv max_count db =
      map (λ p. p.user_id)
        (take max_count (fetch sqlite (select_participants conv) db (participants_of conv db)))

  first_role : List ParticipantRow → ℕ
  first_role [] = 0
  first_role (p ∷ rest) = p.role

  unfoldable pub storage_is_admin : ℕ → ℕ → Db → Bool
  unfolding first_role
  storage_is_admin conv uid db =
      first_role
        (fetch sqlite (select_role conv uid) db (select (same_seat conv uid) db.participants))
      == 1

  unfoldable pub storage_update_group : ℕ → Text → Text → Db → Db × Bool
  storage_update_group conv name desc db =
      let (db', prepared, done) = perform sqlite (update_conversation name desc conv) db in
      (db', prepared)

  unfoldable pub storage_add_participant : ℕ → ℕ → ℕ → Db → Db × Bool
  storage_add_participant conv uid role db =
      let (db', prepared, done) = perform sqlite (insert_or_ignore_participant conv uid role) db in
      (db', done)

  unfoldable pub storage_get_group_members : ℕ → ℕ → Db → List GroupMemberSummary
  storage_get_group_members conv max_count db =
      map (λ m. record { uid = m.0.uid; username = strncpy 32 m.0.username; role = m.1 % 256 })
        (take max_count
          (fetch sqlite (select_members conv) db (join_members (participants_of conv db) db.users)))

  unfoldable pub storage_remove_participant : ℕ → ℕ → Db → Db × Bool
  storage_remove_participant conv uid db =
      let (db', prepared, done) = perform sqlite (delete_participant conv uid) db in (db', done)

  -- Three statements one after the other; one that fails does not stop the next.
  unfoldable pub storage_delete_conversation : ℕ → Db → Db
  storage_delete_conversation conv db =
      let db1 = (perform sqlite (delete_messages conv) db).0 in
      let db2 = (perform sqlite (delete_participants conv) db1).0 in
      (perform sqlite (delete_conversation conv) db2).0
