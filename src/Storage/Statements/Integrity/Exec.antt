-- ===== src/Storage/Statements/Integrity/Exec.antt =====
-- Every statement of src/server/storage.c keeps the constraints of the schema.
use mo_t.Base.{
  ℕ, refl, ◌&&◌, ◌||◌, not, none, some, any, select, ◌==◌, arith, All-select, Unique-snoc,
  Unique-select, Unique-map, All-image, if_cases, Holds, Option-cases, inl, inr, Bool,
}
use mo_t.Storage.Tables.{ConversationRow, MessageRow, Db}
use mo_t.Storage.Statements.{
  Update, insert_user, update_username, update_password, insert_request, delete_request,
  insert_contacts, insert_conversation, insert_participant, insert_or_ignore_participant,
  update_conversation, delete_participant, delete_messages, delete_participants,
  delete_conversation, insert_message, same_pair, same_seat, has_username, same_user, retitle,
  add_participant, exec,
}
use mo_t.Storage.Statements.Integrity.{
  Integrity, ConversationKeys, seat_key, pair_key, IsGiven-ne, IsGiven-snoc,
}
use mo_t.Storage.Statements.Integrity.Users.{insert-UserKeys, rename-UserKeys, rehash-UserKeys}
use mo_t.Storage.Statements.Integrity.Friends.{
  insert_pair-Unique, insert_seat-Unique, insert-ContactKeys,
}

module _ (skipped : ℕ) (db : Db) (v : Integrity db) where
  open v use {users, contacts, requests, conversations, seats, messages}

  add_participant-Integrity :
      (conv uid role : ℕ) → Holds Integrity (add_participant db conv uid role)
  unfolding add_participant
  add_participant-Integrity conv uid role =
      if_cases (Holds Integrity) (any (same_seat conv uid) db.participants) none _ (λ e. tt)
        λ free. record {
          users = users;
          contacts = contacts;
          requests = requests;
          conversations = conversations;
          seats = insert_seat-Unique _ db.participants seats free;
          messages = messages;
        }

  select_conversations-Integrity :
      (p : ConversationRow → Bool)
      → ConversationKeys (select p db.conversations) db.conversation_seq
  select_conversations-Integrity p = record {
    given = All-select _ p db.conversations conversations.given;
    conv_ids =
        Unique-select (λ (c : ConversationRow). c.conv_id) p db.conversations
          conversations.conv_ids;
  }

  -- From tables that satisfy `Integrity`, whatever the statement: where it meets no constraint, the
  -- tables after it satisfy `Integrity`.
  pub exec-Integrity : (u : Update) → Holds Integrity (exec skipped u db)
  unfolding exec
  exec-Integrity (insert_user name email none code) = tt
  exec-Integrity (insert_user name email (some hash) code) =
      if_cases (Holds Integrity) (any (same_user name email code) db.users) none _ (λ e. tt)
        λ free. record {
          users = insert-UserKeys db.users db.user_seq users skipped _ refl free;
          contacts = contacts;
          requests = requests;
          conversations = conversations;
          seats = seats;
          messages = messages;
        }
  exec-Integrity (update_username name uid) =
      if_cases (Holds Integrity)
        (any (λ u. u.uid == uid) db.users
          && any (λ u. has_username name u && not (u.uid == uid)) db.users)
        none _ (λ e. tt)
        λ free. record {
          users = rename-UserKeys name uid db.users db.user_seq users free;
          contacts = contacts;
          requests = requests;
          conversations = conversations;
          seats = seats;
          messages = messages;
        }
  exec-Integrity (update_password none uid) =
      if_cases (Holds Integrity) (any (λ u. u.uid == uid) db.users) none (some db) (λ e. tt)
        (λ e. v)
  exec-Integrity (update_password (some hash) uid) = record {
    users = rehash-UserKeys db.users db.user_seq users hash uid;
    contacts = contacts;
    requests = requests;
    conversations = conversations;
    seats = seats;
    messages = messages;
  }
  exec-Integrity (insert_request from to) =
      if_cases (Holds Integrity) (any (same_pair from to) db.requests) none _ (λ e. tt)
        λ free. record {
          users = users;
          contacts = contacts;
          requests = insert_pair-Unique from to db.requests requests free;
          conversations = conversations;
          seats = seats;
          messages = messages;
        }
  exec-Integrity (delete_request from to) = record {
    users = users;
    contacts = contacts;
    requests = Unique-select pair_key _ db.requests requests;
    conversations = conversations;
    seats = seats;
    messages = messages;
  }
  exec-Integrity (insert_contacts a b) =
      if_cases (Holds Integrity)
        (any (same_pair a b) db.contacts || any (same_pair b a) db.contacts || a == b) none _
        (λ e. tt)
        λ free. record {
          users = users;
          contacts = insert-ContactKeys a b db.contacts contacts free;
          requests = requests;
          conversations = conversations;
          seats = seats;
          messages = messages;
        }
  exec-Integrity (insert_conversation kind name desc) = record {
    users = users;
    contacts = contacts;
    requests = requests;
    conversations = record {
      given =
          IsGiven-snoc (λ (c : ConversationRow). c.conv_id) db.conversation_seq skipped
            db.conversations conversations.given _ refl;
      conv_ids =
          Unique-snoc (λ (c : ConversationRow). c.conv_id) db.conversations _ conversations.conv_ids
            (IsGiven-ne (λ (c : ConversationRow). c.conv_id) db.conversation_seq skipped
              db.conversations conversations.given);
    };
    seats = seats;
    messages = messages;
  }
  exec-Integrity (insert_participant conv uid role) = add_participant-Integrity conv uid role
  exec-Integrity (insert_or_ignore_participant conv uid role) =
      elim (Option-cases (add_participant db conv uid role)) [
        | inl e ↦ rw (e, exec) v
        | inr (db', e) ↦ rw (e, exec) (rw e at (add_participant-Integrity conv uid role))
      ]
  exec-Integrity (update_conversation name desc conv) = record {
    users = users;
    contacts = contacts;
    requests = requests;
    conversations = record {
      given =
          All-image _ _ (retitle name desc conv) (λ c g. ground arith) db.conversations
            conversations.given;
      conv_ids =
          Unique-map (λ (c : ConversationRow). c.conv_id) (retitle name desc conv)
            (λ c. ground arith) db.conversations conversations.conv_ids;
    };
    seats = seats;
    messages = messages;
  }
  exec-Integrity (delete_participant conv uid) = record {
    users = users;
    contacts = contacts;
    requests = requests;
    conversations = conversations;
    seats = Unique-select seat_key _ db.participants seats;
    messages = messages;
  }
  exec-Integrity (delete_messages conv) = record {
    users = users;
    contacts = contacts;
    requests = requests;
    conversations = conversations;
    seats = seats;
    messages = record {
      given = All-select _ _ db.messages messages.given;
      ids = Unique-select (λ (m : MessageRow). m.id) _ db.messages messages.ids;
    };
  }
  exec-Integrity (delete_participants conv) = record {
    users = users;
    contacts = contacts;
    requests = requests;
    conversations = conversations;
    seats = Unique-select seat_key _ db.participants seats;
    messages = messages;
  }
  exec-Integrity (delete_conversation conv) = record {
    users = users;
    contacts = contacts;
    requests = requests;
    conversations = select_conversations-Integrity _;
    seats = seats;
    messages = messages;
  }
  exec-Integrity (insert_message conv sender text time) = record {
    users = users;
    contacts = contacts;
    requests = requests;
    conversations = conversations;
    seats = seats;
    messages = record {
      given =
          IsGiven-snoc (λ (m : MessageRow). m.id) db.message_seq skipped db.messages messages.given
            _ refl;
      ids =
          Unique-snoc (λ (m : MessageRow). m.id) db.messages _ messages.ids
            (IsGiven-ne (λ (m : MessageRow). m.id) db.message_seq skipped db.messages
              messages.given);
    };
  }
