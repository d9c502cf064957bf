-- ===== src/Storage/Path/Operations.antt =====
-- Which statements each operation of src/server/storage.c issues.
use mo_t.Base.{
  ℕ, ◌<◌, ◌≡◌, ◌≢◌, refl, Bool, true, false, Option, some, List, [], ◌∷◌, Text, length, ltb, ◌==◌,
  if◌then◌else◌, arith, inl, inr, if_both, if_cases, Option-cases, Holds,
}
use mo_t.Crypto.{Evp, MasterKey, crypto_encrypt}
use mo_t.Storage.Tables.{Db}
use mo_t.Storage.Statements.{
  Update, insert_user, update_username, update_password, insert_request, delete_request,
  insert_contacts, insert_conversation, insert_participant, insert_or_ignore_participant,
  update_conversation, delete_participant, delete_messages, delete_participants,
  delete_conversation, insert_message, exec,
}
use mo_t.Storage.Engine.{Sqlite, perform}
use mo_t.Storage.LibC.{LibC}
use mo_t.Storage.Users.{storage_register_user, storage_update_user}
use mo_t.Storage.Contacts.{storage_add_request, storage_remove_request, storage_add_friendship}
use mo_t.Storage.Conversations.{
  seat_all, storage_create_conversation, storage_update_group, storage_add_participant,
  storage_remove_participant, storage_delete_conversation,
}
use mo_t.Storage.Messages.{storage_log_message}
use mo_t.Storage.Path.{DbPath, here, DbPath-trans, DbPath-keeps, perform-DbPath, perform_done}

module _ (sqlite : Sqlite) (Allowed : Update → Type 0) where
  abbrev Keeps : Db → Db → Type 0
  Keeps = DbPath Allowed

  pub register_user-DbPath :
      (libc : LibC) (email username password : Text) (n : ℕ) (db : Db)
      → ((hash : Option Text) (code : Text) → Allowed (insert_user username email hash code))
      → DbPath Allowed db (storage_register_user libc sqlite email username password n db).0
  unfolding storage_register_user
  register_user-DbPath libc email username password n db ok =
      perform-DbPath sqlite Allowed _ db (ok _ _)

  pub update_user-DbPath :
      (libc : LibC) (uid : ℕ) (name password : Text) (n : ℕ) (db : Db)
      → Allowed (update_username name uid)
      → ((hash : Option Text) → Allowed (update_password hash uid))
      → DbPath Allowed db (storage_update_user libc sqlite uid name password n db)
  unfolding storage_update_user
  update_user-DbPath libc uid name password n db ok_name ok_hash =
      if_both (DbPath Allowed db) (ltb 0 (length password)) _ _
        (DbPath-trans renamed (perform-DbPath sqlite Allowed _ _ (ok_hash _))) renamed
    where
      renamed :
          DbPath Allowed db
            (if ltb 0 (length name) then (perform sqlite (update_username name uid) db).0 else db)
      renamed =
          if_both (DbPath Allowed db) (ltb 0 (length name)) _ _
            (perform-DbPath sqlite Allowed _ db ok_name) here

  pub add_request-DbPath :
      (from to : ℕ) (db : Db)
      → (from ≢ to → Allowed (insert_request from to))
      → DbPath Allowed db (storage_add_request sqlite from to db).0
  unfolding storage_add_request
  add_request-DbPath from to db ok =
      if_cases (λ (r : Db × Bool). DbPath Allowed db r.0) (from == to) _ _ (λ e. here)
        λ e. perform-DbPath sqlite Allowed _ db (ok (ground arith))

  pub remove_request-DbPath :
      (from to : ℕ) (db : Db)
      → Allowed (delete_request from to)
      → DbPath Allowed db (storage_remove_request sqlite from to db).0
  unfolding storage_remove_request
  remove_request-DbPath from to db ok = perform-DbPath sqlite Allowed _ db ok

  pub add_friendship-DbPath :
      (a b : ℕ) (db : Db)
      → Allowed (insert_contacts a b)
      → DbPath Allowed db (storage_add_friendship sqlite a b db).0
  unfolding storage_add_friendship
  add_friendship-DbPath a b db ok = perform-DbPath sqlite Allowed _ db ok

  pub seat_all-DbPath :
      (conv : ℕ) (admin : Bool) (uids : List ℕ) (db : Db)
      → ((uid role : ℕ) → Allowed (insert_participant conv uid role))
      → DbPath Allowed db (seat_all sqlite conv admin uids db)
  unfolding seat_all
  seat_all-DbPath conv admin [] db ok = here
  seat_all-DbPath conv admin (uid ∷ uids) db ok =
      DbPath-trans (perform-DbPath sqlite Allowed _ db (ok _ _))
        (seat_all-DbPath conv false uids _ ok)

  inserted_later :
      (kind : ℕ) (name desc : Text) (db : Db)
      → (perform sqlite (insert_conversation kind name desc) db).2 ≡ true
      → db.conversation_seq
        < (perform sqlite (insert_conversation kind name desc) db).0.conversation_seq
  unfolding exec
  inserted_later kind name desc db done =
      ground (arith, perform_done sqlite (insert_conversation kind name desc) db done)

  pub create_conversation-DbPath :
      (kind : ℕ) (name desc : Text) (uids : List ℕ) (db : Db)
      → Allowed (insert_conversation kind name desc)
      → ((conv uid role : ℕ)
          → db.conversation_seq < conv
          → Allowed (insert_participant conv uid role))
      → DbPath Allowed db (storage_create_conversation sqlite kind name desc uids db).0
  unfolding storage_create_conversation
  create_conversation-DbPath kind name desc uids db ok ok_seat =
      let u = insert_conversation kind name desc in
      let made = (perform sqlite u db).0 in
      if_cases (λ (r : Db × ℕ). DbPath Allowed db r.0) (perform sqlite u db).2 _ (db, 0)
        (λ done. DbPath-trans (perform-DbPath sqlite Allowed u db ok) (
          seat_all-DbPath made.conversation_seq (kind == 1) uids made
            (λ uid role. ok_seat _ uid role (inserted_later kind name desc db done))))
        (λ e. here)

  pub update_group-DbPath :
      (conv : ℕ) (name desc : Text) (db : Db)
      → Allowed (update_conversation name desc conv)
      → DbPath Allowed db (storage_update_group sqlite conv name desc db).0
  unfolding storage_update_group
  update_group-DbPath conv name desc db ok = perform-DbPath sqlite Allowed _ db ok

  pub add_participant-DbPath :
      (conv uid role : ℕ) (db : Db)
      → Allowed (insert_or_ignore_participant conv uid role)
      → DbPath Allowed db (storage_add_participant sqlite conv uid role db).0
  unfolding storage_add_participant
  add_participant-DbPath conv uid role db ok = perform-DbPath sqlite Allowed _ db ok

  pub remove_participant-DbPath :
      (conv uid : ℕ) (db : Db)
      → Allowed (delete_participant conv uid)
      → DbPath Allowed db (storage_remove_participant sqlite conv uid db).0
  unfolding storage_remove_participant
  remove_participant-DbPath conv uid db ok = perform-DbPath sqlite Allowed _ db ok

  pub delete_conversation-DbPath :
      (conv : ℕ) (db : Db)
      → Allowed (delete_messages conv)
      → Allowed (delete_participants conv)
      → Allowed (delete_conversation conv)
      → DbPath Allowed db (storage_delete_conversation sqlite conv db)
  unfolding storage_delete_conversation
  delete_conversation-DbPath conv db ok_messages ok_seats ok =
      DbPath-trans (perform-DbPath sqlite Allowed _ db ok_messages) (
        DbPath-trans (perform-DbPath sqlite Allowed _ _ ok_seats)
          (perform-DbPath sqlite Allowed _ _ ok))

  pub log_message-DbPath :
      (evp : Evp) (key : MasterKey) (n now conv sender : ℕ) (text : Text) (db : Db)
      → ((hex : Text)
          → crypto_encrypt evp key n text ≡ some hex
          → Allowed (insert_message conv sender hex now))
      → DbPath Allowed db (storage_log_message sqlite evp key n now conv sender text db)
  unfolding storage_log_message
  log_message-DbPath evp key n now conv sender text db ok =
      elim (Option-cases (crypto_encrypt evp key n text)) [
        | inl e ↦ rw (e, storage_log_message) here
        | inr (hex, e) ↦ rw (e, storage_log_message) (perform-DbPath sqlite Allowed _ db (ok hex e))
      ]

module _ (sqlite : Sqlite) where
  insert_contacts-conversation_seq :
      (skipped a b : ℕ) (db : Db)
      → Holds
          (λ d. d.conversation_seq ≡ db.conversation_seq)
          (exec skipped (insert_contacts a b) db)
  unfolding exec
  insert_contacts-conversation_seq skipped a b db = ground arith

  -- A friendship makes no conversation.
  pub add_friendship-conversation_seq :
      (a b : ℕ) (db : Db)
      → (storage_add_friendship sqlite a b db).0.conversation_seq ≡ db.conversation_seq
  add_friendship-conversation_seq a b db =
      DbPath-keeps (λ d. d.conversation_seq ≡ db.conversation_seq)
        (λ skipped u d allowed same.
          rw allowed (rw (← same) (insert_contacts-conversation_seq skipped a b d)))
        (add_friendship-DbPath sqlite (λ u. u ≡ insert_contacts a b) a b db refl) refl
