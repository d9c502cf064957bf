-- ===== src/Storage/Contacts.antt =====
-- The contacts and friend requests of src/server/storage.c.
use mo_t.Base.{
  ℕ, Bool, false, List, [], ◌∷◌, ◌++◌, Text, take, select, strncpy, ◌==◌, if◌then◌else◌, map,
}
use mo_t.Storage.Tables.{UserRow, Db}
use mo_t.Storage.Statements.{
  insert_request, delete_request, insert_contacts, select_contacts, select_requests,
}
use mo_t.Storage.Engine.{Sqlite, perform, fetch}

-- struct ContactSummary of include/system/protocol.h.
pub record ContactSummary : Type 0 where
  pub uid : ℕ
  pub username : Text
  pub is_online : ℕ

-- The users u with u.uid = uid, for each uid of a list: the join of a table with users.
pub join_users : List ℕ → List UserRow → List UserRow
join_users [] users = []
join_users (uid ∷ uids) users = select (λ u. u.uid == uid) users ++ join_users uids users

abbrev summary : UserRow → ContactSummary
summary u = record { uid = u.uid; username = strncpy 32 u.username; is_online = 0 }

abbrev pub contacts_of : ℕ → Db → List UserRow
contacts_of uid db = join_users (map (λ c. c.1) (select (λ c. c.0 == uid) db.contacts)) db.users

abbrev pub requests_to : ℕ → Db → List UserRow
requests_to uid db = join_users (map (λ r. r.0) (select (λ r. r.1 == uid) db.requests)) db.users

module _ (sqlite : Sqlite) where
  unfoldable pub storage_add_request : ℕ → ℕ → Db → Db × Bool
  storage_add_request from_uid to_uid db =
      if from_uid == to_uid
      then (db, false)
      else (let (db', prepared, done) = perform sqlite (insert_request from_uid to_uid) db in
          (db', done))

  unfoldable pub storage_remove_request : ℕ → ℕ → Db → Db × Bool
  storage_remove_request from_uid to_uid db =
      let (db', prepared, done) = perform sqlite (delete_request from_uid to_uid) db in
      (db', prepared)

  unfoldable pub storage_add_friendship : ℕ → ℕ → Db → Db × Bool
  storage_add_friendship uid_a uid_b db =
      let (db', prepared, done) = perform sqlite (insert_contacts uid_a uid_b) db in (db', prepared)

  unfoldable pub storage_get_contacts_data : ℕ → ℕ → Db → List ContactSummary
  storage_get_contacts_data uid max_count db =
      map summary (take max_count (fetch sqlite (select_contacts uid) db (contacts_of uid db)))

  unfoldable pub storage_get_requests_data : ℕ → ℕ → Db → List ContactSummary
  storage_get_requests_data uid max_count db =
      map summary (take max_count (fetch sqlite (select_requests uid) db (requests_to uid db)))
