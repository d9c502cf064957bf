-- ===== src/Server/Authority.antt =====
-- Which statements the server of src/server may issue for a message of a client.
pub mod Accounts
pub mod Messages
pub mod Groups
pub mod Friends
pub mod Dispatch
use mo_t.Base.{ℕ, ◌<◌, ◌≡◌, ◌≢◌, true, Option, none, some, Text, IsText}
use mo_t.Crypto.{crypto_encrypt}
use mo_t.Storage.Tables.{Db}
use mo_t.Storage.Statements.{
  Update, insert_user, update_username, update_password, insert_request, delete_request,
  insert_contacts, insert_conversation, insert_participant, insert_or_ignore_participant,
  update_conversation, delete_participant, delete_messages, delete_participants,
  delete_conversation, insert_message,
}
use mo_t.Storage.Conversations.{storage_is_admin}
use mo_t.Storage.Path.{DbPath}
use mo_t.Clients.{Client}
use mo_t.Server.State.{System, Server}
use mo_t.Server.State.Frame.{SendsOnly}

module _ (sys : System) (s : Server) (cli : Client) where
  abbrev pub Admin : ℕ → Type 0
  Admin conv = storage_is_admin sys.sqlite conv cli.uid s.db ≡ true

  -- A profile changes for its owner; a request comes from its sender and goes with its receiver; a
  -- group changes for an admin, who seats plain members and does not unseat himself; seats are
  -- otherwise given in new conversations only; a message is stored encrypted, under its sender.
  abbrev pub Permitted : Update → Type 0
  Permitted (insert_user name email hash code) = Unit
  Permitted (update_username name uid) = uid ≡ cli.uid
  Permitted (update_password hash uid) = uid ≡ cli.uid
  Permitted (insert_request from to) = (from ≡ cli.uid) × (from ≢ to)
  Permitted (delete_request from to) = to ≡ cli.uid
  Permitted (insert_contacts a b) = a ≡ cli.uid
  Permitted (insert_conversation kind name desc) = Unit
  Permitted (insert_participant conv uid role) = s.db.conversation_seq < conv
  Permitted (insert_or_ignore_participant conv uid role) = Admin conv × (role ≡ 0)
  Permitted (update_conversation name desc conv) = Admin conv
  Permitted (delete_participant conv uid) = Admin conv × (uid ≢ cli.uid)
  Permitted (delete_messages conv) = Admin conv
  Permitted (delete_participants conv) = Admin conv
  Permitted (delete_conversation conv) = Admin conv
  Permitted (insert_message conv sender text time) =
      (sender ≡ cli.uid)
      × ((plain : Text) × IsText plain × (crypto_encrypt sys.evp s.key s.seals plain ≡ some text))

  -- The statements behind a result of a handler are permitted.
  abbrev pub IsPermitted : Server → Type 0
  IsPermitted s' = DbPath Permitted s.db s'.db

  pub SendsOnly-IsPermitted : {t u : Server} → IsPermitted t → SendsOnly t u → IsPermitted u
  SendsOnly-IsPermitted p f = rw f.same_db p
