-- ===== src/ClientApp/Exchange.antt =====
-- From the keys of the client, src/client/main.c, to the handlers of the server, src/server/handlers.
use mo_t.Base.{◌⊎◌, none, ℕ, ◌≡◌, ◌++◌, Text}
use mo_t.Protocol.Types.{send_text}
use mo_t.Protocol.Layout.{le32, char_array}
use mo_t.Crypto.{plain, crypto_encrypt, crypto_decrypt}
use mo_t.Storage.Tables.{Db}
use mo_t.Storage.Statements.{insert_message}
use mo_t.Storage.Engine.{perform}
use mo_t.Storage.Conversations.{storage_get_conv_participants}
use mo_t.Server.Routing.{recipients, copies}
use mo_t.Clients.{Client}
use mo_t.Server.State.{System, Server}
use mo_t.ClientApp.Services.{Request}
use mo_t.ClientApp.State

-- The packet of a typed text.
abbrev pub message : ℕ → Text → Request
message conv text = record { kind = send_text; payload = le32 conv ++ char_array 1024 text }

-- The text stands in the log: a row with a text that decrypts to it is inserted. Where the encryption
-- fails nothing is logged.
abbrev pub IsLogged : System → ℕ → Client → ℕ → Text → Server → Db → Type 0
IsLogged sys now cli conv text srv db =
    ((hex : Text) × (crypto_decrypt sys.evp srv.key hex ≡ plain text)
      × (db ≡ (perform sys.sqlite (insert_message conv cli.uid hex now) srv.db).0))
    ⊎ ((crypto_encrypt sys.evp srv.key srv.seals text ≡ none) × (db ≡ srv.db))

-- The text is logged and its copies are sent.
abbrev pub IsHandled : System → ℕ → Client → ℕ → Text → Server → Server → Type 0
IsHandled sys now cli conv text srv srv' =
    IsLogged sys now cli conv text srv srv'.db
    × (srv'.sent
        ≡ srv.sent
          ++ copies cli conv text (
              recipients cli.uid srv.clients
                (storage_get_conv_participants sys.sqlite conv 10 srv'.db)))
