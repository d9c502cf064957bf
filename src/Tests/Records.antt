-- ===== src/Tests/Records.antt =====
-- The theorems on the list of clients and on the history at concrete inputs.
use mo_t.Base.{
  ◌+◌, any, ℕ, ◌≡◌, ◌≢◌, refl, true, none, some, List, [], ◌∷◌, ◌++◌, Text, codes, IsText, c_str,
  c_str-IsText, arith, Yields, All,
}
use mo_t.Crypto.{plain, crypto_decrypt}
use mo_t.Crypto.Hex.{hex_to_bytes, digit_value}
use mo_t.Storage.Tables.{Db, MessageRow}
use mo_t.Storage.Users.{User, credentials_row, storage_check_credentials}
use mo_t.Storage.Users.Credentials.{has_credentials, storage_check_credentials-has_credentials}
use mo_t.Storage.Engine.{fetch, fetch_by}
use mo_t.Storage.Messages.{
  Line, line_header, join_senders, insert_line, sort_lines, history_rows, storage_get_history,
}
use mo_t.Storage.Messages.Reading.{is_plain}
use mo_t.Storage.Messages.FirstLine.{storage_get_history-first}
use mo_t.Clients.Handles.{count, remove_client-free_clients}
use mo_t.Clients.{free_clients, Client, get_client_by_fd, remove_client}
use mo_t.Clients.Lookup.{remove_client-get_client_by_fd}
use mo_t.Tests.World.{evp, libc, sqlite, client, group_db}

abbrev two_clients : List Client
two_clients = client 1 ∷ client 2 ∷ []

remove_client-get_client_by_fd_example :
    (get_client_by_fd 5 (remove_client 5 two_clients).0 ≡ none)
    × ((other : ℕ)
        → other ≢ 5
        → get_client_by_fd other (remove_client 5 two_clients).0
          ≡ get_client_by_fd other two_clients)
remove_client-get_client_by_fd_example =
    remove_client-get_client_by_fd 5 two_clients ((omega arith, tt), (tt, tt))

-- "hi", and "yo", as the cipher of the world stores them.
abbrev hi : Text
hi = codes "000000000000000000000000000000006869"

abbrev yo : Text
yo = codes "00000000000000000000000000000000796f"

abbrev message : ℕ → Text → MessageRow
message id text = record { id = id; conv_id = 1; sender_id = id; text = text; timestamp = id }

abbrev chat_db : Db
chat_db = record group_db { messages = message 2 yo ∷ message 1 hi ∷ []; message_seq = 2 }

abbrev first_row : Line
first_row = record { username = codes "ada"; text = hi; timestamp = 1 }

abbrev second_row : Line
second_row = record { username = codes "bob"; text = yo; timestamp = 2 }

hi-decrypts : crypto_decrypt evp (some []) hi ≡ plain (codes "hi")
unfolding crypto_decrypt hex_to_bytes digit_value
hi-decrypts = refl

yo-decrypts : crypto_decrypt evp (some []) yo ≡ plain (codes "yo")
unfolding crypto_decrypt hex_to_bytes digit_value
yo-decrypts = refl

chat_readable : All (λ m. is_plain (crypto_decrypt evp (some []) m.text) ≡ true) chat_db.messages
chat_readable = (rw yo-decrypts refl, (rw hi-decrypts refl, tt))

chat_rows : history_rows libc evp sqlite 1 chat_db ≡ first_row ∷ second_row ∷ []
unfolding history_rows fetch_by join_senders sort_lines insert_line
chat_rows = refl

header-IsText : IsText (line_header libc first_row)
unfolding line_header
header-IsText = c_str-IsText (codes "[12:30] ada: ")

storage_get_history-first_example :
    Yields
      (λ hist. c_str hist ≡ line_header libc first_row ++ (codes "hi" ++ codes "\n"))
      (storage_get_history libc evp sqlite (some []) 1 chat_db)
storage_get_history-first_example =
    storage_get_history-first libc evp (some []) sqlite 1 chat_db first_row (second_row ∷ [])
      (codes "hi") chat_readable chat_rows hi-decrypts header-IsText (c_str-IsText (codes "hi"))
      refl

abbrev ada : User
ada = record {
  uid = 1;
  username = codes "ada";
  email = codes "ada@mot";
  password_hash = codes "$6$pw";
  friend_code = codes "AAAAAA";
}

ada_logs_in :
    storage_check_credentials libc sqlite (codes "ada@mot") (codes "pw") group_db ≡ some (some ada)
unfolding storage_check_credentials credentials_row fetch
ada_logs_in = refl

storage_check_credentials-has_credentials_example :
    any (has_credentials libc (codes "ada@mot") (codes "pw") 1) group_db.users ≡ true
storage_check_credentials-has_credentials_example =
    storage_check_credentials-has_credentials libc sqlite (codes "ada@mot") (codes "pw") ada
      group_db ada_logs_in

remove_client-free_clients_example :
    count 51 (remove_client 5 two_clients).1
      + count 51 (free_clients (remove_client 5 two_clients).0)
    ≡ count 51 (free_clients two_clients)
remove_client-free_clients_example = remove_client-free_clients 5 51 two_clients
