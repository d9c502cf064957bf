-- ===== src/Lib.antt =====
-- MoT, a chat server and its client: the server, the protocol, the encryption and the client.
--
-- The parts and their files:
-- * src/server/storage.c is Storage: Tables are the rows of the schema, Statements the SQL statements
--   with their effect under the constraints, Engine what SQLite decides, and Users, Contacts,
--   Conversations and Messages the functions, each under its own name. Path and Path/Operations say
--   which statements lie between two states of the database, Messages/Reading and Messages/FirstLine
--   are about the history, and Users/Credentials is about the check of a password.
-- * src/common/crypto.c is Crypto, with the hex encoding in Crypto/Hex.
-- * src/common/protocol.c is Protocol/Wire; include/system/protocol.h is Protocol/Types (the message
--   types), Protocol/Request (the payloads that the handlers read, at their offsets) and
--   Protocol/Replies (the payloads that the server sends).
-- * src/server/client_manager.c is Clients, with Clients/Lookup on finding clients and
--   Clients/Handles on their TLS handles.
-- * src/server/handlers/*.c are Server/Auth, Server/Chat, Server/Groups and Server/Friends over the
--   state of Server/State; src/server/main.c is Server: `start`, the dispatcher `handle`, and the
--   event loop `step` and `run`. Server/Routing is about who gets a routed message.
-- * src/common/config_loader.c is Config, with the reading of lines and numbers in Config/Lines and
--   Config/Number, and the wizard of the first start, from src/client/ui.c, in Config/Wizard.
-- * src/client is ClientApp: services/*.c are Services, where Meaning says what a call asks of the
--   server, client_context.c is State, session.c and the login of main.c are Session, the network
--   thread of main.c is Network, and the loop of main.c is Keys, with a child for the keys of some
--   screens each. Invariant, Typing, Removal, Frozen, Delivery and Exchange are about them; the
--   layout of the packed structs is Protocol/Layout. ChatScreen and ListScreens are the chat and the
--   lists that ui.c draws; ListScreens/Enter is about the key Enter on the home screen.
-- * Server/Authority says which statements a client may cause, handler by handler, and
--   Server/Guarantees what messages and runs keep. Tests has the examples.
--
-- How they interact: `run` goes through the events of epoll. A readable descriptor leads through
-- `recv_packet` to `dispatch`, which calls a handler; a handler changes the database through the
-- functions of Storage, which call SQLite by `perform` and `fetch`, and sends packets, which are
-- kept in the order of the calls.
--
-- In the client the loop and the network thread share one state: a run of `client_run` is a sequence
-- of packets and of turns of the loop. The services send the packets that `dispatch` handles, and
-- Delivery leads the lists of the server back to the client.
--
-- Conventions: `none` is undefined behaviour (a read outside of a payload or through NULL) in the
-- handlers and the loop, and the NULL of a C function elsewhere. A char array is the list of its
-- bytes before the first NUL, and all of its bytes where there is none. The last bytes of the arrays
-- of AppConfig, which nothing writes, are `Garbage`, and the height and the width of the window belong
-- to the state of the client. A row's INTEGER that the program binds and reads as 32 bits is that
-- pattern, so ids are taken to be below 2^31. The host is little-endian.
--
-- Bounds and fuel: `send_all` and `recv_all` run on a fuel of one more than the length, since every
-- call but a failing one moves a byte; a number is printed on a fuel of one more than itself, since
-- it has no more digits. The sizes are those of the code: 10 participants, 50 rows of a
-- list, 50 lines of a history, arrays of 32, 64 and 128 bytes.
--
-- Parameters, since they are not part of the repository: SQLite (`Sqlite`), OpenSSL (`Evp` with
-- the laws `IsEvp`, `Writer`, `Reader`), the C library and libcrypt (`LibC`). A result of
-- sqlite3_step that is no row and no SQLITE_DONE leaves the tables alone.
--
-- Not modelled: sockets, epoll and TLS setup, the log, storage_init, storage_backup and
-- storage_close beyond the schema, the drawing of the other forms, boxes and headings, data races
-- within a step of the client, the freeing of its memory at the end, and the scripts.
pub mod Base
pub mod Storage
pub mod Crypto
pub mod Config
pub mod Clients
pub mod Protocol
pub mod Server
pub mod ClientApp
pub mod Tests
