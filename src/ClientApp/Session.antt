-- ===== src/ClientApp/Session.antt =====
-- src/client/session.c and the authentication of src/client: the file of the session, the replies
-- that service_register and service_login of auth_service.c wait for, and the menu of main.
pub mod Resumed
use mo_t.Base.{
  ℕ, ◌≤◌, ◌≡◌, sym, ap, ◌∙◌, Bool, true, false, Option, none, some, List, [], ◌∷◌, ◌++◌, Text,
  IsText, c_str, length, length-append, take, take-all, length-take, drop-append, append-nil, drop,
  leb, if◌then◌else◌, ◌>>=◌, arith,
}
use mo_t.Protocol.Types.{MessageType, message_type, register_success, login_success}
use mo_t.Protocol.Request.{buffer, u32_at}
use mo_t.Protocol.Wire.{Received, stopped, overrun, packet}
use mo_t.Protocol.Replies.{MyInfoPayload}
use mo_t.Protocol.Layout.{char_array, length-char_array, c_str-char_array, IsText-take}
use mo_t.ClientApp.Services.{Request, service_register, service_login}
use mo_t.ClientApp.Network.{chars_at}

-- What becomes of a call that changes the file: it is refused, or the disk takes so many bytes.
pub data Disk : Type 0 where
  refuses : Disk
  takes : ℕ → Disk

-- The file behind save_session and before: where fopen fails nothing is written.
unfoldable pub save_session : Disk → Text → Text → Option (List ℕ) → Option (List ℕ)
save_session refuses email password file = file
save_session (takes n) email password file =
    some (take n (char_array 64 email ++ char_array 64 password))

-- remove(SESSION_FILE).
unfoldable pub clear_session : Disk → Option (List ℕ) → Option (List ℕ)
clear_session refuses file = file
clear_session (takes n) file = none

-- The payload, where the file holds a whole one.
unfoldable pub load_session : Option (List ℕ) → Option (List ℕ)
load_session none = none
load_session (some bytes) = if leb 128 (length bytes) then some (take 128 bytes) else none

-- service_login(session.email, session.password): at most 63 bytes of each array are read.
unfoldable pub login_of : List ℕ → Request
login_of p = service_login (c_str p) (c_str (drop 64 p))

-- memcpy(&app.my_info, p, sizeof(MyInfoPayload)). `none` is a read past the payload.
unfoldable pub my_info_at : List ℕ → Option MyInfoPayload
my_info_at buf = do
  uid ← if leb 107 (length buf) then u32_at buf 0 else none
  some (record {
    uid = uid;
    username = chars_at 32 buf 4;
    email = chars_at 64 buf 36;
    friend_code = chars_at 7 buf 100;
  })

abbrev is_login_success : Option MessageType → Bool
is_login_success (some login_success) = true
is_login_success _ = false

-- The reply that service_login waits for: the user, where it returns 1.
unfoldable pub login_result : Received → Option (Option MyInfoPayload)
login_result (stopped status) = some none
login_result overrun = none
login_result (packet type_value [] rest) = some none
login_result (packet type_value (b ∷ p) rest) =
    if is_login_success (message_type type_value)
    then (do info ← my_info_at (buffer (b ∷ p)); some (some info))
    else some none

-- The reply to service_register is read and dropped: main does not use the result.
unfoldable pub register_result : Received → Option Bool
register_result overrun = none
register_result (packet type_value p rest) = elim (message_type type_value) [
  | some register_success ↦ some true
  | _ ↦ some false
]
register_result (stopped status) = some false

-- main before the loop: the packets sent and the file of the session.
pub record Door : Type 0 where
  pub sent : List Request
  pub session : Option (List ℕ)

-- The start menu, with what the forms read and the reply of the server.
pub data Choice : Type 0 where
  quits : Choice
  registers : Text → Text → Text → Received → Choice
  logs_in : Text → Text → Bool → Disk → Received → Choice

pub data Outcome : Type 0 where
  stays leaves : Outcome
  enters : MyInfoPayload → Outcome

unfoldable pub knock : Request → Door → Door
knock r d = record d { sent = d.sent ++ r ∷ [] }

-- A login with the saved session, before the menu. A refused session is removed.
unfoldable pub resume_login : Disk → Received → Door → Option (Door × Outcome)
resume_login disk reply d = by_file disk (load_session d.session) reply d
  where
    by_reply : Disk → Option MyInfoPayload → Door → Door × Outcome
    by_reply disk none d = (record d { session = clear_session disk d.session }, stays)
    by_reply disk (some info) d = (d, enters info)

    by_file : Disk → Option (List ℕ) → Received → Door → Option (Door × Outcome)
    by_file disk none reply d = some (d, stays)
    by_file disk (some p) reply d = do
      result ← login_result reply
      some (by_reply disk result (knock (login_of p) d))

unfoldable pub after_login :
    Text → Text → Bool → Disk → Option MyInfoPayload → Door → Door × Outcome
after_login email password remember disk none d = (d, stays)
after_login email password remember disk (some info) d = (
  record d {
    session =
        if remember
        then save_session disk email password d.session
        else clear_session disk d.session;
  },
  enters info,
)

-- A turn of the menu. The forms read at most 63, 31 and 63 characters.
unfoldable pub menu_turn : Choice → Door → Option (Door × Outcome)
menu_turn quits d = some (d, leaves)
menu_turn (registers email username password reply) d = do
  _ ← register_result reply
  some (knock (service_register (take 63 email) (take 31 username) (take 63 password)) d, stays)
menu_turn (logs_in email password remember disk reply) d = do
  result ← login_result reply
  some (
      after_login (take 63 email) (take 63 password) remember disk result
        (knock (service_login (take 63 email) (take 63 password)) d))

unfoldable pub menu : List Choice → Door → Option (Door × Outcome)
menu [] d = some (d, stays)
menu (c ∷ cs) d = do (d', outcome) ← menu_turn c d; next outcome d' (menu cs d')
  where
    next : Outcome → Door → Option (Door × Outcome) → Option (Door × Outcome)
    next stays d rest = rest
    next outcome d rest = some (d, outcome)

-- The packet that the next start sends before its menu.
abbrev pub resumed : Option (List ℕ) → Option Request
resumed file = do p ← load_session file; some (login_of p)
