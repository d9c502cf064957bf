-- ===== src/Tests/World.antt =====
-- A concrete SQLite that never fails, an OpenSSL whose cipher is the identity on bytes, and a server
-- with two users and a group, of which the first is the admin.
use Prim.Native.Nat.{min}
use mathlib.Core.List.Perm
use mo_t.Base.{
  take, ◌^◌, ap, ℕ, ◌+◌, ◌<◌, ◌≡◌, true, none, some, List, [], ◌∷◌, ◌++◌, Text, codes, All, arith,
  ltb, if◌then◌else◌, Bool, ◌&&◌,
}
use mo_t.Base.Int.{ℤ, pos, negsuc, pos_part}
use mo_t.Crypto.{Evp, IsEvp, opened}
use mo_t.Storage.Tables.{UserRow, Db, empty_db}
use mo_t.Storage.Engine.{Sqlite}
use mo_t.Storage.LibC.{LibC}
use mo_t.Clients.{Client}
use mo_t.Protocol.Wire.{Reader, Writer, IsWriter, IsOpen, IsReader, IsPatient}
use mo_t.Server.State.{System, Server}

abbrev pub sqlite : Sqlite
sqlite = record {
  update_prepares = λ u db. true;
  query_prepares = λ q db. true;
  update_runs = λ u db. true;
  interrupted = λ q db. none;
  skipped = λ u db. 0;
  arrange = λ A q db rows. rows;
  arrange-perm = λ A q db rows. Perm.refl rows;
}

abbrev pub are_bytes : List ℕ → Bool
are_bytes [] = true
are_bytes (b ∷ bs) = ltb b 256 && are_bytes bs

abbrev zeros : List ℕ
zeros = 0 ∷ 0 ∷ 0 ∷ 0 ∷ 0 ∷ 0 ∷ 0 ∷ 0 ∷ 0 ∷ 0 ∷ 0 ∷ 0 ∷ 0 ∷ 0 ∷ 0 ∷ 0 ∷ []

abbrev pub evp : Evp
evp = record {
  sha256 = λ s. s;
  rand_bytes = λ n. some zeros;
  seal = λ key iv s. if are_bytes s then some s else none;
  unseal = λ key iv c. opened c;
}

are_bytes-All : (bs : List ℕ) → are_bytes bs ≡ true → All (λ b. b < 256) bs
are_bytes-All [] h = tt
are_bytes-All (b ∷ bs) h = ground (arith, are_bytes-All bs)

pub evp-IsEvp : IsEvp evp
evp-IsEvp = record {
  iv-length = λ n iv h. ground arith;
  iv-bytes = λ n iv h. ground arith;
  seal-bytes = λ key iv s c h. ground (arith, are_bytes-All s);
  unseal-seal = λ key iv s c h. ground arith;
}

abbrev pub libc : LibC
libc = record {
  crypt = λ password salt. some (take 3 salt ++ password);
  rand = λ n. n;
  local_time = λ t. (12, 30);
  reallocs = λ n. true;
}

abbrev pub sys : System
sys = record { sqlite = sqlite; evp = evp; libc = libc }

-- One byte at a time.
abbrev pub writer : Writer
writer = record { ssl_write = λ calls n. pos (min 1 n) }

pub writer-IsWriter : IsWriter writer
writer-IsWriter = record { within = λ calls n k h. ground (arith, ap pos_part h) }

pub writer-IsOpen : IsOpen writer
writer-IsOpen calls n some_byte small = ground arith

abbrev one_byte : ℕ → ℕ → ℤ
one_byte n available = if ltb n (2 ^ 31) then pos (min 1 (min n available)) else negsuc 0

abbrev pub reader : Reader
reader = record { ssl_read = λ calls n available. one_byte n available; mallocs = λ n. true }

pub reader-IsReader : IsReader reader
reader-IsReader = record {
  within = λ calls n available k h. ground (arith, ap pos_part h);
  received = λ calls n available k h. ground (arith, ap pos_part h);
  refused = λ calls n available big. ground arith;
}

pub reader-IsPatient : IsPatient reader
reader-IsPatient calls n available some_byte small there = ground arith

abbrev user : ℕ → Text → Text → UserRow
user uid name code = record {
  uid = uid;
  username = name;
  email = name ++ codes "@mot";
  password_hash = codes "$6$pw";
  friend_code = code;
}

abbrev pub group_db : Db
group_db = record empty_db {
  users = user 1 (codes "ada") (codes "AAAAAA") ∷ user 2 (codes "bob") (codes "BBBBBB") ∷ [];
  conversations = record { conv_id = 1; kind = 1; name = codes "team"; description = [] } ∷ [];
  participants =
      record { conv_id = 1; user_id = 1; role = 1 }
      ∷ record { conv_id = 1; user_id = 2; role = 0 }
      ∷ [];
  user_seq = 2;
  conversation_seq = 1;
}

abbrev pub client : ℕ → Client
client uid = record {
  fd = 4 + uid;
  ssl = 50 + uid;
  uid = uid;
  username = codes "user";
  is_online = true;
}

abbrev pub server : Db → Server
server db = record {
  db = db;
  clients = client 1 ∷ client 2 ∷ [];
  key = some (codes "key");
  draws = 0;
  seals = 0;
  sent = [];
  freed = [];
  closed = [];
}
