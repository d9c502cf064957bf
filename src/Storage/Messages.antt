-- ===== src/Storage/Messages.antt =====
-- The messages of src/server/storage.c: the encrypted log and the history.
pub mod Reading
pub mod FirstLine
use mo_t.Base.{
  ℕ, ◌+◌, ◌/◌, ◌%◌, Option, none, some, List, [], ◌∷◌, ◌++◌, Text, codes, take, select, snprintf,
  length, leb, ◌==◌, if◌then◌else◌, map,
}
use mo_t.Crypto.{Evp, MasterKey, null, undefined, plain, crypto_encrypt, crypto_decrypt}
use mo_t.Storage.Tables.{UserRow, MessageRow, Db}
use mo_t.Storage.Statements.{insert_message, select_history}
use mo_t.Storage.Engine.{Sqlite, perform, fetch_by}
use mo_t.Storage.LibC.{LibC}

-- A row of the history: u.username, m.text, m.timestamp.
pub record Line : Type 0 where
  pub username : Text
  pub text : Text
  pub timestamp : ℕ

unfoldable pub join_senders : List MessageRow → List UserRow → List Line
join_senders [] users = []
join_senders (m ∷ ms) users =
    map (λ u. record { username = u.username; text = m.text; timestamp = m.timestamp })
      (select (λ u. u.uid == m.sender_id) users)
    ++ join_senders ms users

abbrev pub lines_of : ℕ → Db → List Line
lines_of conv db = join_senders (select (λ m. m.conv_id == conv) db.messages) db.users

-- ORDER BY m.timestamp ASC; rows of one time stay as they came.
unfoldable pub insert_line : Line → List Line → List Line
insert_line x [] = x ∷ []
insert_line x (y ∷ ys) = if leb x.timestamp y.timestamp then x ∷ y ∷ ys else y ∷ insert_line x ys

unfoldable pub sort_lines : List Line → List Line
unfolding insert_line
sort_lines [] = []
sort_lines (x ∷ xs) = insert_line x (sort_lines xs)

-- "%02d" of an hour or a minute.
abbrev two_digits : ℕ → Text
two_digits n = (48 + n / 10) ∷ (48 + n % 10) ∷ []

module _ (sqlite : Sqlite) (evp : Evp) where
  -- `n` names the call of RAND_bytes. A message that cannot be encrypted is not stored.
  unfoldable pub storage_log_message : MasterKey → ℕ → ℕ → ℕ → ℕ → Text → Db → Db
  storage_log_message key n now conv sender text db = elim (crypto_encrypt evp key n text) [
    | none ↦ db
    | some hex ↦ (perform sqlite (insert_message conv sender hex now) db).0
  ]

module _ (libc : LibC) where
  open libc use {local_time, reallocs}

  -- snprintf into line_header[64].
  unfoldable pub line_header : Line → Text
  line_header row =
      let (hour, minute) = local_time row.timestamp in
      snprintf 64 (
        codes "["
        ++ (two_digits hour
            ++ (codes ":" ++ (two_digits minute ++ (codes "] " ++ (row.username ++ codes ": "))))))

  module _ (evp : Evp) where
    -- `buf` holds the `len` bytes written so far. A line is written with its newline and its NUL, and
    -- `len` grows by both. `none`: `strlen` reads the NULL of a failed decryption.
    unfoldable pub append_lines : MasterKey → List Line → List ℕ → Option (List ℕ)
    append_lines key [] buf = some buf
    append_lines key (row ∷ rows) buf = elim (crypto_decrypt evp key row.text) [
      | null ↦ none
      | undefined ↦ none
      | plain text ↦
          let more =
            append_lines key rows (buf ++ (line_header row ++ (text ++ codes "\n" ++ 0 ∷ []))) in
          if reallocs (length buf + length (line_header row) + length text + 3)
          then more
          else some buf
    ]

    module _ (sqlite : Sqlite) where
      unfoldable pub history_rows : ℕ → Db → List Line
      history_rows conv db =
          fetch_by sqlite (λ rows. take 50 (sort_lines rows)) (select_history conv) db
            (lines_of conv db)

      -- The bytes of the buffer; the caller reads them as a C string.
      unfoldable pub storage_get_history : MasterKey → ℕ → Db → Option (List ℕ)
      unfolding history_rows
      storage_get_history key conv db = append_lines key (history_rows conv db) []
