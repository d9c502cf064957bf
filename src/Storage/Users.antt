-- ===== src/Storage/Users.antt =====
-- The users of src/server/storage.c: registration, credentials, profile and lookups.
pub mod Credentials
use mo_t.Base.{
  ℕ, zero, suc, ◌+◌, ◌%◌, Option, none, some, List, [], ◌∷◌, ◌++◌, Text, codes, get_elem?, length,
  select, strncpy, text_eq, ltb, ◌==◌, if◌then◌else◌, ◌>>=◌,
}
use mo_t.Storage.Tables.{UserRow, Db}
use mo_t.Storage.Statements.{
  insert_user, update_username, update_password, select_credentials, select_uid, select_user,
}
use mo_t.Storage.Engine.{Sqlite, perform, fetch}
use mo_t.Storage.LibC.{LibC}

-- struct User of include/system/storage.h.
pub record User : Type 0 where
  pub uid : ℕ
  pub username : Text
  pub email : Text
  pub password_hash : Text
  pub friend_code : Text

abbrev max_name_len : ℕ
max_name_len = 32

abbrev max_email_len : ℕ
max_email_len = 64

abbrev friend_code_len : ℕ
friend_code_len = 7

abbrev hex_charset : Text
hex_charset = codes "0123456789ABCDEF"

abbrev salt_charset : Text
salt_charset = codes "abcdefghijklmnopqrstuvwxyzABCDEFGHIJKLMNOPQRSTUVWXYZ0123456789./"

-- charset[i], which is in range here.
abbrev char_of : Text → ℕ → ℕ
char_of charset i = elim (get_elem? charset i) [ none ↦ 0 | some c ↦ c ]

module _ (libc : LibC) where
  open libc use {crypt, rand}

  -- `count` characters of a set, from the n-th value of `rand` on.
  pub random_chars : Text → ℕ → ℕ → Text
  random_chars charset zero n = []
  random_chars charset (suc count) n =
      char_of charset (rand n % length charset) ∷ random_chars charset count (n + 1)

  pub generate_friend_code : ℕ → Text
  generate_friend_code n = random_chars hex_charset 6 n

  pub generate_random_salt : ℕ → Text
  generate_random_salt n = codes "$6$rounds=5000$" ++ random_chars salt_charset 16 n

  module _ (sqlite : Sqlite) where
    -- `n` counts the calls of `rand`: the code takes 6 and the salt 16. The result is the friend
    -- code, or `none` where the function returns 0.
    unfoldable pub storage_register_user : Text → Text → Text → ℕ → Db → Db × Option Text
    storage_register_user email username password n db =
        let code = generate_friend_code n in
        let hash = crypt password (generate_random_salt (n + 6)) in
        let (db', prepared, done) = perform sqlite (insert_user username email hash code) db in
        (db', if done then some code else none)

    unfoldable pub credentials_row : Text → List UserRow → Option (Option User)
    credentials_row password [] = some none
    credentials_row password (row ∷ rest) = do
      hash ← crypt password row.password_hash
      some (
          if text_eq hash row.password_hash
          then some (record {
            uid = row.uid;
            username = strncpy max_name_len row.username;
            email = strncpy max_email_len row.email;
            password_hash = strncpy 128 row.password_hash;
            friend_code = strncpy friend_code_len row.friend_code;
          })
          else none)

    -- The first row decides. `none` outside: `strcmp` reads the NULL of a failed `crypt`.
    unfoldable pub storage_check_credentials : Text → Text → Db → Option (Option User)
    unfolding credentials_row
    storage_check_credentials email password db =
        credentials_row password (
          fetch sqlite (select_credentials email) db (select (λ u. text_eq u.email email) db.users))

    unfoldable pub storage_update_user : ℕ → Text → Text → ℕ → Db → Db
    storage_update_user uid new_username new_password n db =
        let renamed =
          if ltb 0 (length new_username)
          then (perform sqlite (update_username new_username uid) db).0
          else db in
        if ltb 0 (length new_password)
        then (perform sqlite (update_password (crypt new_password (generate_random_salt n)) uid)
            renamed).0
        else renamed

module _ (sqlite : Sqlite) where
  first_uid : List UserRow → Option ℕ
  first_uid [] = none
  first_uid (row ∷ rest) = some row.uid

  unfoldable pub storage_get_uid_by_code : Text → Db → Option ℕ
  unfolding first_uid
  storage_get_uid_by_code code db =
      first_uid
        (fetch sqlite (select_uid code) db (select (λ u. text_eq u.friend_code code) db.users))

  first_user : ℕ → User → List UserRow → Option User
  first_user uid u [] = none
  first_user uid u (row ∷ rest) = some (record u {
    uid = uid;
    username = strncpy max_name_len row.username;
    friend_code = strncpy friend_code_len row.friend_code;
  })

  -- `user_out` keeps its email and hash.
  unfoldable pub storage_get_user_by_uid : ℕ → User → Db → Option User
  unfolding first_user
  storage_get_user_by_uid uid user_out db =
      first_user uid user_out
        (fetch sqlite (select_user uid) db (select (λ u. u.uid == uid) db.users))
