-- ===== src/Storage/Users/Credentials.antt =====
-- What a check of credentials in src/server/storage.c establishes.
use mo_t.Base.{
  ℕ, ◌≡◌, Bool, true, false, ◌&&◌, not, Option, none, some, List, [], ◌∷◌, Text, text_eq, All,
  All-map, All-select, select-All, any, any-false-All, select, arith, >>=-eq-some, Bool-cases, inl,
  inr, ◌==◌, sym, ◌∙◌,
}
use mo_t.Storage.Tables.{UserRow, Db}
use mo_t.Storage.Statements.{select_credentials}
use mo_t.Storage.Engine.{Sqlite, fetch}
use mo_t.Storage.LibC.{LibC}
use mo_t.Storage.Messages.Reading.{fetch_by-All}
use mo_t.Storage.Users.{User, credentials_row, storage_check_credentials}

-- What crypt gave is the stored hash.
abbrev pub hashes_to : Option Text → Text → Bool
hashes_to none stored = false
hashes_to (some hash) stored = text_eq hash stored

-- A row with an email, under whose hash the password hashes to that hash, and with an id.
abbrev pub has_credentials : LibC → Text → Text → ℕ → UserRow → Bool
has_credentials libc email password uid u =
    text_eq u.email email
    && (hashes_to (libc.crypt password u.password_hash) u.password_hash && u.uid == uid)

module _ (libc : LibC) (sqlite : Sqlite) (email password : Text) (user : User) where
  first_row :
      (rows : List UserRow)
      → credentials_row libc sqlite password rows ≡ some (some user)
      → All (λ u. not (text_eq u.email email) ≡ false) rows
      → All (λ u. has_credentials libc email password user.uid u ≡ false) rows
      → true ≡ false
  unfolding credentials_row
  first_row [] h e c = cc
  first_row (row ∷ rows) h e c =
      let (hash, made, rest) = >>=-eq-some (libc.crypt password row.password_hash) _ h in
      elim (Bool-cases (text_eq hash row.password_hash)) [
        | inl same ↦
            let mine : row.uid ≡ user.uid = ground arith in
            let none_ = rw (made, same, mine) at c.0 in ground (arith, e.0)
        | inr differs ↦ (let stops = rw differs at rest in cc)
      ]

  -- Credentials are found good only where some user has the email, the hash of the password under his
  -- stored hash is that hash, and the id is the one that is given out.
  pub storage_check_credentials-has_credentials :
      (db : Db)
      → storage_check_credentials libc sqlite email password db ≡ some (some user)
      → any (has_credentials libc email password user.uid) db.users ≡ true
  unfolding storage_check_credentials fetch
  storage_check_credentials-has_credentials db h =
      elim (Bool-cases (any (has_credentials libc email password user.uid) db.users)) [
        | inl good ↦ good
        | inr bad ↦
            let found = select (λ u. text_eq u.email email) db.users in
            bad
            ∙ sym (
                first_row _ h
                  (fetch_by-All sqlite (λ u. not (text_eq u.email email)) _ (λ rows all. all)
                    (select_credentials email) db found
                    (All-map (λ u e. ground arith) found
                      (select-All (λ u. text_eq u.email email) db.users)))
                  (fetch_by-All sqlite (has_credentials libc email password user.uid) _
                    (λ rows all. all) (select_credentials email) db found
                    (All-select (λ u. has_credentials libc email password user.uid u ≡ false) _
                      db.users
                      (any-false-All (has_credentials libc email password user.uid) db.users bad))))
      ]
