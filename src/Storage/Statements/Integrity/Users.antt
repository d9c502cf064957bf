-- ===== src/Storage/Statements/Integrity/Users.antt =====
-- The keys of the users under the statements of src/server/storage.c that change them.
use mo_t.Base.{
  ℕ, suc, ◌+◌, ◌≡◌, ◌≢◌, false, Bool, ◌&&◌, not, List, [], ◌∷◌, ◌++◌, map, Text, text_eq_complete,
  any, ◌==◌, arith, All, Unique, Unique-snoc, Unique-map, All-ne-any, All-both, All-image, All-map,
  any-false-All, map-All_same, Bool-cases, inl, inr,
}
use mo_t.Storage.Tables.{UserRow}
use mo_t.Storage.Statements.{has_username, same_user, rename, rehash}
use mo_t.Storage.Statements.Integrity.{UserKeys, IsGiven-ne, IsGiven-snoc}

-- No user has the name, the email or the code of a new one.
module _ (name email code : Text) (users : List UserRow)
    (free : any (same_user name email code) users ≡ false) where
  new_username : All (λ u. u.username ≢ name) users
  new_username =
      All-ne-any (λ (u : UserRow). u.username) (same_user name email code) name
        (λ u e. ground (arith, text_eq_complete u.username name)) users free

  new_email : All (λ u. u.email ≢ email) users
  new_email =
      All-ne-any (λ (u : UserRow). u.email) (same_user name email code) email
        (λ u e. ground (arith, text_eq_complete u.email email)) users free

  new_code : All (λ u. u.friend_code ≢ code) users
  new_code =
      All-ne-any (λ (u : UserRow). u.friend_code) (same_user name email code) code
        (λ u e. ground (arith, text_eq_complete u.friend_code code)) users free

module _ (users : List UserRow) (seq : ℕ) (v : UserKeys users seq) where
  pub insert-UserKeys :
      (skipped : ℕ) (u : UserRow)
      → u.uid ≡ seq + suc skipped
      → any (same_user u.username u.email u.friend_code) users ≡ false
      → UserKeys (users ++ u ∷ []) (seq + suc skipped)
  insert-UserKeys skipped u e free = record {
    given = IsGiven-snoc (λ (u : UserRow). u.uid) seq skipped users v.given u e;
    uids =
        Unique-snoc (λ (u : UserRow). u.uid) users u v.uids
          (rw e (IsGiven-ne (λ (u : UserRow). u.uid) seq skipped users v.given));
    usernames =
        Unique-snoc (λ (u : UserRow). u.username) users u v.usernames
          (new_username u.username u.email u.friend_code users free);
    emails =
        Unique-snoc (λ (u : UserRow). u.email) users u v.emails
          (new_email u.username u.email u.friend_code users free);
    codes =
        Unique-snoc (λ (u : UserRow). u.friend_code) users u v.codes
          (new_code u.username u.email u.friend_code users free);
  }

  -- A change that keeps all keys but the username.
  change-UserKeys :
      (f : UserRow → UserRow)
      → ((u : UserRow)
          → ((f u).uid ≡ u.uid) × ((f u).email ≡ u.email) × ((f u).friend_code ≡ u.friend_code))
      → Unique (λ (u : UserRow). u.username) (map f users)
      → UserKeys (map f users) seq
  change-UserKeys f same names = record {
    given = All-image _ _ f (λ u g. rw ((same u).0) g) users v.given;
    uids = Unique-map (λ (u : UserRow). u.uid) f (λ u. (same u).0) users v.uids;
    usernames = names;
    emails = Unique-map (λ (u : UserRow). u.email) f (λ u. (same u).1) users v.emails;
    codes = Unique-map (λ (u : UserRow). u.friend_code) f (λ u. (same u).2) users v.codes;
  }

  pub rehash-UserKeys : (hash : Text) (uid : ℕ) → UserKeys (map (rehash hash uid) users) seq
  rehash-UserKeys hash uid =
      change-UserKeys (rehash hash uid) (λ u. (ground arith, ground arith, ground arith))
        (Unique-map (λ (u : UserRow). u.username) (rehash hash uid) (λ u. ground arith) users
          v.usernames)

module _ (name : Text) (uid : ℕ) where
  abbrev taken : UserRow → Bool
  taken u = has_username name u && not (u.uid == uid)

  rename_pair :
      (x y : UserRow)
      → taken x ≡ false
      → (x.uid ≢ y.uid) × (x.username ≢ y.username) × (taken y ≡ false)
      → (rename name uid x).username ≢ (rename name uid y).username
  rename_pair x y hx h =
      ground (arith, text_eq_complete x.username name, text_eq_complete y.username name)

  rename-Unique :
      (users : List UserRow)
      → Unique (λ (u : UserRow). u.uid) users
      → Unique (λ (u : UserRow). u.username) users
      → All (λ u. taken u ≡ false) users
      → Unique (λ (u : UserRow). u.username) (map (rename name uid) users)
  rename-Unique [] uids names free = tt
  rename-Unique (x ∷ xs) uids names free = (
    All-image _ _ (rename name uid) (λ y h. rename_pair x y free.0 (h.0, h.1.0, h.1.1)) xs
        (All-both _ _ xs uids.0 (All-both _ _ xs names.0 free.1)),
    rename-Unique xs uids.1 names.1 free.1,
  )

  -- A new name that no other user has; or a user that is not there.
  pub rename-UserKeys :
      (users : List UserRow) (seq : ℕ)
      → UserKeys users seq
      → (any (λ u. u.uid == uid) users && any taken users) ≡ false
      → UserKeys (map (rename name uid) users) seq
  rename-UserKeys users seq v free = elim (Bool-cases (any (λ u. u.uid == uid) users)) [
    | inl known ↦
        change-UserKeys users seq v (rename name uid)
          (λ u. (ground arith, ground arith, ground arith))
          (rename-Unique users v.uids v.usernames (any-false-All taken users (ground arith)))
    | inr unknown ↦
        rw
          (map-All_same (rename name uid) users
            (All-map (λ u e. ground arith) users (any-false-All (λ u. u.uid == uid) users unknown)))
          v
  ]
