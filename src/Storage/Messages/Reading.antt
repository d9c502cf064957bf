-- ===== src/Storage/Messages/Reading.antt =====
-- The history of src/server/storage.c is read whole where every stored text decrypts.
use mo_t.Base.{
  ℕ, ◌+◌, ◌≡◌, refl, Bool, true, false, not, Option, some, List, [], ◌∷◌, ◌++◌, Text, arith, map,
  length, leb, All, All-append, All-select, All-take, All-map, All-any, any-false-All, any-Perm,
  is_some, if_both, Option-cases, inl, inr, codes, ◌∙◌,
}
use mo_t.Crypto.{Evp, MasterKey, Decrypted, null, undefined, plain, crypto_decrypt}
use mo_t.Storage.Tables.{UserRow, MessageRow, Db}
use mo_t.Storage.Statements.{Query, select_history}
use mo_t.Storage.Engine.{Sqlite, fetch_by}
use mo_t.Storage.LibC.{LibC}
use mo_t.Storage.Messages.{
  Line, join_senders, lines_of, insert_line, sort_lines, line_header, append_lines, history_rows,
  storage_get_history,
}

abbrev pub is_plain : Decrypted → Bool
is_plain (plain s) = true
is_plain _ = false

decrypted : (d : Decrypted) → not (is_plain d) ≡ false → (text : Text) × (d ≡ plain text)
decrypted null h = cc
decrypted undefined h = cc
decrypted (plain text) h = (text, refl)

module _ {A : Type 0} (sqlite : Sqlite) (test : A → Bool) where
  -- What holds of the rows of a table holds of those that a query delivers.
  pub fetch_by-All :
      (finish : List A → List A)
      → ((xs : List A) → All (λ x. test x ≡ false) xs → All (λ x. test x ≡ false) (finish xs))
      → (q : Query) (db : Db) (rows : List A) → All (λ x. test x ≡ false) rows
      → All (λ x. test x ≡ false) (fetch_by sqlite finish q db rows)
  unfolding fetch_by
  fetch_by-All finish keep q db rows h =
      let arranged =
        any-false-All test (sqlite.arrange A q db rows)
          (any-Perm test _ rows (sqlite.arrange-perm A q db rows) ∙ All-any test rows h) in
      if_both (All (λ x. test x ≡ false)) (sqlite.query_prepares q db) _ _
        (elim (Option-cases (sqlite.interrupted q db)) [
          | inl e ↦ rw e (keep _ arranged)
          | inr (n, e) ↦ rw e (All-take (λ x. test x ≡ false) n _ (keep _ arranged))
        ])
        tt

module _ (P : Line → Type 0) where
  insert_line-All : (x : Line) (ys : List Line) → P x → All P ys → All P (insert_line x ys)
  unfolding insert_line
  insert_line-All x [] p h = (p, tt)
  insert_line-All x (y ∷ ys) p h =
      if_both (All P) (leb x.timestamp y.timestamp) _ _ (p, h) (h.0, insert_line-All x ys p h.1)

  pub sort_lines-All : (xs : List Line) → All P xs → All P (sort_lines xs)
  unfolding sort_lines
  sort_lines-All [] h = tt
  sort_lines-All (x ∷ xs) h = insert_line-All x (sort_lines xs) h.0 (sort_lines-All xs h.1)

module _ (evp : Evp) (key : MasterKey) where
  abbrev unread : Text → Bool
  unread text = not (is_plain (crypto_decrypt evp key text))

  abbrev unread_line : Line → Bool
  unread_line l = unread l.text

  lines_of_one :
      (m : MessageRow) (users : List UserRow)
      → unread m.text ≡ false
      → All
          (λ l. unread_line l ≡ false)
          (map
            (λ (u : UserRow). record {
              username = u.username;
              text = m.text;
              timestamp = m.timestamp;
            })
            users)
  lines_of_one m [] h = tt
  lines_of_one m (u ∷ users) h = (h, lines_of_one m users h)

  join_senders-All :
      (ms : List MessageRow) (users : List UserRow)
      → All (λ m. unread m.text ≡ false) ms
      → All (λ l. unread_line l ≡ false) (join_senders ms users)
  unfolding join_senders
  join_senders-All [] users h = tt
  join_senders-All (m ∷ ms) users h =
      All-append _ _ _ (lines_of_one m _ h.0) (join_senders-All ms users h.1)

  append_lines-is_some :
      (libc : LibC) (rows : List Line) (buf : List ℕ)
      → All (λ l. unread_line l ≡ false) rows
      → is_some (append_lines libc evp key rows buf) ≡ true
  unfolding append_lines
  append_lines-is_some libc [] buf h = refl
  append_lines-is_some libc (row ∷ rows) buf h =
      let (text, e) = decrypted (crypto_decrypt evp key row.text) h.0 in
      let size = length buf + length (line_header libc row) + length text + 3 in
      let longer = buf ++ (line_header libc row ++ (text ++ codes "\n" ++ 0 ∷ [])) in
      rw (e, append_lines)
        (if_both (λ (o : Option (List ℕ)). is_some o ≡ true) (libc.reallocs size)
          (append_lines libc evp key rows longer) (some buf)
          (append_lines-is_some libc rows longer h.1) refl)

  pub storage_get_history-is_some :
      (libc : LibC) (sqlite : Sqlite) (conv : ℕ) (db : Db)
      → All (λ m. is_plain (crypto_decrypt evp key m.text) ≡ true) db.messages
      → is_some (storage_get_history libc evp sqlite key conv db) ≡ true
  unfolding storage_get_history history_rows
  storage_get_history-is_some libc sqlite conv db h = append_lines-is_some libc _ [] (
      fetch_by-All sqlite unread_line _
        (λ rows all.
          All-take (λ l. unread_line l ≡ false) 50 _
            (sort_lines-All (λ l. unread_line l ≡ false) rows all))
        (select_history conv) db (lines_of conv db)
        (join_senders-All _ db.users (
          All-select (λ m. unread m.text ≡ false) _ db.messages
            (All-map (λ m e. ground arith) db.messages h))))
