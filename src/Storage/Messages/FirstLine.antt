-- ===== src/Storage/Messages/FirstLine.antt =====
-- The history of src/server/storage.c as the C string that its caller reads.
use mo_t.Base.{
  ℕ, ◌+◌, ◌≡◌, true, none, some, List, [], ◌∷◌, ◌++◌, Text, IsText, IsText-append, c_str,
  c_str-append, codes, arith, length, if◌then◌else◌, Holds, Holds-map, Yields, All, Option-cases,
  inl, inr, if_both, append-nil, append_assoc, ◌∙◌, sym, ap,
}
use mo_t.Crypto.{Evp, MasterKey, Decrypted, null, undefined, plain, crypto_decrypt}
use mo_t.Storage.Tables.{Db}
use mo_t.Storage.Engine.{Sqlite}
use mo_t.Storage.LibC.{LibC}
use mo_t.Storage.Messages.Reading.{is_plain, storage_get_history-is_some}
use mo_t.Storage.Messages.{Line, line_header, append_lines, history_rows, storage_get_history}

module _ (libc : LibC) (evp : Evp) (key : MasterKey) where
  -- The loop appends.
  append_lines_grows :
      (rows : List Line) (buf : List ℕ)
      → Holds (λ out. (tail : List ℕ) × (out ≡ buf ++ tail)) (append_lines libc evp key rows buf)
  unfolding append_lines
  append_lines_grows [] buf = ([], sym (append-nil buf))
  append_lines_grows (row ∷ rows) buf =
      grow (append_lines_grows rows) (crypto_decrypt evp key row.text)
    where
      grow :
          ((b : List ℕ)
            → Holds (λ out. (tail : List ℕ) × (out ≡ b ++ tail)) (append_lines libc evp key rows b))
          → (d : Decrypted)
          → Holds
              (λ out. (tail : List ℕ) × (out ≡ buf ++ tail))
              (elim d [
                | null ↦ none
                | undefined ↦ none
                | plain text ↦
                    let more =
                      append_lines libc evp key rows
                        (buf ++ (line_header libc row ++ (text ++ codes "\n" ++ 0 ∷ []))) in
                    if libc.reallocs (length buf + length (line_header libc row) + length text + 3)
                    then more
                    else some buf
              ])
      grow ih null = tt
      grow ih undefined = tt
      grow ih (plain text) =
          if_both (Holds (λ out. (tail : List ℕ) × (out ≡ buf ++ tail))) (libc.reallocs _) _ _
            (Holds-map _ _ (append_lines libc evp key rows _)
              (λ out (tail, e). (
                _,
                e ∙ append_assoc buf (line_header libc row ++ (text ++ codes "\n" ++ 0 ∷ [])) tail,
              ))
              (ih (buf ++ (line_header libc row ++ (text ++ codes "\n" ++ 0 ∷ [])))))
            ([], sym (append-nil buf))

  one_line :
      (head text : Text) (tail : List ℕ)
      → IsText head
      → IsText text
      → c_str ((head ++ (text ++ codes "\n" ++ 0 ∷ [])) ++ tail) ≡ head ++ (text ++ codes "\n")
  one_line head text tail h t =
      let line = text ++ codes "\n" in
      ap c_str (
        append_assoc head (line ++ 0 ∷ []) tail
        ∙ ap (◌++◌ head) (append_assoc line (0 ∷ []) tail)
        ∙ sym (append_assoc head line (0 ∷ tail)))
      ∙ c_str-append (head ++ line) tail
          (IsText-append head line h (IsText-append text (codes "\n") t (omega arith, tt)))

  first_line :
      (sqlite : Sqlite) (conv : ℕ) (db : Db) (row : Line) (rows : List Line) (text : Text)
      → history_rows libc evp sqlite conv db ≡ row ∷ rows
      → crypto_decrypt evp key row.text ≡ plain text
      → IsText (line_header libc row)
      → IsText text
      → libc.reallocs (length (line_header libc row) + length text + 3) ≡ true
      → Holds
          (λ hist. c_str hist ≡ line_header libc row ++ (text ++ codes "\n"))
          (storage_get_history libc evp sqlite key conv db)
  unfolding storage_get_history append_lines
  first_line sqlite conv db row rows text e_rows e_text h t room =
      let size = length (line_header libc row) + length text + 3 in
      let zero_more : 0 + length (line_header libc row) + length text + 3 ≡ size = omega arith in
      rw e_rows (
        rw (e_text, append_lines, zero_more, room)
          (Holds-map _ _
            (append_lines libc evp key rows
              (line_header libc row ++ (text ++ codes "\n" ++ 0 ∷ [])))
            (λ hist (tail, e). rw e (one_line (line_header libc row) text tail h t))
            (append_lines_grows rows (line_header libc row ++ (text ++ codes "\n" ++ 0 ∷ [])))))

  -- Where every stored message decrypts, and the oldest row of the history has a C string as its
  -- header and as its text and gets its memory: the history is built, and as a C string it is the
  -- line of that row alone, whatever rows follow.
  pub storage_get_history-first :
      (sqlite : Sqlite) (conv : ℕ) (db : Db) (row : Line) (rows : List Line) (text : Text)
      → All (λ m. is_plain (crypto_decrypt evp key m.text) ≡ true) db.messages
      → history_rows libc evp sqlite conv db ≡ row ∷ rows
      → crypto_decrypt evp key row.text ≡ plain text
      → IsText (line_header libc row)
      → IsText text
      → libc.reallocs (length (line_header libc row) + length text + 3) ≡ true
      → Yields
          (λ hist. c_str hist ≡ line_header libc row ++ (text ++ codes "\n"))
          (storage_get_history libc evp sqlite key conv db)
  storage_get_history-first sqlite conv db row rows text readable e_rows e_text h t room =
      let built = storage_get_history-is_some evp key libc sqlite conv db readable in
      elim (Option-cases (storage_get_history libc evp sqlite key conv db)) [
        | inl stops ↦ (let never = rw stops at built in cc)
        | inr (hist, e) ↦
            (hist, e, rw e at (first_line sqlite conv db row rows text e_rows e_text h t room))
      ]
