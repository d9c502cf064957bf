-- ===== src/ClientApp/Services/Layouts.antt =====
-- The fields that the handlers of src/server find in the packets of src/client/services.
use mo_t.Base.{
  ℕ, ◌⊎◌, inl, inr, ◌+◌, ◌-◌, ◌*◌, ◌^◌, ◌≤◌, ◌<◌, ◌≡◌, refl, ◌∙◌, sym, ap, some, List, [], ◌∷◌,
  ◌++◌, Text, IsText, All, length, length-append, length-take, take, take-all, strncpy, arith,
  append_assoc,
}
use mo_t.ClientApp.Services.{create_payload}
use mo_t.Protocol.Request.{buffer, u8_at, u32_at, text_at, u32s_at}
use mo_t.Protocol.Layout.{
  le32, zeros, char_array, char_array_nil, u32_array, length-char_array, buffer-append,
  u32_at-append, text_at-append, u32_at-le32, text_at-char_array, text_at_full, IsText-take,
  u32s_at-u32_array,
}

-- An array of n + 1 bytes that takes n of a C string.
pub field :
    (n size : ℕ) (s : Text) (rest : List ℕ)
    → IsText s
    → size ≡ n + 1
    → text_at (char_array size (take n s) ++ rest) 0 ≡ some (take n s)
field n size s rest t e =
    text_at-char_array size (take n s) rest (IsText-take n s t) (omega (arith, length-take n s))

module _ (a b : List ℕ) (n : ℕ) (size : length a ≡ n) where
  -- The buffer of two fields, the second bracketed with the NUL.
  pub buffer_of : 0 < n → buffer (a ++ b) ≡ a ++ (b ++ 0 ∷ [])
  buffer_of h =
      buffer-append (a ++ b) (omega (arith, length-append a b)) ∙ append_assoc a b (0 ∷ [])

module _ (email username password : Text) (te : IsText email) (tu : IsText username)
    (tp : IsText password) where
  abbrev mail : List ℕ
  mail = char_array 64 (strncpy 63 email)

  abbrev secret : List ℕ
  secret = char_array 64 (strncpy 63 password)

  abbrev name : List ℕ
  name = char_array 32 (strncpy 31 username)

  pub register_fields :
      let p = buffer (mail ++ (name ++ secret)) in
      (text_at p 0 ≡ some (take 63 email))
      × (text_at p 64 ≡ some (take 31 username))
      × (text_at p 96 ≡ some (take 63 password))
  register_fields =
      let n1 = length-char_array 64 (strncpy 63 email) in
      let n2 = length-char_array 32 (strncpy 31 username) in
      rw (buffer_of mail (name ++ secret) 64 n1 (omega arith), append_assoc name secret (0 ∷ []))
        (
          field 63 64 email _ te refl,
          text_at-append mail _ 64 0 n1 64 (omega arith) ∙ field 31 32 username _ tu refl,
          text_at-append mail _ 64 32 n1 96 (omega arith)
              ∙ text_at-append name _ 32 0 n2 32 (omega arith)
              ∙ field 63 64 password _ tp refl,
        )

  pub login_fields :
      let p = buffer (mail ++ secret) in
      (text_at p 0 ≡ some (take 63 email)) × (text_at p 64 ≡ some (take 63 password))
  login_fields =
      let n1 = length-char_array 64 (strncpy 63 email) in
      rw (buffer_of mail secret 64 n1 (omega arith)) (
        field 63 64 email _ te refl,
        text_at-append mail _ 64 0 n1 64 (omega arith) ∙ field 63 64 password _ tp refl,
      )

  pub update_fields :
      let p = buffer (name ++ secret) in
      (text_at p 0 ≡ some (take 31 username)) × (text_at p 32 ≡ some (take 63 password))
  update_fields =
      let n1 = length-char_array 32 (strncpy 31 username) in
      rw (buffer_of name secret 32 n1 (omega arith)) (
        field 31 32 username _ tu refl,
        text_at-append name _ 32 0 n1 32 (omega arith) ∙ field 63 64 password _ tp refl,
      )

module _ (n : ℕ) (small : n < 2 ^ 32) where
  pub u32_field : (rest : List ℕ) → u32_at (buffer (le32 n ++ rest)) 0 ≡ some n
  u32_field rest = u32_at-le32 n (rest ++ 0 ∷ []) small

  pub text_fields :
      (text : Text)
      → IsText text
      → text_at (buffer (le32 n ++ char_array 1024 (strncpy 1023 text))) 4 ≡ some (take 1023 text)
  text_fields text t =
      text_at-append (le32 n) _ 4 0 refl 4 (omega arith) ∙ field 1023 1024 text _ t refl

  pub second_field : (m : ℕ) → m < 2 ^ 32 → u32_at (buffer (le32 n ++ le32 m)) 4 ≡ some m
  second_field m small' =
      u32_at-append (le32 n) _ 4 0 refl 4 (omega arith) ∙ u32_at-le32 m (0 ∷ []) small'

-- A friend code may fill its array: the NUL behind the payload ends it.
pub code_field :
    (code : Text) → IsText code → text_at (buffer (char_array 7 code)) 0 ≡ some (take 7 code)
code_field code t =
    rw (buffer-append (char_array 7 code) (omega (arith, length-char_array 7 code)))
      (text_at_full 7 code [] t)

-- A payload with a byte behind a uint32_t.
pub decide_fields :
    (n accept : ℕ)
    → n < 2 ^ 32
    → let p = buffer (le32 n ++ accept ∷ []) in (u8_at p 4 ≡ some accept) × (u32_at p 0 ≡ some n)
unfolding u8_at
decide_fields n accept small = (refl, u32_at-le32 n (accept ∷ 0 ∷ []) small)

module _ (kind : ℕ) (name desc : Text) (uids : List ℕ) (tn : IsText name) (td : IsText desc)
    (short : length desc < 64) (few : length uids ≤ 10) (small : All (λ n. n < 2 ^ 32) uids) where
  abbrev create_rest : List ℕ
  create_rest = le32 (length uids) ++ (u32_array uids ++ zeros (40 - 4 * length uids))

  -- The fields of CreateConvPayload, where the name is ended by its array or by an empty description.
  pub create_fields :
      (length name < 32) ⊎ (desc ≡ [])
      → let p = buffer (create_payload kind name desc uids) in
        (u8_at p 0 ≡ some kind)
        × (u32_at p 97 ≡ some (length uids))
        × (u32s_at (length uids) p 101 ≡ some uids)
        × (text_at p 1 ≡ some (take 32 name))
        × (text_at p 33 ≡ some desc)
  unfolding create_payload u8_at
  create_fields ended =
      let head = kind ∷ char_array 32 name in
      let n1 : length head ≡ 33 = omega (arith, length-char_array 32 name) in
      let n2 = length-char_array 64 desc in
      let tail = create_rest ++ 0 ∷ [] in
      let front : length (head ++ (char_array 64 desc ++ le32 (length uids))) ≡ 101 = omega (
        arith,
        n1,
        n2,
        length-append head (char_array 64 desc ++ le32 (length uids)),
        length-append (char_array 64 desc) (le32 (length uids)),
      ) in
      rw
        (
          buffer_of head (char_array 64 desc ++ create_rest) 33 n1 (omega arith),
          append_assoc (char_array 64 desc) create_rest (0 ∷ []),
        )
        (
          refl,
          u32_at-append head (char_array 64 desc ++ tail) 33 64 n1 97 (omega arith)
              ∙ u32_at-append (char_array 64 desc) tail 64 0 n2 64 (omega arith)
              ∙ u32_at-le32 (length uids) _ (omega arith),
          uids_at front,
          name_at ended,
          text_at-append head (char_array 64 desc ++ tail) 33 0 n1 33 (omega arith)
              ∙ text_at-char_array 64 desc tail td short,
        )
    where
      uids_at :
          length ((kind ∷ char_array 32 name) ++ (char_array 64 desc ++ le32 (length uids))) ≡ 101
          → u32s_at
              (length uids)
              ((kind ∷ char_array 32 name) ++ (char_array 64 desc ++ (create_rest ++ 0 ∷ [])))
              101
            ≡ some uids
      uids_at front =
          let behind = zeros (40 - 4 * length uids) ++ 0 ∷ [] in
          let regroup : (kind ∷ char_array 32 name)
                ++ (char_array 64 desc ++ (create_rest ++ 0 ∷ []))
              ≡ ((kind ∷ char_array 32 name) ++ (char_array 64 desc ++ le32 (length uids)))
                ++ (u32_array uids ++ behind) =
            simp append_assoc in
          rw regroup (
            u32s_at-u32_array uids
              ((kind ∷ char_array 32 name) ++ (char_array 64 desc ++ le32 (length uids))) behind 101
              small front)

      name_at :
          (length name < 32) ⊎ (desc ≡ [])
          → text_at
              ((kind ∷ char_array 32 name) ++ (char_array 64 desc ++ (create_rest ++ 0 ∷ [])))
              1
            ≡ some (take 32 name)
      name_at (inl fits) =
          text_at-append (kind ∷ [])
            (char_array 32 name ++ (char_array 64 desc ++ (create_rest ++ 0 ∷ []))) 1 0 refl 1
            (omega arith)
          ∙ text_at-char_array 32 name _ tn fits
          ∙ ap some (sym (take-all 32 name (omega arith)))
      name_at (inr e) =
          rw (e, char_array_nil)
            (text_at-append (kind ∷ [])
                (char_array 32 name ++ (0 ∷ (zeros 63 ++ (create_rest ++ 0 ∷ [])))) 1 0 refl 1
                (omega arith)
              ∙ text_at_full 32 name _ tn)
