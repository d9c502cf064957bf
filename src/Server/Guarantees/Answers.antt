-- ===== src/Server/Guarantees/Answers.antt =====
-- The handlers of src/server/handlers meet no undefined behaviour on a well-formed payload.
use mo_t.Base.{
  ℕ, ◌^◌, ◌≤◌, ◌<◌, ◌≡◌, refl, true, Option, some, List, All, Text, length, is_some, is_some-bind,
  if_both, if_cases, arith, ltb, if◌then◌else◌, ◌>>=◌, ◌∷◌, [],
}
use mo_t.Crypto.{crypto_decrypt}
use mo_t.Storage.Tables.{UserRow}
use mo_t.Storage.Users.{storage_check_credentials, credentials_row}
use mo_t.Storage.Conversations.{storage_is_admin}
use mo_t.Storage.Messages.{storage_get_history}
use mo_t.Storage.Messages.Reading.{is_plain, storage_get_history-is_some}
use mo_t.Storage.LibC.{LibC}
use mo_t.Clients.{Client}
use mo_t.Protocol.Types.{MessageType, create_conv}
use mo_t.Protocol.Request.{buffer, u8_at, u32_at, text_at}
use mo_t.Protocol.Request.Sizes.{
  payload_size, u8_at-is_some, u32_at-is_some, text_at-is_some, u32s_at-is_some,
}
use mo_t.Server.State.{System, Server}
use mo_t.Server.Auth.{handle_register, handle_login, handle_update_user}
use mo_t.Server.Chat.{max_participants, handle_send_text, handle_req_history}
use mo_t.Server.Groups.{
  claimed_uids, handle_create_conv, handle_update_group, handle_add_member, handle_req_members,
  handle_kick_member, handle_delete_group,
}
use mo_t.Server.Friends.{handle_add_by_code, handle_decide_request}

-- crypt(3) gives a failure token in place of NULL.
abbrev pub IsCrypting : LibC → Type 0
IsCrypting libc = (password salt : Text) → is_some (libc.crypt password salt) ≡ true

-- A payload of the size of its struct, whose count of participants is an int.
pub record WellFormed (t : MessageType) (payload : List ℕ) : Type 0 where
  pub size : payload_size t ≤ length payload
  pub count : t ≡ create_conv → (n : ℕ) → u32_at (buffer payload) 97 ≡ some n → n < 2 ^ 31

module _ (sys : System) (crypts : IsCrypting sys.libc) (s : Server) (cli : Client) where
  credentials_row-is_some :
      (password : Text) (rows : List UserRow)
      → is_some (credentials_row sys.libc sys.sqlite password rows) ≡ true
  unfolding credentials_row
  credentials_row-is_some password [] = refl
  credentials_row-is_some password (row ∷ rows) =
      is_some-bind (sys.libc.crypt password row.password_hash) _ (crypts password row.password_hash)
        λ hash e. refl

  check_credentials-is_some :
      (email password : Text)
      → is_some (storage_check_credentials sys.libc sys.sqlite email password s.db) ≡ true
  unfolding storage_check_credentials
  check_credentials-is_some email password = credentials_row-is_some password _

  module _ (p : List ℕ) where
    pub register-is_some : 160 ≤ length p → is_some (handle_register sys cli p s) ≡ true
    unfolding handle_register
    register-is_some h = is_some-bind (text_at p 0) _ (text_at-is_some p 0 (omega arith)) λ email _.
        is_some-bind (text_at p 64) _ (text_at-is_some p 64 (omega arith)) λ username _.
          is_some-bind (text_at p 96) _ (text_at-is_some p 96 (omega arith)) λ password _. refl

    pub login-is_some : 128 ≤ length p → is_some (handle_login sys cli p s) ≡ true
    unfolding handle_login
    login-is_some h = is_some-bind (text_at p 0) _ (text_at-is_some p 0 (omega arith)) λ email _.
        is_some-bind (text_at p 64) _ (text_at-is_some p 64 (omega arith)) λ password _.
          is_some-bind (storage_check_credentials sys.libc sys.sqlite email password s.db) _
            (check_credentials-is_some email password) λ user _. refl

    pub update_user-is_some : 96 ≤ length p → is_some (handle_update_user sys cli p s) ≡ true
    unfolding handle_update_user
    update_user-is_some h =
        is_some-bind (text_at p 0) _ (text_at-is_some p 0 (omega arith)) λ name _.
          is_some-bind (text_at p 32) _ (text_at-is_some p 32 (omega arith)) λ password _. refl

    pub send_text-is_some :
        (now : ℕ) → 1028 ≤ length p → is_some (handle_send_text sys now cli p s) ≡ true
    unfolding handle_send_text
    send_text-is_some now h =
        is_some-bind (u32_at p 0) _ (u32_at-is_some p 0 (omega arith))
          λ conv _. is_some-bind (text_at p 4) _ (text_at-is_some p 4 (omega arith)) λ text _. refl

    pub req_history-is_some :
        All (λ m. is_plain (crypto_decrypt sys.evp s.key m.text) ≡ true) s.db.messages
        → 4 ≤ length p
        → is_some (handle_req_history sys cli p s) ≡ true
    unfolding handle_req_history
    req_history-is_some readable h =
        is_some-bind (u32_at p 0) _ (u32_at-is_some p 0 (omega arith)) λ conv _.
          is_some-bind (storage_get_history sys.libc sys.evp sys.sqlite s.key conv s.db) _
            (storage_get_history-is_some sys.evp s.key sys.libc sys.sqlite conv s.db readable)
            λ hist _. refl

    pub claimed_uids-is_some :
        (count : ℕ) → 141 ≤ length p → count < 2 ^ 31 → is_some (claimed_uids sys count p) ≡ true
    unfolding claimed_uids
    claimed_uids-is_some count h small =
        if_cases (λ (o : Option (List ℕ)). is_some o ≡ true) (ltb count (2 ^ 31)) _ _
          (λ _.
            u32s_at-is_some p (if ltb max_participants count then max_participants else count) 101
              (ground arith))
          λ no. absurd (ground arith)

    pub create_conv-is_some :
        141 ≤ length p
        → ((n : ℕ) → u32_at p 97 ≡ some n → n < 2 ^ 31)
        → is_some (handle_create_conv sys cli p s) ≡ true
    unfolding handle_create_conv
    create_conv-is_some h small =
        is_some-bind (u8_at p 0) _ (u8_at-is_some p 0 (omega arith)) λ kind _.
          is_some-bind (u32_at p 97) _ (u32_at-is_some p 97 (omega arith)) λ count e.
            is_some-bind (claimed_uids sys count p) _ (claimed_uids-is_some count h (small count e))
              λ uids _. is_some-bind (text_at p 1) _ (text_at-is_some p 1 (omega arith)) λ name _.
                is_some-bind (text_at p 33) _ (text_at-is_some p 33 (omega arith))
                  λ description _. refl

    -- A handler that reads a conversation and, for its admins, goes on.
    pub admin-is_some :
        (act : ℕ → Option Server)
        → 4 ≤ length p
        → ((conv : ℕ) → is_some (act conv) ≡ true)
        → is_some (
            u32_at p 0 >>= λ conv.
            if storage_is_admin sys.sqlite conv cli.uid s.db then act conv else some s)
          ≡ true
    admin-is_some act h acts =
        is_some-bind (u32_at p 0) _ (u32_at-is_some p 0 (omega arith)) λ conv _.
          if_both (λ (o : Option Server). is_some o ≡ true)
            (storage_is_admin sys.sqlite conv cli.uid s.db) (act conv) (some s) (acts conv) refl

    pub update_group-is_some : 100 ≤ length p → is_some (handle_update_group sys cli p s) ≡ true
    unfolding handle_update_group
    update_group-is_some h = admin-is_some _ (omega arith) λ conv.
        is_some-bind (text_at p 4) _ (text_at-is_some p 4 (omega arith)) λ name _.
          is_some-bind (text_at p 36) _ (text_at-is_some p 36 (omega arith)) λ desc _. refl

    pub add_member-is_some : 11 ≤ length p → is_some (handle_add_member sys cli p s) ≡ true
    unfolding handle_add_member
    add_member-is_some h =
        admin-is_some _ (omega arith)
          λ conv. is_some-bind (text_at p 4) _ (text_at-is_some p 4 (omega arith)) λ code _. refl

    pub kick_member-is_some : 8 ≤ length p → is_some (handle_kick_member sys cli p s) ≡ true
    unfolding handle_kick_member
    kick_member-is_some h =
        admin-is_some _ (omega arith)
          λ conv. is_some-bind (u32_at p 4) _ (u32_at-is_some p 4 (omega arith)) λ target _. refl

    pub delete_group-is_some : 4 ≤ length p → is_some (handle_delete_group sys cli p s) ≡ true
    unfolding handle_delete_group
    delete_group-is_some h = admin-is_some _ h λ conv. refl

    pub req_members-is_some : 4 ≤ length p → is_some (handle_req_members sys cli p s) ≡ true
    unfolding handle_req_members
    req_members-is_some h =
        is_some-bind (u32_at p 0) _ (u32_at-is_some p 0 (omega arith)) λ conv _. refl

    pub add_by_code-is_some : 7 ≤ length p → is_some (handle_add_by_code sys cli p s) ≡ true
    unfolding handle_add_by_code
    add_by_code-is_some h =
        is_some-bind (text_at p 0) _ (text_at-is_some p 0 (omega arith)) λ code _. refl

    pub decide_request-is_some : 5 ≤ length p → is_some (handle_decide_request sys cli p s) ≡ true
    unfolding handle_decide_request
    decide_request-is_some h =
        is_some-bind (u8_at p 4) _ (u8_at-is_some p 4 (omega arith)) λ accepted _.
          is_some-bind (u32_at p 0) _ (u32_at-is_some p 0 (omega arith)) λ target _. refl
