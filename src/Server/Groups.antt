-- ===== src/Server/Groups.antt =====
-- src/server/handlers/group_handler.c.
use mo_t.Base.{
  ℕ, ◌^◌, Bool, true, false, ◌&&◌, not, Option, none, some, List, [], ◌∷◌, select, ltb, ◌==◌,
  if◌then◌else◌, ◌>>=◌, length, Text,
}
use mo_t.Storage.Tables.{Db}
use mo_t.Storage.Users.{storage_get_uid_by_code}
use mo_t.Storage.Conversations.{
  storage_find_private_conversation, storage_create_conversation, storage_get_conv_participants,
  storage_is_admin, storage_update_group, storage_add_participant, storage_get_group_members,
  storage_remove_participant, storage_delete_conversation,
}
use mo_t.Clients.{Client}
use mo_t.Protocol.Types.{conv_created, member_added, resp_members}
use mo_t.Protocol.Request.{u8_at, u32_at, u32s_at, text_at}
use mo_t.Protocol.Replies.{no_body, new_conv, members}
use mo_t.Server.State.{System, Server, send, send_online, send_conversations, refresh_all}
use mo_t.Server.Chat.{max_participants}

module _ (sys : System) where
  -- The first ten members but one user: the callers exclude user 0.
  unfoldable pub notify_group_update : ℕ → ℕ → Server → Server
  notify_group_update conv exclude_uid s =
      refresh_all sys
        (select (λ uid. not (uid == exclude_uid))
          (storage_get_conv_participants sys.sqlite conv max_participants s.db))
        s

  -- `uids[0]` and `uids[1]` of a list of two.
  unfoldable pub find_pair : List ℕ → Db → ℕ
  find_pair (a ∷ b ∷ []) db = storage_find_private_conversation sys.sqlite a b db
  find_pair _ db = 0

  -- The tables, the id and `created`: a private conversation of two users is made once.
  unfoldable pub find_or_create : ℕ → Text → Text → List ℕ → Db → Db × ℕ × Bool
  find_or_create kind name desc uids db =
      let found = if kind == 0 && length uids == 2 then find_pair uids db else 0 in
      let made = storage_create_conversation sys.sqlite kind name desc uids db in
      if found == 0 then (made.0, made.1, true) else (db, found, false)

  -- The `memcpy` of at most ten uids. A count from 2^31 on is negative as an int, and `memcpy` is
  -- called with it.
  unfoldable pub claimed_uids : ℕ → List ℕ → Option (List ℕ)
  claimed_uids count p =
      if ltb count (2 ^ 31)
      then u32s_at (if ltb max_participants count then max_participants else count) p 101
      else none

  -- CreateConvPayload: type, name, description, participants_count and participant_uids at 0, 1,
  -- 33, 97 and 101.
  unfoldable pub handle_create_conv : Client → List ℕ → Server → Option Server
  handle_create_conv cli p s = do
    kind ← u8_at p 0
    participants_count ← u32_at p 97
    uids ← claimed_uids participants_count p
    name ← text_at p 1
    description ← text_at p 33
    let (db', new_id, created) = find_or_create kind name description uids s.db
    let s' = send cli conv_created (new_conv new_id) (record s { db = db' })
    some (
        if created && ltb 0 new_id
        then refresh_all sys (select (λ uid. not (uid == cli.uid)) uids) s'
        else s')

  unfoldable pub handle_req_conversations : Client → Server → Server
  handle_req_conversations cli s = send_conversations sys cli.uid cli s

  -- UpdateGroupPayload: conv_id, new_name and new_desc at 0, 4 and 36.
  unfoldable pub handle_update_group : Client → List ℕ → Server → Option Server
  handle_update_group cli p s = do
    conv ← u32_at p 0
    if storage_is_admin sys.sqlite conv cli.uid s.db
        then (do
          new_name ← text_at p 4
          new_desc ← text_at p 36
          let db' = (storage_update_group sys.sqlite conv new_name new_desc s.db).0
          some (notify_group_update conv 0 (record s { db = db' })))
        else some s

  unfoldable pub seat_member : Client → ℕ → Option ℕ → Server → Server
  seat_member cli conv none s = s
  seat_member cli conv (some target) s =
      let (db', added) = storage_add_participant sys.sqlite conv target 0 s.db in
      let s' = record s { db = db' } in
      if added then notify_group_update conv 0 (send cli member_added no_body s') else s'

  -- AddMemberPayload: conv_id and target_friend_code at 0 and 4.
  unfoldable pub handle_add_member : Client → List ℕ → Server → Option Server
  handle_add_member cli p s = do
    conv ← u32_at p 0
    if storage_is_admin sys.sqlite conv cli.uid s.db
        then (do
          code ← text_at p 4
          some (seat_member cli conv (storage_get_uid_by_code sys.sqlite code s.db) s))
        else some s

  -- ReqMembersPayload: conv_id at 0. MAX_MEMBERS is 50.
  unfoldable pub handle_req_members : Client → List ℕ → Server → Option Server
  handle_req_members cli p s = do
    conv ← u32_at p 0
    some (send cli resp_members (members (storage_get_group_members sys.sqlite conv 50 s.db)) s)

  -- KickMemberPayload: conv_id and target_uid at 0 and 4.
  unfoldable pub handle_kick_member : Client → List ℕ → Server → Option Server
  handle_kick_member cli p s = do
    conv ← u32_at p 0
    if storage_is_admin sys.sqlite conv cli.uid s.db
        then (do
          target ← u32_at p 4
          let db' = (storage_remove_participant sys.sqlite conv target s.db).0
          some (
              if target == cli.uid
              then s
              else send_online target (send_conversations sys target)
                  (notify_group_update conv 0 (record s { db = db' }))))
        else some s

  -- DeleteGroupPayload: conv_id at 0. The members are read before the rows go.
  unfoldable pub handle_delete_group : Client → List ℕ → Server → Option Server
  handle_delete_group cli p s = do
    conv ← u32_at p 0
    if storage_is_admin sys.sqlite conv cli.uid s.db
        then (let members = storage_get_conv_participants sys.sqlite conv max_participants s.db in
            some (
              refresh_all sys members
                (record s { db = storage_delete_conversation sys.sqlite conv s.db })))
        else some s
