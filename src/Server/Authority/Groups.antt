-- ===== src/Server/Authority/Groups.antt =====
-- src/server/handlers/group_handler.c issues permitted statements only.
use mo_t.Base.{
  ℕ, refl, Bool, Option, none, some, List, Text, ◌==◌, if_both, if_cases, Holds, Holds-bind, arith,
}
use mo_t.Storage.Tables.{Db}
use mo_t.Storage.Path.{here}
use mo_t.Storage.Path.Operations.{
  create_conversation-DbPath, update_group-DbPath, add_participant-DbPath,
  remove_participant-DbPath, delete_conversation-DbPath,
}
use mo_t.Storage.Users.{storage_get_uid_by_code}
use mo_t.Storage.Conversations.{storage_is_admin, storage_add_participant}
use mo_t.Clients.{Client}
use mo_t.Protocol.Request.{u8_at, u32_at, text_at}
use mo_t.Server.State.{System, Server, send_conversations}
use mo_t.Server.State.Frame.{
  SendsOnly, SendsOnly-trans, send-SendsOnly, send_online-SendsOnly, send_conversations-SendsOnly,
  refresh_all-SendsOnly,
}
use mo_t.Server.Groups.{
  notify_group_update, find_or_create, claimed_uids, seat_member, handle_create_conv,
  handle_update_group, handle_add_member, handle_req_members, handle_kick_member,
  handle_delete_group,
}
use mo_t.Server.Authority.{Admin, Permitted, IsPermitted, SendsOnly-IsPermitted}

pub notify_group_update-SendsOnly :
    (sys : System) (conv exclude_uid : ℕ) (s : Server)
    → SendsOnly s (notify_group_update sys conv exclude_uid s)
unfolding notify_group_update
notify_group_update-SendsOnly sys conv exclude_uid s = refresh_all-SendsOnly sys _ s

module _ (sys : System) (s : Server) (cli : Client) where
  abbrev Good : Option Server → Type 0
  Good = Holds (IsPermitted sys s cli)

  find_or_create-IsPermitted :
      (kind : ℕ) (name desc : Text) (uids : List ℕ)
      → IsPermitted sys s cli (record s { db = (find_or_create sys kind name desc uids s.db).0 })
  unfolding find_or_create
  find_or_create-IsPermitted kind name desc uids =
      if_both (λ (r : Db × ℕ × Bool). IsPermitted sys s cli (record s { db = r.0 })) _ _ _
        (create_conversation-DbPath sys.sqlite (Permitted sys s cli) kind name desc uids s.db tt
          (λ conv uid role later. later))
        here

  pub handle_create_conv-IsPermitted : (p : List ℕ) → Good (handle_create_conv sys cli p s)
  unfolding handle_create_conv
  handle_create_conv-IsPermitted p = Holds-bind (IsPermitted sys s cli) (u8_at p 0) _ λ kind _.
      Holds-bind (IsPermitted sys s cli) (u32_at p 97) _ λ count _.
        Holds-bind (IsPermitted sys s cli) (claimed_uids sys count p) _ λ uids _.
          Holds-bind (IsPermitted sys s cli) (text_at p 1) _ λ name _.
            Holds-bind (IsPermitted sys s cli) (text_at p 33) _ λ desc _.
              let told =
                SendsOnly-IsPermitted sys s cli (find_or_create-IsPermitted kind name desc uids)
                  (send-SendsOnly cli _ _ _) in
              if_both (IsPermitted sys s cli) _ _ _
                (SendsOnly-IsPermitted sys s cli told (refresh_all-SendsOnly sys _ _)) told

  pub handle_update_group-IsPermitted : (p : List ℕ) → Good (handle_update_group sys cli p s)
  unfolding handle_update_group
  handle_update_group-IsPermitted p = Holds-bind (IsPermitted sys s cli) (u32_at p 0) _ λ conv _.
      if_cases Good (storage_is_admin sys.sqlite conv cli.uid s.db) _ (some s)
        (λ admin. Holds-bind (IsPermitted sys s cli) (text_at p 4) _ λ name _.
          Holds-bind (IsPermitted sys s cli) (text_at p 36) _ λ desc _.
            SendsOnly-IsPermitted sys s cli
              (update_group-DbPath sys.sqlite (Permitted sys s cli) conv name desc s.db admin)
              (notify_group_update-SendsOnly sys conv 0 _))
        (λ e. here)

  seat_member-IsPermitted :
      (conv : ℕ) (target : Option ℕ)
      → Admin sys s cli conv
      → IsPermitted sys s cli (seat_member sys cli conv target s)
  unfolding seat_member
  seat_member-IsPermitted conv none admin = here
  seat_member-IsPermitted conv (some target) admin =
      let seated =
        add_participant-DbPath sys.sqlite (Permitted sys s cli) conv target 0 s.db (admin, refl) in
      if_both (IsPermitted sys s cli) (storage_add_participant sys.sqlite conv target 0 s.db).1 _ _
        (SendsOnly-IsPermitted sys s cli seated
          (SendsOnly-trans (send-SendsOnly cli _ _ _) (notify_group_update-SendsOnly sys conv 0 _)))
        seated

  pub handle_add_member-IsPermitted : (p : List ℕ) → Good (handle_add_member sys cli p s)
  unfolding handle_add_member
  handle_add_member-IsPermitted p = Holds-bind (IsPermitted sys s cli) (u32_at p 0) _ λ conv _.
      if_cases Good (storage_is_admin sys.sqlite conv cli.uid s.db) _ (some s)
        (λ admin. Holds-bind (IsPermitted sys s cli) (text_at p 4) _ λ code _.
          seat_member-IsPermitted conv (storage_get_uid_by_code sys.sqlite code s.db) admin)
        (λ e. here)

  pub handle_req_members-IsPermitted : (p : List ℕ) → Good (handle_req_members sys cli p s)
  unfolding handle_req_members
  handle_req_members-IsPermitted p =
      Holds-bind (IsPermitted sys s cli) (u32_at p 0) _
        λ conv _. SendsOnly-IsPermitted sys s cli here (send-SendsOnly cli _ _ s)

  pub handle_kick_member-IsPermitted : (p : List ℕ) → Good (handle_kick_member sys cli p s)
  unfolding handle_kick_member
  handle_kick_member-IsPermitted p = Holds-bind (IsPermitted sys s cli) (u32_at p 0) _ λ conv _.
      if_cases Good (storage_is_admin sys.sqlite conv cli.uid s.db) _ (some s)
        (λ admin. Holds-bind (IsPermitted sys s cli) (u32_at p 4) _ λ target _.
          if_cases (IsPermitted sys s cli) (target == cli.uid) s _ (λ e. here)
            λ other.
              SendsOnly-IsPermitted sys s cli
                (remove_participant-DbPath sys.sqlite (Permitted sys s cli) conv target s.db
                  (admin, ground arith))
                (SendsOnly-trans (notify_group_update-SendsOnly sys conv 0 _) (
                  send_online-SendsOnly (send_conversations sys target) _
                    (λ c. send_conversations-SendsOnly sys target c _) target)))
        (λ e. here)

  pub handle_delete_group-IsPermitted : (p : List ℕ) → Good (handle_delete_group sys cli p s)
  unfolding handle_delete_group
  handle_delete_group-IsPermitted p = Holds-bind (IsPermitted sys s cli) (u32_at p 0) _ λ conv _.
      if_cases Good (storage_is_admin sys.sqlite conv cli.uid s.db) _ (some s)
        (λ admin.
          SendsOnly-IsPermitted sys s cli
            (delete_conversation-DbPath sys.sqlite (Permitted sys s cli) conv s.db admin admin
              admin)
            (refresh_all-SendsOnly sys _ _))
        (λ e. here)
