-- ===== src/ClientApp/Services.antt =====
-- src/client/services: the packets that the client sends. A text is the C string that the service is
-- given; a value of type uint32_t or uint8_t is reduced to its width.
pub mod Meaning
pub mod Layouts
pub mod Calls
pub mod Agreement
use mo_t.Base.{
  ℕ, zero, suc, ◌+◌, ◌-◌, ◌*◌, ◌%◌, ◌^◌, Bool, true, false, Option, none, some, List, [], ◌∷◌, ◌++◌,
  Text, strncpy, length, take, ltb, ◌==◌, if◌then◌else◌,
}
use mo_t.Protocol.Types.{
  MessageType, register, login, update_user, req_contacts, get_requests, add_by_code,
  decide_request, create_conv, req_conversations, delete_group, req_members, kick_member, send_text,
  req_history,
}
use mo_t.Protocol.Layout.{le32, zeros, char_array, u32_array}

-- send_packet(app.ssl, kind, payload, …).
pub record Request : Type 0 where
  pub kind : MessageType
  pub payload : List ℕ

-- auth_service.c
unfoldable pub service_register : Text → Text → Text → Request
service_register email username password = record {
  kind = register;
  payload =
      char_array 64 (strncpy 63 email)
      ++ (char_array 32 (strncpy 31 username) ++ char_array 64 (strncpy 63 password));
}

unfoldable pub service_login : Text → Text → Request
service_login email password = record {
  kind = login;
  payload = char_array 64 (strncpy 63 email) ++ char_array 64 (strncpy 63 password);
}

unfoldable pub service_update_user : Text → Text → Request
service_update_user username password = record {
  kind = update_user;
  payload = char_array 32 (strncpy 31 username) ++ char_array 64 (strncpy 63 password);
}

-- chat_service.c. An empty text is not sent.
unfoldable pub service_send_text : ℕ → Text → Option Request
service_send_text conv text =
    if length text == 0
    then none
    else some
        (record { kind = send_text; payload = le32 conv ++ char_array 1024 (strncpy 1023 text) })

unfoldable pub service_req_history : ℕ → Request
service_req_history conv = record { kind = req_history; payload = le32 conv }

-- contact_service.c
unfoldable pub service_refresh_contacts : Request
service_refresh_contacts = record { kind = req_contacts; payload = [] }

unfoldable pub service_refresh_requests : Request
service_refresh_requests = record { kind = get_requests; payload = [] }

unfoldable pub service_add_contact : Text → Request
service_add_contact code = record { kind = add_by_code; payload = char_array 7 code }

unfoldable pub service_decide_request : ℕ → ℕ → Request
service_decide_request target accept = record {
  kind = decide_request;
  payload = le32 target ++ (accept % 256) ∷ [];
}

-- group_service.c. The user comes first, then uids until the array is full; the rest of it is 0.
unfoldable pub group_uids : ℕ → List ℕ → List ℕ
group_uids my_uid uids = my_uid ∷ take 9 uids

unfoldable pub create_payload : ℕ → Text → Text → List ℕ → List ℕ
create_payload kind name desc uids =
    (kind ∷ char_array 32 name)
    ++ (char_array 64 desc
        ++ (le32 (length uids) ++ (u32_array uids ++ zeros (40 - 4 * length uids))))

-- Without another member nothing is sent, and the result is 0.
unfoldable pub service_create_group : ℕ → Text → Text → List ℕ → Option Request
service_create_group my_uid name desc uids =
    if ltb (length uids) 1
    then none
    else some (record {
      kind = create_conv;
      payload = create_payload 1 (strncpy 31 name) (strncpy 63 desc) (group_uids my_uid uids);
    })

unfoldable pub service_create_private : ℕ → ℕ → Text → Request
service_create_private my_uid target_uid target_name = record {
  kind = create_conv;
  payload = create_payload 0 (strncpy 32 target_name) [] (my_uid ∷ target_uid ∷ []);
}

unfoldable pub service_req_conversations : Request
service_req_conversations = record { kind = req_conversations; payload = [] }

unfoldable pub service_delete_group : ℕ → Request
service_delete_group conv = record { kind = delete_group; payload = le32 conv }

unfoldable pub service_req_members : ℕ → Request
service_req_members conv = record { kind = req_members; payload = le32 conv }

unfoldable pub service_kick_member : ℕ → ℕ → Request
service_kick_member conv target = record { kind = kick_member; payload = le32 conv ++ le32 target }
