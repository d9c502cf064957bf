-- ===== src/ClientApp/Services/Calls.antt =====
-- The calls of src/client/services: the packet of a call, and what the arrays of a packet leave of it.
use mo_t.Base.{ℕ, ◌%◌, ◌^◌, ◌<◌, Option, some, IsText, All, take}
use mo_t.ClientApp.Services.{
  Request, service_register, service_login, service_update_user, service_send_text,
  service_req_history, service_add_contact, service_decide_request, service_create_group,
  service_create_private, service_delete_group, service_req_members, service_kick_member,
}
use mo_t.ClientApp.Services.Meaning.{
  Call, registers, logs_in, updates, sends, reads_history, adds_contact, decides, creates_group,
  creates_private, deletes, lists_members, kicks,
}

-- The packet of a call, if the service sends one.
abbrev pub request_of : ℕ → Call → Option Request
request_of my_uid (registers email username password) =
    some (service_register email username password)
request_of my_uid (logs_in email password) = some (service_login email password)
request_of my_uid (updates username password) = some (service_update_user username password)
request_of my_uid (sends conv text) = service_send_text conv text
request_of my_uid (reads_history conv) = some (service_req_history conv)
request_of my_uid (adds_contact code) = some (service_add_contact code)
request_of my_uid (decides target accept) = some (service_decide_request target accept)
request_of my_uid (creates_group name desc uids) = service_create_group my_uid name desc uids
request_of my_uid (creates_private target name) = some (service_create_private my_uid target name)
request_of my_uid (deletes conv) = some (service_delete_group conv)
request_of my_uid (lists_members conv) = some (service_req_members conv)
request_of my_uid (kicks conv target) = some (service_kick_member conv target)

-- The call with the texts as the packed arrays hold them.
abbrev pub clipped : Call → Call
clipped (registers email username password) =
    registers (take 63 email) (take 31 username) (take 63 password)
clipped (logs_in email password) = logs_in (take 63 email) (take 63 password)
clipped (updates username password) = updates (take 31 username) (take 63 password)
clipped (sends conv text) = sends conv (take 1023 text)
clipped (adds_contact code) = adds_contact (take 7 code)
clipped (decides target accept) = decides target (accept % 256)
clipped (creates_group name desc uids) = creates_group (take 31 name) (take 63 desc) uids
clipped (creates_private target name) = creates_private target (take 32 name)
clipped call = call

-- The texts are C strings and the ids have 32 bits.
abbrev pub IsCall : ℕ → Call → Type 0
IsCall my_uid (registers email username password) = IsText email × IsText username × IsText password
IsCall my_uid (logs_in email password) = IsText email × IsText password
IsCall my_uid (updates username password) = IsText username × IsText password
IsCall my_uid (sends conv text) = (conv < 2 ^ 32) × IsText text
IsCall my_uid (reads_history conv) = conv < 2 ^ 32
IsCall my_uid (adds_contact code) = IsText code
IsCall my_uid (decides target accept) = target < 2 ^ 32
IsCall my_uid (creates_group name desc uids) =
    IsText name × IsText desc × (my_uid < 2 ^ 32) × All (λ n. n < 2 ^ 32) uids
IsCall my_uid (creates_private target name) = IsText name × (my_uid < 2 ^ 32) × (target < 2 ^ 32)
IsCall my_uid (deletes conv) = conv < 2 ^ 32
IsCall my_uid (lists_members conv) = conv < 2 ^ 32
IsCall my_uid (kicks conv target) = (conv < 2 ^ 32) × (target < 2 ^ 32)
