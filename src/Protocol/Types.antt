-- ===== src/Protocol/Types.antt =====
-- MessageType of include/system/protocol.h.
use mo_t.Base.{
  ℕ, ◌≡◌, refl, ◌↔◌, ◌==◌, Option, none, some, List, [], ◌∷◌, if◌then◌else◌, All, arith,
}

pub data MessageType : Type 0 where
  register register_success register_fail login login_success login_fail : MessageType
  update_user update_success update_fail : MessageType
  req_contacts resp_contacts add_by_code add_req_sent add_success add_fail : MessageType
  get_requests resp_requests decide_request : MessageType
  create_conv conv_created req_conversations resp_conversations : MessageType
  update_group add_member member_added req_members resp_members kick_member : MessageType
  delete_group : MessageType
  send_text rte_text req_history resp_history : MessageType
  disconnect : MessageType

-- The values of the C enumeration.
unfoldable pub type_code : MessageType → ℕ
type_code register = 1
type_code register_success = 2
type_code register_fail = 3
type_code login = 4
type_code login_success = 5
type_code login_fail = 6
type_code update_user = 7
type_code update_success = 8
type_code update_fail = 9
type_code req_contacts = 10
type_code resp_contacts = 11
type_code add_by_code = 12
type_code add_req_sent = 13
type_code add_success = 14
type_code add_fail = 15
type_code get_requests = 16
type_code resp_requests = 17
type_code decide_request = 18
type_code create_conv = 19
type_code conv_created = 20
type_code req_conversations = 21
type_code resp_conversations = 22
type_code update_group = 23
type_code add_member = 24
type_code member_added = 25
type_code req_members = 26
type_code resp_members = 27
type_code kick_member = 28
type_code delete_group = 29
type_code send_text = 30
type_code rte_text = 31
type_code req_history = 32
type_code resp_history = 33
type_code disconnect = 34

-- The labels that a switch over a type of the wire compares with, as numbers: recv_packet casts the
-- number to the enumeration.
abbrev labels : List (ℕ × MessageType)
labels =
    (1, register)
    ∷ (2, register_success)
    ∷ (3, register_fail)
    ∷ (4, login)
    ∷ (5, login_success)
    ∷ (6, login_fail)
    ∷ (7, update_user)
    ∷ (8, update_success)
    ∷ (9, update_fail)
    ∷ (10, req_contacts)
    ∷ (11, resp_contacts)
    ∷ (12, add_by_code)
    ∷ (13, add_req_sent)
    ∷ (14, add_success)
    ∷ (15, add_fail)
    ∷ (16, get_requests)
    ∷ (17, resp_requests)
    ∷ (18, decide_request)
    ∷ (19, create_conv)
    ∷ (20, conv_created)
    ∷ (21, req_conversations)
    ∷ (22, resp_conversations)
    ∷ (23, update_group)
    ∷ (24, add_member)
    ∷ (25, member_added)
    ∷ (26, req_members)
    ∷ (27, resp_members)
    ∷ (28, kick_member)
    ∷ (29, delete_group)
    ∷ (30, send_text)
    ∷ (31, rte_text)
    ∷ (32, req_history)
    ∷ (33, resp_history)
    ∷ (34, disconnect)
    ∷ []

find_label : ℕ → List (ℕ × MessageType) → Option MessageType
find_label n [] = none
find_label n (label ∷ rest) = if label.0 == n then some label.1 else find_label n rest

-- The label that a number reaches.
pub message_type : ℕ → Option MessageType
unfolding find_label
message_type n = find_label n labels

find_label-type_code :
    (n : ℕ) (rest : List (ℕ × MessageType)) (t : MessageType)
    → All (λ label. type_code label.1 ≡ label.0) rest
    → find_label n rest ≡ some t
    → type_code t ≡ n
unfolding find_label
find_label-type_code n [] t all h = cc
find_label-type_code n (label ∷ rest) t all h =
    ground (arith, all.0, find_label-type_code n rest t all.1)

labels-type_code : All (λ label. type_code label.1 ≡ label.0) labels
unfolding type_code
labels-type_code = ground arith

-- Each type is found under its own number.
pub message_type-type_code : (t : MessageType) → message_type (type_code t) ≡ some t
unfolding message_type type_code
message_type-type_code register = refl
message_type-type_code _ = refl

pub message_type_iff : (n : ℕ) (t : MessageType) → (message_type n ≡ some t) ↔ (type_code t ≡ n)
unfolding message_type
message_type_iff n t =
    (find_label-type_code n labels t labels-type_code, λ e. rw (← e) (message_type-type_code t))
