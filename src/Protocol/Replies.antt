-- ===== src/Protocol/Replies.antt =====
-- The payloads that the server sends, as values: structs of include/system/protocol.h.
use mo_t.Base.{ℕ, List, Text}
use mo_t.Storage.Contacts.{ContactSummary}
use mo_t.Storage.Conversations.{ConversationSummary, GroupMemberSummary}
use mo_t.Protocol.Types.{MessageType}

pub record MyInfoPayload : Type 0 where
  pub uid : ℕ
  pub username : Text
  pub email : Text
  pub friend_code : Text

pub record RoutedMessagePayload : Type 0 where
  pub conv_id : ℕ
  pub sender_uid : ℕ
  pub sender_username : Text
  pub text : Text

pub data Body : Type 0 where
  no_body : Body
  my_info : MyInfoPayload → Body
  contacts : List ContactSummary → Body
  new_conv : ℕ → Body
  conversations : List ConversationSummary → Body
  members : List GroupMemberSummary → Body
  routed : RoutedMessagePayload → Body
  history : Text → Body

-- A call of `send_packet` with a handle that is not NULL.
pub record Packet : Type 0 where
  pub ssl : ℕ
  pub kind : MessageType
  pub body : Body
