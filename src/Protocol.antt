-- ===== src/Protocol.antt =====
-- include/system/protocol.h: the message types and the payloads of the replies. The framing is in
-- Protocol/Wire.antt, the requests are read in Protocol/Request.antt.
pub mod Types
pub mod Wire
pub mod Request
pub mod Replies
pub mod Layout
