-- ===== src/Storage.antt =====
-- src/server/storage.c: the schema, its SQL statements and the functions that run them.
pub mod Tables
pub mod Statements
pub mod Engine
pub mod LibC
pub mod Users
pub mod Contacts
pub mod Conversations
pub mod Messages
pub mod Path
