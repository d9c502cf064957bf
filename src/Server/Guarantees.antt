-- ===== src/Server/Guarantees.antt =====
-- What the server of src/server keeps, message by message and over every run.
pub mod Calm
pub mod Answers
pub mod Identity
pub mod Database
pub mod Protection
pub mod Survival
