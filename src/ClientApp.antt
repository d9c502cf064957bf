-- ===== src/ClientApp.antt =====
-- The client program, src/client.
pub mod Services
pub mod State
pub mod Network
pub mod Keys
pub mod Invariant
pub mod Typing
pub mod Removal
pub mod Session
pub mod Frozen
pub mod Delivery
pub mod Exchange
pub mod ChatScreen
pub mod ListScreens
