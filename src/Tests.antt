-- ===== src/Tests.antt =====
-- The theorems at concrete inputs, in a world of concrete libraries.
mod World
mod Foundations
mod Wires
mod Runs
mod Survives
mod Records
mod Configs
mod Screens
mod Exchanges
mod Drawings
