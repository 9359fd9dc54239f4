-- ===== src/Server.antt =====
-- server/: the program that the players connect to.
pub mod Json
pub mod SaveData
pub mod State
pub mod PlayerList
pub mod SharedSave
pub mod Greeting
pub mod Handlers
pub mod Service
pub mod Console
pub mod Tests
