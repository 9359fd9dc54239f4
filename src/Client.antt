-- ===== src/Client.antt =====
-- src/pe/: the mod that runs in the game, as far as it talks to the server.
pub mod SharedSave
pub mod Progress
pub mod NetClient
pub mod Players
pub mod MapEvents
pub mod Disaster
pub mod Hooks
pub mod World
pub mod MapObj
pub mod Menu
pub mod StatusText
pub mod Directories
pub mod PatanPanel
pub mod Tests
