-- ===== src/Extension.antt =====
-- The extension host's side: src/extension.
pub mod LineListener
pub mod LocalServer
pub mod ServerCommands
pub mod Settings
pub mod StatusBar
pub mod DocumentAdapter
pub mod Session
