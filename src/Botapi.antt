-- ===== src/Botapi.antt =====
-- internal/botapi: the Bot API plane.
pub mod Value
pub mod Typing
pub mod Session
pub mod Proxy
pub mod Poller
pub mod Routes
pub mod Manager
