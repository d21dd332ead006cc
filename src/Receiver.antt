-- ===== src/Receiver.antt =====
-- apps/receiver: the HTTP layer that takes webhooks in.
pub mod Db
pub mod Publisher
pub mod Routes
pub mod App
pub mod Middleware
pub mod Health
