-- ===== src/Tests.antt =====
-- The theorems at concrete values.
mod Data
mod Receiver
mod Worker
mod Sms
mod Common
mod Pipeline
mod Scripts
mod App
