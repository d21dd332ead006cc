-- ===== src/Common.antt =====
-- libs/common: constants, data models, decryption and validation.
pub mod Config
pub mod Models
pub mod Library
pub mod Crypto
pub mod Strip
pub mod Phone
pub mod Validation
pub mod Logging
