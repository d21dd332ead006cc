-- ===== src/Scripts.antt =====
-- scripts: what runs against a deployed receiver.
pub mod LoadPayloads
