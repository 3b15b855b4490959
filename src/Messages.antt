-- ===== src/Messages.antt =====
-- The frames that peers exchange: entries and requests.
pub mod Entry
pub mod Request
