-- ===== src/Stores.antt =====
-- web/src/stores
pub mod SessionKeys
pub mod Auth
pub mod Tests
