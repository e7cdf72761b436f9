-- ===== src/Api.antt =====
-- web/src/api
pub mod Client
