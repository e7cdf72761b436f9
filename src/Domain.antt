-- ===== src/Domain.antt =====
-- web/src/domain
pub mod Summaries
pub mod Formats
pub mod ToyFormats
pub mod Vault
pub mod Envelope
pub mod Tests
