-- ===== src/Crypto.antt =====
-- web/src/crypto
pub mod Errors
pub mod Json
pub mod Platform
pub mod Toy
pub mod Tests
pub mod Aead
pub mod KeyHierarchy
pub mod Recovery
pub mod Kdf
pub mod Lifecycle
pub mod Opaque
pub mod KdfWorker
pub mod IdleTimer
