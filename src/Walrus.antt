-- ===== src/Walrus.antt =====
-- src/relayer/src/walrus: what the Walrus publisher answers.
pub mod Types
pub mod Client
pub mod Uploads
