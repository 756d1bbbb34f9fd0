-- ===== src/Models.antt =====
-- src/relayer/src/models: the data that the relayer stores.
pub mod Message
pub mod Membership
