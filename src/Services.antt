-- ===== src/Services.antt =====
-- src/relayer/src/services: what runs beside the HTTP server.
pub mod EventParser
pub mod MembershipSync
pub mod MembershipReplay
pub mod WalrusSync
pub mod WalrusUploads
pub mod WalrusTriggers
pub mod WalrusDelivery
pub mod WalrusBatches
pub mod WalrusProgress
pub mod WalrusFrame
pub mod WalrusTransitions
