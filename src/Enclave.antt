-- ===== src/Enclave.antt =====
-- src/relayer/src/enclave.rs: the log buffer and the signed responses of the enclave.
pub mod LogBuffer
pub mod Signing
pub mod Attestation
pub mod Logs
pub mod LogLayer
pub mod Shown
