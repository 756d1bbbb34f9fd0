-- ===== src/Handlers.antt =====
-- src/relayer/src/handlers: the HTTP handlers.
pub mod Error
pub mod Request
pub mod Response
pub mod Contents
pub mod Messages
pub mod Decoding
pub mod Binding
pub mod Delivery
pub mod Outcomes
pub mod Server
pub mod Routes
pub mod Admittance
pub mod Ownership
pub mod Confidentiality
pub mod Serving
pub mod Validity
pub mod Authorship
