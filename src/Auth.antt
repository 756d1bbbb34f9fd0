-- ===== src/Auth.antt =====
-- src/relayer/src/auth: who may do what. Signature schemes, permissions, the store of memberships, and
-- the middleware that every authenticated request passes.
pub mod Schemes
pub mod Permissions
pub mod Types
pub mod Crypto
pub mod Signature
pub mod Members
pub mod Assignment
pub mod Membership
pub mod Middleware
pub mod Timestamps
pub mod Names
pub mod Admission
pub mod Binding
pub mod Rejections
pub mod MethodReuse
pub mod View
