-- ===== src/Boot.antt =====
-- The boot of the enclave: src/init/init.rs, src/system/src/lib.rs and src/aws/src/lib.rs.
pub mod Kernel
pub mod System
pub mod Nitro
pub mod Init
pub mod Reboot
pub mod Entropy
pub mod Mounts
