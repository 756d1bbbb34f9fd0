-- ===== src/Tests.antt =====
-- Concrete runs of the definitions and the theorems.
mod Store
mod Access
mod Api
mod Sync
mod Logs
mod Server
mod Walrus
mod Config
mod Routes
mod Boot
mod Binding
mod Relayer
