-- ===== src/Adapter.antt =====
-- clients/cloudflare-do/src/adapter.mjs: the Durable Object that owns one FRAMLOG.
pub mod Requests
pub mod Storage
pub mod Memory
pub mod Arena
pub mod Chunks
pub mod HostImage
pub mod Store
pub mod Status
pub mod Inspect
pub mod Authorize
pub mod Instance
pub mod Clear
pub mod Backup
pub mod Object
