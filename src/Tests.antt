-- ===== src/Tests.antt =====
-- The theorems at concrete inputs.
mod Fixtures
mod Store
mod Upstream
mod Gather
mod Adapter
mod Config
mod Logging
mod Sqlite
mod Contract
mod Signature
mod Content
mod Hash
mod Exchange
mod Agent
