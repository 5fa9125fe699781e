-- ===== src/Tests.antt =====
-- The theorems at concrete inputs.
mod Data
mod Streams
mod Engine
mod Registry
mod Exports
mod Stores
mod Workers
mod Requests
