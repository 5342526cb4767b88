-- ===== src/Tests.antt =====
-- The theorems at concrete inputs.
mod Spool
mod Queue
mod Delivery
mod Events
mod Logger
mod Sorting
mod Session
mod Dedup
mod Config
mod Certificates
mod Parser
mod Users
mod Workers
mod Pipeline
