-- ===== src/Tests.antt =====
-- The theorems at concrete inputs, file by file.
mod Event
mod Hash
mod Ring
mod Lock
mod Kv
mod Space
mod Combine
mod Collect
mod Regions
mod Replay
mod Session
mod Transaction
mod Restart
mod Loop
mod Requests
mod Alloc
