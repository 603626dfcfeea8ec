-- ===== src/Examples.antt =====
-- The theorems at concrete inputs.
mod Protocols
mod Parts
mod Stores
mod Commands
mod Servers
mod SkipLists
