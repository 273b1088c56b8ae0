-- ===== src/Tests.antt =====
-- The theorems at concrete inputs, and the data they share.
mod Data
mod Disks
mod Platforms
mod Lanes
mod Acks
mod Namespaces
mod Others
mod Sessions
mod Configs
mod Builders
mod Servers
mod Tokens
mod Timers
mod Dispatchers
mod Transports
