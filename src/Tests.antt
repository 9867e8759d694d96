-- ===== src/Tests.antt =====
-- The theorems at concrete inputs.
mod Maps
mod Table
mod Sums
mod Trie
mod Devices
mod Frames
mod Flows
mod Rings
mod Lists
mod Options
mod Socket
mod Ports
mod Replies
mod Lru
