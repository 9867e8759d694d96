-- ===== src/Runtime.antt =====
-- The runtime's helpers and maps: module/helpers.c, module/lpm_trie.h, module/maps.cpp.
pub mod Csum
pub mod LpmTrie
pub mod DevMap
pub mod LruMap
