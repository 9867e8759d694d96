-- ===== src/Tests/Trie.antt =====
-- The trie of module/lpm_trie.h at small tries, and the access list over it.
use userspace_xdp.Prelude.{
  ◌≡◌, ◌≢◌, refl, arith, true, false, [], ◌∷◌, some, none, if◌then◌else◌, ◌==◌, Mem, get16, swab16,
}
use userspace_xdp.Runtime.LpmTrie.{
  Node, node, null, trie_node_put, trie_node_search, LpmMap, lpm_alloc_map,
}
use userspace_xdp.Runtime.LpmTrie.Search.{bits, value_at, IsLongest, trie_node_search-IsLongest}
use userspace_xdp.Runtime.LpmTrie.Put.{same_path, or_value, trie_node_put-value}
use userspace_xdp.Xdp.{World, drop}
use userspace_xdp.Programs.Acl.{xdp_standard_acl}
use userspace_xdp.Programs.Acl.Loader.{ipv4_rules_trie, ipv6_rules_trie, load_rules}
use userspace_xdp.Programs.Acl.Loaded.{load_rules_denies}

abbrev ten : Mem
ten i = 10

-- the value 5 for addresses that begin with the bit 0
abbrev half : Node
half = node (node null null 5 true) null 0 false

half-ne-null : half ≢ null
half-ne-null e = cc

trie_node_search-IsLongest_example :
    IsLongest (value_at half) (bits ten 0 32) none (trie_node_search half ten 4)
trie_node_search-IsLongest_example = trie_node_search-IsLongest half ten 4

trie_node_put-value_example : value_at (trie_node_put half ten 8 3) (false ∷ []) ≡ (
    if same_path (false ∷ []) (bits ten 0 8)
    then or_value (value_at half (false ∷ [])) 3
    else value_at half (false ∷ []))
trie_node_put-value_example =
    trie_node_put-value half ten 8 3 half-ne-null (omega arith) (false ∷ [])

-- a frame of type IPv4 from 0.10.10.10
abbrev ipv4_bytes : Mem
ipv4_bytes i = if i == 112 then 8 else if i == 113 then 0 else if i == 126 then 0 else 10

-- the rules: 10.10.10.10 is denied, 1.1.1.1 is permitted
abbrev rules : LpmMap
rules = load_rules ten 0 (lpm_alloc_map 20) (168430090 ∷ []) 16843009

abbrev frame : World LpmMap
frame = record { data_start = 100; data_end = 200; mem = ipv4_bytes; maps = rules }

ipv4_type : get16 ipv4_bytes 112 ≡ swab16 0x0800
unfolding get16 swab16
ipv4_type = refl

load_rules_denies_example :
    xdp_standard_acl (ipv4_rules_trie ten) (ipv6_rules_trie ten) frame ≡ some (drop, frame)
load_rules_denies_example =
    load_rules_denies ten ten 0 20 168430090 16843009 [] frame (omega arith) (omega arith) refl
      (omega arith) ipv4_type
