-- ===== src/Runtime/LpmTrie.antt =====
-- module/lpm_trie.h: a binary trie of address bits, and the LPM map of module/maps.cpp over it.
-- The nodes form a tree that nothing else points into, so a pointer is the subtree that it points
-- to, and `null` is the null pointer. `_node_malloc` always returns a node, or the process exits.
pub mod Search
pub mod Put
pub mod Rules
use userspace_xdp.Prelude.{
  ℕ, zero, suc, ◌+◌, ◌-◌, ◌*◌, ◌/◌, ◌%◌, ◌^◌, Bool, true, false, Option, none, some, ◌==◌,
  if◌then◌else◌, Mem,
}

-- `node_t`: `as` is loaded if `as_in` is set. (`as` is a word of the language, so `asn` here.)
pub data Node : Type 0 where
  null : Node
  node : (l r : Node) (asn : ℕ) (as_in : Bool) → Node

-- what `_node_malloc` returns; its `as` is not initialised, and is not read while `as_in` is 0
abbrev pub node_malloc : Node
node_malloc = node null null 0 false

-- ((ip[i / 8] >> (7 - i % 8)) & 1) > 0
unfoldable pub bit : Mem → ℕ → Bool
bit ip i = ip (i / 8) / 2 ^ (7 - i % 8) % 2 == 1

-- if (p == NULL) p = _node_malloc(t)
unfoldable pub ensure : Node → Node
ensure null = node_malloc
ensure (node l r asn as_in) = node l r asn as_in

-- A value that is there already stays (the code prints a message if it is another one).
unfoldable pub set_value : ℕ → Node → Node
set_value v null = null
set_value v (node l r asn true) = node l r asn true
set_value v (node l r asn false) = node l r v true

-- the loop of `trie_node_put` from bit `i` on, with the bits left
unfoldable pub put_from : Mem → ℕ → ℕ → ℕ → Node → Node
put_from ip v i zero current = current
put_from ip v i (suc rest) null = null
put_from ip v i (suc rest) (node l r asn as_in) =
    let next = ensure (if bit ip i then r else l) in
    let done = put_from ip v (i + 1) rest (if rest == 0 then set_value v next else next) in
    if bit ip i then node l done asn as_in else node done r asn as_in

-- the trie is its root
unfoldable pub trie_init : Node
trie_init = node_malloc

unfoldable pub trie_node_put : Node → Mem → ℕ → ℕ → Node
unfolding put_from ensure set_value
trie_node_put root ip cidr v = put_from ip v 0 cidr root

-- The two loops of `trie_node_search` as one over the bits: bit u of byte i is bit 8 * i + 7 - u of
-- the address. `found` is the value last stored in `*as`, if any.
unfoldable pub search_from : Mem → ℕ → ℕ → Node → Option ℕ → Option ℕ
search_from ip i zero current found = found
search_from ip i (suc rest) null found = found
search_from ip i (suc rest) (node l r asn as_in) found = elim (if bit ip i then r else l) [
  | null ↦ found
  | node l' r' asn' as_in' ↦
      search_from ip (i + 1) rest (node l' r' asn' as_in') (if as_in' then some asn' else found)
]

-- `ln` is in bytes
unfoldable pub trie_node_search : Node → Mem → ℕ → Option ℕ
unfolding search_from
trie_node_search root ip ln = search_from ip 0 (8 * ln) root none

-- The LPM map's state: the one trie and the attributes' key size, in bytes.
pub record LpmMap : Type 0 where
  pub trie : Node
  pub key_size : ℕ

unfoldable pub lpm_alloc_map : ℕ → LpmMap
unfolding trie_init
lpm_alloc_map key_size = record { trie = trie_init; key_size = key_size }

unfoldable pub lpm_elem_lookup : LpmMap → Mem → Option ℕ
lpm_elem_lookup map key = trie_node_search map.trie key (map.key_size % 256)

unfoldable pub lpm_elem_update : LpmMap → Mem → ℕ → LpmMap
lpm_elem_update map key value = record map {
  trie = trie_node_put map.trie key (map.key_size % 256) value;
}

-- There is no delete: the call fails.
unfoldable pub lpm_elem_delete : LpmMap → Mem → LpmMap × Bool
lpm_elem_delete map key = (map, false)
