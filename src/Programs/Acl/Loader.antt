-- ===== src/Programs/Acl/Loader.antt =====
-- xdp_progs/xdp-acl/load_standard_acl.c: the rules that the loader stores, in the LPM map of
-- module/maps.cpp. The runtime keeps one trie, which both of the program's LPM maps share.
use userspace_xdp.Prelude.{
  ℕ, ◌+◌, ◌*◌, ◌%◌, ◌==◌, Bool, true, false, not, Option, none, some, List, [], ◌∷◌, Mem, put32,
}
use userspace_xdp.Runtime.LpmTrie.{LpmMap, lpm_elem_lookup, lpm_elem_update}
use userspace_xdp.Programs.Acl.{Ipv4LpmKey, Ipv6LpmKey}

unfoldable pub gen_ipv4_key : ℕ → ℕ → Ipv4LpmKey
gen_ipv4_key prefixlen ip = record { prefixlen = prefixlen; address = ip }

-- the eight bytes of the key, before what is in memory behind it
unfoldable pub key_bytes : Mem → Ipv4LpmKey → Mem
key_bytes behind key = put32 (put32 behind 0 key.prefixlen) 4 key.address

-- the 20 bytes of the key
unfoldable pub key_bytes6 : Mem → Ipv6LpmKey → Mem
key_bytes6 behind key =
    let (a, b) = key.low in
    let (c, d) = key.high in
    put32 (put32 (put32 (put32 (put32 behind 0 key.prefixlen) 4 a) 8 b) 12 c) 16 d

-- The map reads an `int` where the `_Bool` is: `next` is what the three bytes behind it hold.
unfoldable pub bool_int : ℕ → Bool → ℕ
bool_int next true = 1 + 256 * next
bool_int next false = 256 * next

-- the `_Bool` in the first byte of the `int`
unfoldable pub int_bool : ℕ → Bool
int_bool v = not (v % 256 == 0)

unfoldable pub as_bool : Option ℕ → Option Bool
as_bool none = none
as_bool (some v) = some (int_bool v)

-- `bpf_map_lookup_elem` of a program on the runtime
unfoldable pub ipv4_rules_trie : Mem → LpmMap → Ipv4LpmKey → Option Bool
ipv4_rules_trie behind map key = as_bool (lpm_elem_lookup map (key_bytes behind key))

unfoldable pub ipv6_rules_trie : Mem → LpmMap → Ipv6LpmKey → Option Bool
ipv6_rules_trie behind map key = as_bool (lpm_elem_lookup map (key_bytes6 behind key))

module _ (behind : Mem) (next : ℕ) where
  unfoldable pub update_rule : LpmMap → ℕ → Bool → LpmMap
  update_rule map ip value =
      lpm_elem_update map (key_bytes behind (gen_ipv4_key 32 ip)) (bool_int next value)

  -- the loop over the addresses that are denied
  unfoldable pub deny_all : LpmMap → List ℕ → LpmMap
  deny_all map [] = map
  deny_all map (ip ∷ ips) = deny_all (update_rule map ip false) ips

  -- the rules of `main`: `denied` are the addresses of its table, `permitted` is 10.1.0.1
  unfoldable pub load_rules : LpmMap → List ℕ → ℕ → LpmMap
  load_rules map denied permitted = update_rule (deny_all map denied) permitted true
