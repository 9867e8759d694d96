-- ===== src/Programs/Acl/Loaded.antt =====
-- What the access list does with the rules of its loader on the LPM map of the runtime.
use userspace_xdp.Prelude.{
  ℕ, zero, suc, ◌+◌, ◌*◌, ◌/◌, ◌%◌, ◌^◌, ◌-◌, ◌<◌, ◌≤◌, ◌≡◌, ◌≢◌, refl, sym, ap, subst, ◌∙◌, arith,
  Bool, true, false, Option, none, some, ltb, ◌==◌, if◌then◌else◌, swab16, List, [], ◌∷◌, Mem,
  get16, get32, put16, put32,
}
use userspace_xdp.Xdp.{World, drop, pure}
use userspace_xdp.Xdp.Steps.{bind_step, load16_step, load32_step}
use userspace_xdp.Runtime.LpmTrie.{
  Node, null, bit, trie_init, LpmMap, lpm_alloc_map, lpm_elem_lookup, lpm_elem_update,
  trie_node_put, trie_node_search,
}
use userspace_xdp.Runtime.LpmTrie.Search.{bits, value_at, trie_node_search-IsLongest}
use userspace_xdp.Runtime.LpmTrie.Put.{same_path, or_value, trie_node_put-value}
use userspace_xdp.Runtime.LpmTrie.Rules.{
  same_path_refl, length-bits, take-bits, value_at-init, init-ne-null, only,
}
use userspace_xdp.Programs.Acl.{decide, find, check_ipv4, xdp_standard_acl}
use userspace_xdp.Programs.Acl.Loader.{
  gen_ipv4_key, key_bytes, bool_int, int_bool, as_bool, ipv4_rules_trie, ipv6_rules_trie,
  update_rule, deny_all, load_rules,
}

bits_congr :
    (m m' : Mem) (i n : ℕ) → ((j : ℕ) → j < i + n → bit m j ≡ bit m' j) → bits m i n ≡ bits m' i n
unfolding bits
bits_congr m m' i zero h = refl
bits_congr m m' i (suc n) h =
    rw (h i (omega arith), bits_congr m m' (i + 1) n (λ j l. h j (omega (arith, l)))) refl

-- the first four bytes of a key are those of its prefix length
key_bytes_low :
    (behind behind' : Mem) (ip ip' i : ℕ)
    → i < 4
    → key_bytes behind (gen_ipv4_key 32 ip) i ≡ key_bytes behind' (gen_ipv4_key 32 ip') i
unfolding key_bytes gen_ipv4_key put32 put16
key_bytes_low behind behind' ip ip' i l = ground (arith, l)

bit-key_bytes :
    (behind behind' : Mem) (ip ip' j : ℕ)
    → j < 32
    → bit (key_bytes behind (gen_ipv4_key 32 ip)) j
      ≡ bit (key_bytes behind' (gen_ipv4_key 32 ip')) j
unfolding bit
bit-key_bytes behind behind' ip ip' j l =
    ap (λ x. x / 2 ^ (7 - j % 8) % 2 == 1)
      (key_bytes_low behind behind' ip ip' (j / 8) (omega (arith, l)))

-- the bits that the map takes from a key of prefix length 32
abbrev path : ℕ → List Bool
path n = bits (key_bytes (λ _. 0) (gen_ipv4_key 32 0)) 0 n

bits-key_bytes :
    (behind : Mem) (ip n : ℕ) → n ≤ 32 → bits (key_bytes behind (gen_ipv4_key 32 ip)) 0 n ≡ path n
bits-key_bytes behind ip n h =
    bits_congr _ _ 0 n (λ j l. bit-key_bytes behind (λ _. 0) ip 0 j (omega (arith, l, h)))

-- `v` is the trie's only value, and it is that of the path
abbrev IsOnly : ℕ → ℕ → Node → Type 0
IsOnly n v t = (p : List Bool) → value_at t p ≡ (if same_path p (path n) then some v else none)

IsOnly-ne-null : (n v : ℕ) (t : Node) → IsOnly n v t → t ≢ null
unfolding value_at
IsOnly-ne-null n v t h e =
    let found : value_at t (path n) ≡ some v = h (path n) ∙ rw (same_path_refl (path n)) refl in
    let nothing : value_at t (path n) ≡ none = ap (λ x. value_at x (path n)) e in cc

put_first :
    (behind : Mem) (ip n v : ℕ)
    → 0 < n
    → n ≤ 32
    → IsOnly n v (trie_node_put trie_init (key_bytes behind (gen_ipv4_key 32 ip)) n v)
put_first behind ip n v l u p =
    trie_node_put-value trie_init _ n v init-ne-null l p
    ∙ rw (value_at-init p, bits-key_bytes behind ip n u) refl

or_value_kept :
    (c : Bool) (o : Option ℕ) (v v' : ℕ)
    → o ≡ (if c then some v else none)
    → (if c then or_value o v' else o) ≡ (if c then some v else none)
or_value_kept true o v v' h = rw h refl
or_value_kept false o v v' h = h

put_again :
    (behind : Mem) (ip n v v' : ℕ) (t : Node)
    → 0 < n
    → n ≤ 32
    → IsOnly n v t
    → IsOnly n v (trie_node_put t (key_bytes behind (gen_ipv4_key 32 ip)) n v')
put_again behind ip n v v' t l u h p =
    trie_node_put-value t _ n v' (IsOnly-ne-null n v t h) l p
    ∙ rw (bits-key_bytes behind ip n u)
        (or_value_kept (same_path p (path n)) (value_at t p) v v' (h p))

lookup_only :
    (behind : Mem) (ip n v : ℕ) (t : Node)
    → 0 < n
    → n ≤ 32
    → IsOnly n v t
    → trie_node_search t (key_bytes behind (gen_ipv4_key 32 ip)) n ≡ some v
lookup_only behind ip n v t l u h =
    let key = key_bytes behind (gen_ipv4_key 32 ip) in
    only (value_at t) (bits key 0 (8 * n)) n v _ l (rw length-bits (omega arith))
      (rw (take-bits key 0 n (8 * n) (omega arith), bits-key_bytes behind ip n u, h, same_path_refl)
        refl)
      (λ q w e. ground (arith, h q, e)) (trie_node_search-IsLongest t key n)

-- the map after an update: the key size, and the trie's only value
abbrev Loaded : ℕ → ℕ → LpmMap → Type 0
Loaded n v map = (map.key_size ≡ n) × IsOnly n v map.trie

update_rule-Loaded :
    (behind : Mem) (next n v ip : ℕ) (b : Bool) (map : LpmMap)
    → 0 < n
    → n ≤ 32
    → Loaded n v map
    → Loaded n v (update_rule behind next map ip b)
unfolding update_rule lpm_elem_update
update_rule-Loaded behind next n v ip b map l u (k, h) =
    let size : map.key_size % 256 ≡ n = omega (arith, k, u) in
    (k, rw size (put_again behind ip n v (bool_int next b) map.trie l u h))

deny_all-Loaded :
    (behind : Mem) (next n v : ℕ) (ips : List ℕ) (map : LpmMap)
    → 0 < n
    → n ≤ 32
    → Loaded n v map
    → Loaded n v (deny_all behind next map ips)
unfolding deny_all
deny_all-Loaded behind next n v [] map l u h = h
deny_all-Loaded behind next n v (ip ∷ ips) map l u h =
    deny_all-Loaded behind next n v ips (update_rule behind next map ip false) l u
      (update_rule-Loaded behind next n v ip false map l u h)

first_rule-Loaded :
    (behind : Mem) (next n ip : ℕ)
    → 0 < n
    → n ≤ 32
    → Loaded n (bool_int next false) (update_rule behind next (lpm_alloc_map n) ip false)
unfolding update_rule lpm_elem_update lpm_alloc_map
first_rule-Loaded behind next n ip l u =
    let size : n % 256 ≡ n = omega (arith, u) in
    (refl, rw size (put_first behind ip n (bool_int next false) l u))

load_rules-Loaded :
    (behind : Mem) (next n ip permitted : ℕ) (ips : List ℕ)
    → 0 < n
    → n ≤ 32
    → Loaded n (bool_int next false) (load_rules behind next (lpm_alloc_map n) (ip ∷ ips) permitted)
unfolding load_rules deny_all lpm_alloc_map
load_rules-Loaded behind next n ip permitted ips l u =
    update_rule-Loaded behind next n _ permitted true _ l u
      (deny_all-Loaded behind next n _ ips _ l u (first_rule-Loaded behind next n ip l u))

rule_denied :
    (behind : Mem) (next n ip : ℕ) (map : LpmMap)
    → 0 < n
    → n ≤ 32
    → Loaded n (bool_int next false) map
    → ipv4_rules_trie behind map (gen_ipv4_key 32 ip) ≡ some false
unfolding ipv4_rules_trie lpm_elem_lookup as_bool int_bool bool_int
rule_denied behind next n ip map l u (k, h) =
    let size : map.key_size % 256 ≡ n = omega (arith, k, u) in
    let zero_byte : (256 * next) % 256 == 0 ≡ true = ground arith in
    rw (size, lookup_only behind ip n (256 * next) map.trie l u h, zero_byte) refl

-- The rules of the loader, one address at least that is denied and then one that is permitted, deny every
-- address if the map's key size is 1 to 32 bytes: a frame of type IPv4 with room for its header is dropped.
pub load_rules_denies :
    (behind behind' : Mem) (next n ip permitted : ℕ) (ips : List ℕ) (w : World LpmMap)
    → 0 < n
    → n ≤ 32
    → w.maps ≡ load_rules behind next (lpm_alloc_map n) (ip ∷ ips) permitted
    → w.data_start + 34 ≤ w.data_end
    → get16 w.mem (w.data_start + 12) ≡ swab16 0x0800
    → xdp_standard_acl (ipv4_rules_trie behind') (ipv6_rules_trie behind') w ≡ some (drop, w)
unfolding xdp_standard_acl check_ipv4 find decide pure gen_ipv4_key
load_rules_denies behind behind' next n ip permitted ips w l u m h t =
    let d = w.data_start in
    let src = get32 w.mem (d + 14 + 12) in
    let long : ltb w.data_end (d + 14) ≡ false = ground (arith, h) in
    let long' : ltb w.data_end (d + 14 + 20) ≡ false = ground (arith, h) in
    let ipv4 : (get16 w.mem (d + 12) == swab16 0x0800) ≡ true = ground (arith, t) in
    let rules =
      subst (λ x. Loaded n (bool_int next false) x) (sym m)
        (load_rules-Loaded behind next n ip permitted ips l u) in
    let denied = rule_denied behind' next n src w.maps l u rules in
    rw long (
      bind_step _ _ (load16_step _ _ (omega arith) (omega (arith, h))) (
        rw (ipv4, long')
          (bind_step _ _ (load32_step _ _ (omega arith) (omega (arith, h)))
            (bind_step _ _ (ap (λ o. some (o, w)) denied) refl))))
