-- ===== src/Runtime/LpmTrie/Rules.antt =====
-- The LPM map of module/maps.cpp: which bits of a key it looks at.
use userspace_xdp.Prelude.{
  ℕ, zero, suc, ◌+◌, ◌*◌, ◌%◌, ◌<◌, ◌≤◌, ◌≢◌, ◌≡◌, refl, arith, Bool, true, false, Option, none,
  some, Mem, List, [], ◌∷◌, length, take, ap, ◌∙◌,
}
use userspace_xdp.Runtime.LpmTrie.{
  null, bit, trie_init, lpm_alloc_map, lpm_elem_lookup, lpm_elem_update,
}
use userspace_xdp.Runtime.LpmTrie.Search.{
  bits, value_at, IsLongest, at, nowhere, trie_node_search-IsLongest,
}
use userspace_xdp.Runtime.LpmTrie.Put.{same_path, trie_node_put-value}

pub same_path_refl : (p : List Bool) → same_path p p ≡ true
unfolding same_path
same_path_refl [] = refl
same_path_refl (true ∷ p) = same_path_refl p
same_path_refl (false ∷ p) = same_path_refl p

pub length-bits : (ip : Mem) (i n : ℕ) → length (bits ip i n) ≡ n
unfolding bits
length-bits ip i zero = refl
length-bits ip i (suc n) = omega (arith, length-bits ip (i + 1) n)

pub take-bits : (ip : Mem) (i n k : ℕ) → n ≤ k → take n (bits ip i k) ≡ bits ip i n
unfolding bits
take-bits ip i zero k h = refl
take-bits ip i (suc n) zero h = absurd (omega arith)
take-bits ip i (suc n) (suc k) h = ap (λ p. bit ip i ∷ p) (take-bits ip (i + 1) n k (omega arith))

pub value_at-init : (p : List Bool) → value_at trie_init p ≡ none
unfolding value_at trie_init
value_at-init [] = refl
value_at-init (true ∷ p) = refl
value_at-init (false ∷ p) = refl

pub init-ne-null : trie_init ≢ null
unfolding trie_init
init-ne-null e = cc

-- the value that a search finds where one value alone is stored
pub only :
    (f : List Bool → Option ℕ) (addr : List Bool) (n v : ℕ) (out : Option ℕ)
    → 0 < n
    → n ≤ length addr
    → f (take n addr) ≡ some v
    → ((p : List Bool) (u : ℕ) → f p ≡ some u → u ≡ v)
    → IsLongest f addr none out
    → out ≡ some v
only f addr n v out p l h one (at k u pk lk hk later o) = o ∙ ap some (one _ u hk)
only f addr n v out p l h one (nowhere all o) = let z = all n p l in absurd (cc)

-- In a fresh map with one entry, a key of which only the first `key_size` BITS agree with the stored key's finds its value: the update passes the key's size in bytes where the trie takes a number of bits, and both read the key's bytes from the prefix length on.
pub lpm_confuses :
    (key key' : Mem) (key_size v : ℕ)
    → 0 < key_size
    → key_size < 256
    → bits key 0 key_size ≡ bits key' 0 key_size
    → lpm_elem_lookup (lpm_elem_update (lpm_alloc_map key_size) key v) key' ≡ some v
unfolding lpm_elem_lookup lpm_elem_update lpm_alloc_map
lpm_confuses key key' n v p l same =
    let e : n % 256 ≡ n = omega arith in
    let put = trie_node_put-value trie_init key n v init-ne-null p in
    rw e (
      only (value_at _) (bits key' 0 (8 * n)) n v _ p (rw length-bits (omega arith))
        (rw (take-bits key' 0 n (8 * n) (omega arith), put, ← same, same_path_refl, value_at-init))
        (λ q u h. ground (arith, put q, value_at-init q, h)) (trie_node_search-IsLongest _ key' n))
