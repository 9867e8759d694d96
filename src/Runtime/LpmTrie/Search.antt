-- ===== src/Runtime/LpmTrie/Search.antt =====
-- What a trie stands for, and that the search finds the longest prefix.
use userspace_xdp.Prelude.{
  ℕ, zero, suc, ◌+◌, ◌*◌, ◌≤◌, ◌<◌, ◌≡◌, refl, arith, Bool, Option, none, some, if◌then◌else◌, Mem,
  List, [], ◌∷◌, length, take, inl, inr, Option-cases, ◌∙◌,
}
use userspace_xdp.Runtime.LpmTrie.{Node, null, node, bit, search_from, trie_node_search}

-- `n` bits of an address, from bit `i` on
unfoldable pub bits : Mem → ℕ → ℕ → List Bool
bits ip i zero = []
bits ip i (suc n) = bit ip i ∷ bits ip (i + 1) n

-- the value at the end of a path of bits
unfoldable pub value_at : Node → List Bool → Option ℕ
value_at null path = none
value_at (node l r asn as_in) [] = if as_in then some asn else none
value_at (node l r asn as_in) (b ∷ path) = value_at (if b then r else l) path

-- `out` is the value of the longest prefix of `addr`, of one bit at least, that has a value, and
-- `found` if none has.
pub data IsLongest (f : List Bool → Option ℕ) (addr : List Bool) (found out : Option ℕ)
    : Type 0 where
  at :
      (k v : ℕ)
      → 0 < k
      → k ≤ length addr
      → f (take k addr) ≡ some v
      → ((j : ℕ) → k < j → j ≤ length addr → f (take j addr) ≡ none)
      → out ≡ some v
      → IsLongest f addr found out
  nowhere :
      ((j : ℕ) → 0 < j → j ≤ length addr → f (take j addr) ≡ none)
      → out ≡ found
      → IsLongest f addr found out

-- a fact about the prefixes longer than k, with one more bit in front
later_suc :
    (f g : List Bool → Option ℕ) (b : Bool) (addr : List Bool) (k : ℕ)
    → ((p : List Bool) → f (b ∷ p) ≡ g p)
    → ((j : ℕ) → k < j → j ≤ length addr → g (take j addr) ≡ none)
    → (j : ℕ) → suc k < j
    → j ≤ suc (length addr)
    → f (take j (b ∷ addr)) ≡ none
later_suc f g b addr k e later zero l u = absurd (omega arith)
later_suc f g b addr k e later (suc j) l u =
    rw (e (take j addr)) (later j (omega arith) (omega arith))

none-suc :
    (f g : List Bool → Option ℕ) (b : Bool) (addr : List Bool)
    → ((p : List Bool) → f (b ∷ p) ≡ g p)
    → g [] ≡ none
    → ((j : ℕ) → 0 < j → j ≤ length addr → g (take j addr) ≡ none)
    → (j : ℕ) → 0 < j
    → j ≤ suc (length addr)
    → f (take j (b ∷ addr)) ≡ none
none-suc f g b addr e z later zero l u = absurd (omega arith)
none-suc f g b addr e z later (suc zero) l u = rw (e []) z
none-suc f g b addr e z later (suc (suc j)) l u =
    rw (e (take (suc j) addr)) (later (suc j) (omega arith) (omega arith))

-- One more bit in front: the prefix of that bit alone is the shortest candidate.
extend :
    (f g : List Bool → Option ℕ) (b : Bool) (addr : List Bool) (found mid out : Option ℕ)
    → ((p : List Bool) → f (b ∷ p) ≡ g p)
    → ((v : ℕ) → g [] ≡ some v → mid ≡ some v)
    → (g [] ≡ none → mid ≡ found)
    → IsLongest g addr mid out
    → IsLongest f (b ∷ addr) found out
extend f g b addr found mid out e s n (at k v p l h later o) =
    at (suc k) v (omega arith) (omega arith) (rw (e (take k addr)) h)
      (later_suc f g b addr k e later) o
extend f g b addr found mid out e s n (nowhere h o) = elim (Option-cases (g [])) [
  | inl z ↦ nowhere (none-suc f g b addr e z h) (o ∙ n z)
  | inr (v, z) ↦
      at 1 v (omega arith) (omega arith) (rw (e []) z) (later_suc f g b addr 0 e h) (o ∙ s v z)
]

-- the search from the child `c` on, by its results for the bits that follow
descend :
    (ip : Mem) (i n : ℕ) (f : List Bool → Option ℕ) (b : Bool) (c : Node) (found : Option ℕ)
    → ((p : List Bool) → f (b ∷ p) ≡ value_at c p)
    → ((t : Node) (o : Option ℕ) → IsLongest (value_at t) (bits ip i n) o (search_from ip i n t o))
    → IsLongest f (b ∷ bits ip i n) found (elim c [
      | null ↦ found
      | node l r asn as_in ↦
          search_from ip i n (node l r asn as_in) (if as_in then some asn else found)
    ])
unfolding value_at
descend ip i n f b null found e ih =
    nowhere (none-suc f (value_at null) b (bits ip i n) e refl (λ j l u. refl)) refl
descend ip i n f b (node l r asn as_in) found e ih =
    extend f (value_at (node l r asn as_in)) b (bits ip i n) found
      (if as_in then some asn else found) _ e (λ v h. ground arith) (λ h. ground arith)
      (ih (node l r asn as_in) _)

search_from-IsLongest :
    (ip : Mem) (i n : ℕ) (t : Node) (found : Option ℕ)
    → IsLongest (value_at t) (bits ip i n) found (search_from ip i n t found)
unfolding bits search_from value_at
search_from-IsLongest ip i zero t found = nowhere (λ j l u. absurd (omega arith)) refl
search_from-IsLongest ip i (suc n) null found = nowhere (λ j l u. refl) refl
search_from-IsLongest ip i (suc n) (node l r asn as_in) found =
    descend ip (i + 1) n (value_at (node l r asn as_in)) (bit ip i) (if bit ip i then r else l)
      found (λ p. refl) (search_from-IsLongest ip (i + 1) n)

-- A search finds the value of the longest prefix of the address, of one bit at least, at which the
-- trie holds a value, and nothing if there is none.
pub trie_node_search-IsLongest :
    (root : Node) (ip : Mem) (ln : ℕ)
    → IsLongest (value_at root) (bits ip 0 (8 * ln)) none (trie_node_search root ip ln)
unfolding trie_node_search
trie_node_search-IsLongest root ip ln = search_from-IsLongest ip 0 (8 * ln) root none
