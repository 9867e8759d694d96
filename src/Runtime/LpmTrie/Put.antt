-- ===== src/Runtime/LpmTrie/Put.antt =====
-- What an insertion changes: the value of the prefix that it inserts, if that had none.
use userspace_xdp.Prelude.{
  ℕ, zero, suc, ◌+◌, ◌<◌, ◌≢◌, ◌≡◌, refl, arith, Bool, true, false, Option, none, some, ◌==◌,
  if◌then◌else◌, Mem, List, [], ◌∷◌, ◌&&◌, inl, inr, Bool-cases, suc-eqb-zero,
}
use userspace_xdp.Runtime.LpmTrie.{
  Node, null, node, bit, ensure, set_value, put_from, trie_node_put,
}
use userspace_xdp.Runtime.LpmTrie.Search.{bits, value_at}

abbrev pub same_bit : Bool → Bool → Bool
same_bit true b = b
same_bit false true = false
same_bit false false = true

unfoldable pub same_path : List Bool → List Bool → Bool
same_path [] [] = true
same_path [] (y ∷ ys) = false
same_path (x ∷ xs) [] = false
same_path (x ∷ xs) (y ∷ ys) = same_bit x y && same_path xs ys

-- the value that is there already, or the new one
abbrev pub or_value : Option ℕ → ℕ → Option ℕ
or_value none v = some v
or_value (some u) v = some u

value_at-ensure : (t : Node) (path : List Bool) → value_at (ensure t) path ≡ value_at t path
unfolding value_at ensure
value_at-ensure null [] = refl
value_at-ensure null (true ∷ path) = refl
value_at-ensure null (false ∷ path) = refl
value_at-ensure (node l r asn as_in) path = refl

value_at-set_value :
    (v : ℕ) (t : Node) (path : List Bool)
    → value_at (set_value v (ensure t)) path
      ≡ (if same_path path [] then or_value (value_at t path) v else value_at t path)
unfolding value_at ensure set_value same_path
value_at-set_value v null [] = refl
value_at-set_value v null (true ∷ path) = refl
value_at-set_value v null (false ∷ path) = refl
value_at-set_value v (node l r asn true) [] = refl
value_at-set_value v (node l r asn false) [] = refl
value_at-set_value v (node l r asn true) (b ∷ path) = refl
value_at-set_value v (node l r asn false) (b ∷ path) = refl

-- what an insertion below `t` changes, along the `n` bits from bit `i` on
abbrev Puts : Mem → ℕ → ℕ → ℕ → Node → Node → Type 0
Puts ip v i n t done =
    (path : List Bool)
    → value_at done path
      ≡ (if same_path path (bits ip i n) then or_value (value_at t path) v else value_at t path)

put_node :
    (ip : Mem) (v i n : ℕ) (l r : Node) (asn : ℕ) (as_in : Bool)
    → ((c : Node)
        → Puts ip v
            (i + 1)
            n
            c
            (put_from ip v (i + 1) n (if n == 0 then set_value v (ensure c) else ensure c)))
    → Puts ip v i (suc n) (node l r asn as_in) (put_from ip v i (suc n) (node l r asn as_in))
unfolding put_from value_at bits same_path
put_node ip v i n l r asn as_in ih [] = elim (Bool-cases (bit ip i)) [ inl e ↦ rw e | inr e ↦ rw e ]
put_node ip v i n l r asn as_in ih (true ∷ path) = elim (Bool-cases (bit ip i)) [
  | inl e ↦ rw e (ih r path)
  | inr e ↦ rw e
]
put_node ip v i n l r asn as_in ih (false ∷ path) = elim (Bool-cases (bit ip i)) [
  | inl e ↦ rw e
  | inr e ↦ rw e (ih l path)
]

put_ensured :
    (ip : Mem) (v i n : ℕ) (t : Node)
    → ((c : Node)
        → Puts ip v
            (i + 1)
            n
            c
            (put_from ip v (i + 1) n (if n == 0 then set_value v (ensure c) else ensure c)))
    → Puts ip v i (suc n) t (put_from ip v i (suc n) (ensure t))
unfolding ensure
put_ensured ip v i n null ih path =
    rw (value_at-ensure null path) at (put_node ip v i n null null 0 false ih path)
put_ensured ip v i n (node l r asn as_in) ih path = put_node ip v i n l r asn as_in ih path

put_below :
    (ip : Mem) (v i n : ℕ) (c : Node)
    → Puts ip v i n c (put_from ip v i n (if n == 0 then set_value v (ensure c) else ensure c))
unfolding put_from bits
put_below ip v i zero c path = value_at-set_value v c path
put_below ip v i (suc n) c path =
    rw (suc-eqb-zero n) (put_ensured ip v i n c (put_below ip v (i + 1) n) path)

-- An insertion of a prefix of one bit at least gives the value to that prefix if it had none, and
-- changes no other prefix.
pub trie_node_put-value :
    (root : Node) (ip : Mem) (cidr v : ℕ)
    → root ≢ null
    → 0 < cidr
    → (path : List Bool)
    → value_at (trie_node_put root ip cidr v) path ≡ (
        if same_path path (bits ip 0 cidr)
        then or_value (value_at root path) v
        else value_at root path)
unfolding trie_node_put
trie_node_put-value null ip cidr v h p path = absurd (h refl)
trie_node_put-value (node l r asn as_in) ip zero v h p path = absurd (omega arith)
trie_node_put-value (node l r asn as_in) ip (suc n) v h p path =
    put_node ip v 0 n l r asn as_in (put_below ip v 1 n) path
