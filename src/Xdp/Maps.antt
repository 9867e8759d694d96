-- ===== src/Xdp/Maps.antt =====
-- The BPF maps that a program uses: the interface of the kernel and of bpftime, which are not part
-- of the repository, and the helper calls on it.
use userspace_xdp.Prelude.{
  refl, inl, inr, Option-cases, ℕ, ◌+◌, Option, none, some, Bool, true, false, ◌≡◌, ◌%◌, ◌^◌,
}
use userspace_xdp.Xdp.{World, M, pure, ◌>>=◌}

-- A map with keys `K` and values `V` in the state `S` of all maps of the program. `write` stores
-- through the pointer that a lookup returned, `update` is `bpf_map_update_elem`, which may fail.
pub record BpfMap (S : Type 0) (K : Type 0) (V : Type 0) : Type 0 where
  pub lookup : S → K → Option V
  pub write : S → K → V → S
  pub update : S → K → V → Option S
  pub lookup-write :
      (s : S) (k : K) (v v' : V) → lookup s k ≡ some v → lookup (write s k v') k ≡ some v'
  pub lookup-update : (s s' : S) (k : K) (v : V) → update s k v ≡ some s' → lookup s' k ≡ some v

-- the successor on `__u64`
unfoldable pub increment : ℕ → ℕ
increment n = (n + 1) % 2 ^ 64

module _ {S : Type 0} where
  -- `if (!p) ...` on the result of a lookup
  unfoldable pub when_found : {A B : Type 0} → Option A → M S B → (A → M S B) → M S B
  when_found none missing found = missing
  when_found (some a) missing found = found a

  unfoldable pub lookup_elem : {K V : Type 0} → BpfMap S K V → K → M S (Option V)
  lookup_elem m k w = some (m.lookup w.maps k, w)

  unfoldable pub write_elem : {K V : Type 0} → BpfMap S K V → K → V → M S (Unit {0})
  write_elem m k v w = some (tt, record w { maps = m.write w.maps k v })

  -- the result of the call is not read: a failure leaves the map as it is
  unfoldable pub update_elem : {K V : Type 0} → BpfMap S K V → K → V → M S (Unit {0})
  update_elem m k v w = elim (m.update w.maps k v) [
    | none ↦ some (tt, w)
    | some s ↦ some (tt, record w { maps = s })
  ]

  -- `if (value) *value += 1`
  unfoldable pub count : {K : Type 0} → BpfMap S K ℕ → K → M S (Unit {0})
  count m k = do
    value ← lookup_elem m k
    when_found value (pure tt) (λ n. write_elem m k (increment n))

module _ {S K : Type 0} (m : BpfMap S K ℕ) where
  -- the maps with one more for a key, where the map has it
  unfoldable pub counted : S → K → S
  counted s k = elim (m.lookup s k) [ none ↦ s | some n ↦ m.write s k (increment n) ]

  pub count-eq :
      (k : K) (w : World S) → count m k w ≡ some (tt, record w { maps = counted w.maps k })
  unfolding count counted lookup_elem write_elem when_found pure ◌>>=◌
  count-eq k w = elim (Option-cases (m.lookup w.maps k)) [
    | inl q ↦ rw (q, counted) refl
    | inr (n, q) ↦ rw (q, counted) refl
  ]

-- whether a command does not fault
unfoldable pub returns : {A : Type 0} → Option A → Bool
returns none = false
returns (some a) = true
