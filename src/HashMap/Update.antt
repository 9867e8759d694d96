-- ===== src/HashMap/Update.antt =====
-- What an update does to the probes of the key that it writes and of every other key.
use userspace_xdp.Prelude.{
  ℕ, zero, suc, ◌+◌, ◌<◌, ◌≡◌, ◌≢◌, refl, arith, Bool, true, false, Bool-cases, ◌⊎◌, inl, inr, Mem,
  IsBytes, sym, ◌∙◌,
}
use userspace_xdp.HashMap.{
  HashMap, vacant, hit, is_empty, matches, match_from, get_key, fill, set_filled, probe,
  start_index, hash_func, hash_from,
}
use userspace_xdp.HashMap.Scan.{
  first, but, first-vacant, first-hit, first-lt, first_written, first_kept, first_congr,
}
use userspace_xdp.HashMap.Slots.{
  IsSized, probe-first, is_empty-fill, matches-fill, match_from_sound, match_from_complete,
}

-- two keys of `n` bytes
abbrev pub SameKey : ℕ → Mem → Mem → Type 0
SameKey n k k' = (t : ℕ) → t < n → k t ≡ k' t

-- Where the probe for a key stops.
abbrev pub StopsAt : HashMap → Mem → ℕ → Type 0
StopsAt map key i = (probe map key ≡ vacant i) ⊎ (probe map key ≡ hit i)

module _ (map : HashMap) (z : IsSized map) where
  pub start-lt : (k : Mem) → start_index map k < map.num_buckets
  unfolding start_index
  start-lt k = omega (arith, z.some_bucket)

  pub stop-lt : (k : Mem) (i : ℕ) → StopsAt map k i → i < map.num_buckets
  stop-lt k i s =
      first-lt (is_empty map) (matches map k) map.num_buckets (start_index map k) i 0
        map.num_buckets z.some_bucket (rw (probe-first map k z) at s)

module _ (map : HashMap) (z : IsSized map) (key value : Mem) (bk : IsBytes key) (bv : IsBytes value)
    (i : ℕ) (stop : StopsAt map key i) where
  lt : i < map.num_buckets
  lt = stop-lt map z key i stop

  pub sized : IsSized (fill map key value i)
  unfolding fill set_filled
  sized = record { some_bucket = z.some_bucket; fits = z.fits }

  start-fill : (k : Mem) → start_index (fill map key value i) k ≡ start_index map k
  unfolding fill set_filled start_index
  start-fill k = refl

  self : match_from key 0 key 0 map.key_size ≡ true
  self =
      match_from_complete key 0 key 0 map.key_size
        (λ t l u. let e : 0 + t ≡ t = omega arith in rw e)

  pub first-fill :
      (k : Mem) (b : Bool)
      → match_from key 0 k 0 map.key_size ≡ b
      → probe (fill map key value i) k
        ≡ first
            (but (is_empty map) i false)
            (but (matches map k) i b)
            map.num_buckets
            (start_index map k)
            0
            map.num_buckets
  unfolding fill set_filled start_index first
  first-fill k b e =
      probe-first (fill map key value i) k sized
      ∙ first_congr (is_empty (fill map key value i)) (matches (fill map key value i) k)
          (but (is_empty map) i false) (but (matches map k) i b) map.num_buckets (start_index map k)
          0 map.num_buckets z.some_bucket
          (λ j hj. (
            is_empty-fill map z key value bk bv i lt j hj,
            rw (← e) (matches-fill map z key value bk bv i lt k j hj),
          ))

  pub probe-fill : probe (fill map key value i) key ≡ hit i
  probe-fill = rw (first-fill key true self) (
      first_written (is_empty map) (matches map key) map.num_buckets (start_index map key) i 0
        map.num_buckets (rw (probe-first map key z) at stop))

-- Keys with the same bytes have the same hash, match the same slots and have the same probe.
hash_congr :
    (k k' : Mem) (i n h : ℕ)
    → ((t : ℕ) → t < i + n → k t ≡ k' t)
    → hash_from k i n h ≡ hash_from k' i n h
unfolding hash_from
hash_congr k k' i zero h e = refl
hash_congr k k' i (suc n) h e =
    rw (e i (omega arith)) (hash_congr k k' (i + 1) n _ (λ t l. e t (omega arith)))

match_key_congr :
    (m : Mem) (a : ℕ) (k k' : Mem) (i n : ℕ)
    → ((t : ℕ) → t < i + n → k t ≡ k' t)
    → match_from m a k i n ≡ match_from m a k' i n
unfolding match_from
match_key_congr m a k k' i zero e = refl
match_key_congr m a k k' i (suc n) e =
    rw (e i (omega arith), match_key_congr m a k k' (i + 1) n (λ t l. e t (omega arith)))

module _ (map : HashMap) (z : IsSized map) (k k' : Mem) (same : SameKey map.key_size k k') where
  start_congr : start_index map k ≡ start_index map k'
  unfolding start_index hash_func
  start_congr = rw (hash_congr k k' 0 map.key_size 0 (λ t l. same t (omega arith)))

  matches_congr : (j : ℕ) → matches map k j ≡ matches map k' j
  unfolding matches
  matches_congr j =
      match_key_congr map.data_buffer (get_key map j) k k' 0 map.key_size
        (λ t l. same t (omega arith))

  pub probe_congr : probe map k ≡ probe map k'
  probe_congr =
      rw (probe-first map k z, probe-first map k' z, start_congr)
        (first_congr (is_empty map) (matches map k) (is_empty map) (matches map k') map.num_buckets
          (start_index map k') 0 map.num_buckets z.some_bucket (λ j hj. (refl, matches_congr j)))

-- the key that a slot stores
abbrev pub slot_key : HashMap → ℕ → Mem
slot_key map j t = map.data_buffer (get_key map j + t)

-- Every stored key is found where it stands.
pub record IsReachable (map : HashMap) : Type 0 where
  pub finds :
      (j : ℕ) → j < map.num_buckets → is_empty map j ≡ false → probe map (slot_key map j) ≡ hit j

pub matches_slot :
    (map : HashMap) (k : Mem) (j : ℕ)
    → matches map k j ≡ true
    → SameKey map.key_size (slot_key map j) k
unfolding matches
matches_slot map k j h t l =
    match_from_sound map.data_buffer (get_key map j) k 0 map.key_size t h (omega arith)
      (omega arith)

-- a key found in a slot by its bytes is found by its probe
pub finds_match :
    (map : HashMap) (z : IsSized map)
    → IsReachable map
    → (k : Mem) (j : ℕ) → j < map.num_buckets
    → is_empty map j ≡ false
    → matches map k j ≡ true
    → probe map k ≡ hit j
finds_match map z r k j hj filled m =
    sym (probe_congr map z (slot_key map j) k (matches_slot map k j m)) ∙ r.finds j hj filled

module _ (map : HashMap) (z : IsSized map) (key value : Mem) (bk : IsBytes key) (bv : IsBytes value)
    (i : ℕ) (stop : StopsAt map key i) (r : IsReachable map) (k : Mem)
    (other : match_from key 0 k 0 map.key_size ≡ false) where
  -- the slot that is written does not hold another key
  pub not_there : (is_empty map i ≡ true) ⊎ (matches map k i ≡ false)
  not_there = elim (Bool-cases (matches map k i)) [
    | inr differs ↦ inr differs
    | inl agrees ↦ elim (rw (probe-first map key z) at stop) [
      | inl v ↦ inl (
          first-vacant (is_empty map) (matches map key) map.num_buckets (start_index map key) i 0
            map.num_buckets v)
      | inr h ↦
          let m =
            (first-hit (is_empty map) (matches map key) map.num_buckets (start_index map key) i 0
              map.num_buckets h).1 in
          let same = matches_slot map key i m in
          let same' = matches_slot map k i agrees in
          let yes_ : match_from key 0 k 0 map.key_size ≡ true =
            match_from_complete key 0 k 0 map.key_size (λ t l u.
              let e : 0 + t ≡ t = omega arith in
              rw e (sym (same t (omega arith)) ∙ same' t (omega arith))) in
          absurd (cc)
    ]
  ]

  -- A write of one key keeps where the probe for another key finds it.
  pub hit_kept : (j : ℕ) → probe map k ≡ hit j → probe (fill map key value i) k ≡ hit j
  hit_kept j q =
      let q' = rw (probe-first map k z) at q in
      let here =
        first-hit (is_empty map) (matches map k) map.num_buckets (start_index map k) j 0
          map.num_buckets q' in
      rw (first-fill map z key value bk bv i stop k false other) (
        first_kept (is_empty map) (matches map k) map.num_buckets (start_index map k) i 0
          map.num_buckets j (λ e. ground (arith, not_there, here)) q' not_there)

  pub hit_back : (j : ℕ) → probe (fill map key value i) k ≡ hit j → (probe map k ≡ hit j) × (j ≢ i)
  hit_back j q =
      let q' = rw (first-fill map z key value bk bv i stop k false other) at q in
      let here =
        first-hit (but (is_empty map) i false) (but (matches map k) i false) map.num_buckets
          (start_index map k) j 0 map.num_buckets q' in
      let hj =
        first-lt (but (is_empty map) i false) (but (matches map k) i false) map.num_buckets
          (start_index map k) j 0 map.num_buckets z.some_bucket (inr q') in
      let ne : j ≢ i = ground (arith, here) in
      let filled : is_empty map j ≡ false = ground (arith, here) in
      let agrees : matches map k j ≡ true = ground (arith, here) in
      (finds_match map z r k j hj filled agrees, ne)
