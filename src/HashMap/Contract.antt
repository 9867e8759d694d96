-- ===== src/HashMap/Contract.antt =====
-- What the table promises: a write is read back, other keys keep their values while every stored
-- key can be reached, an update fails only when the table is full, and what a delete breaks.
use userspace_xdp.Prelude.{
  ℕ, zero, suc, ◌+◌, ◌<◌, ◌≡◌, ◌≢◌, refl, arith, Bool, true, false, ◌==◌, Bool-cases, ◌⊎◌, inl, inr,
  Mem, IsBytes, none, some, sym, ◌∙◌, put32, get32,
}
use userspace_xdp.HashMap.{
  HashMap, Stop, vacant, hit, full, out_of_fuel, is_empty, matches, match_from, get_value,
  get_elem_offset, fill, set_filled, set_empty, probe, start_index, elem_lookup, elem_update,
  elem_delete,
}
use userspace_xdp.HashMap.Scan.{first, first_empty, full_all}
use userspace_xdp.HashMap.Slots.{
  IsSized, probe-first, value-fill, value-fill_ne, key-fill, key-fill_ne, is_empty-fill,
  match_from_sound,
}
use native.Mathlib.Decide.{ℕ_discrete}
use userspace_xdp.HashMap.Update.{
  StopsAt, SameKey, IsReachable, slot_key, stop-lt, start-lt, sized, probe-fill, probe_congr,
  hit_kept, hit_back,
}

-- The probe of a table with a bucket comes to an end within its fuel.
first-ne-fuel : (e h : ℕ → Bool) (n s d f : ℕ) → first e h n s d f ≢ out_of_fuel
unfolding first
first-ne-fuel e h n s d zero q = cc
first-ne-fuel e h n s d (suc f) q = ground (arith, first-ne-fuel e h n s (d + 1) f)

-- The loop of every operation ends within one round for each bucket.
pub probe-ne-out_of_fuel : (map : HashMap) (key : Mem) → IsSized map → probe map key ≢ out_of_fuel
probe-ne-out_of_fuel map key z = rw (probe-first map key z) (first-ne-fuel _ _ _ _ _ _)

-- An update fills the slot at which the probe stopped, or finds the table full.
update_cases :
    (map : HashMap) (key value : Mem)
    → IsSized map
    → ((i : ℕ) × StopsAt map key i × (elem_update map key value ≡ (fill map key value i, true)))
      ⊎ ((probe map key ≡ full) × (elem_update map key value ≡ (map, false)))
unfolding elem_update
update_cases map key value z = go (probe map key) refl
  where
    go :
        (s : Stop)
        → probe map key ≡ s
        → ((i : ℕ) × StopsAt map key i × (elem_update map key value ≡ (fill map key value i, true)))
          ⊎ ((probe map key ≡ full) × (elem_update map key value ≡ (map, false)))
    go (vacant i) e = inl (i, inl e, rw (e, elem_update))
    go (hit i) e = inl (i, inr e, rw (e, elem_update))
    go full e = inr (e, rw (e, elem_update))
    go out_of_fuel e = absurd (probe-ne-out_of_fuel map key z e)

-- A lookup finds the slot that the probe hit, or nothing.
lookup_cases :
    (map : HashMap) (key : Mem)
    → ((i : ℕ) × (probe map key ≡ hit i) × (elem_lookup map key ≡ some (get_value map i)))
      ⊎ (((i : ℕ) → probe map key ≢ hit i) × (elem_lookup map key ≡ none))
unfolding elem_lookup
lookup_cases map key = go (probe map key) refl
  where
    go :
        (s : Stop)
        → probe map key ≡ s
        → ((i : ℕ) × (probe map key ≡ hit i) × (elem_lookup map key ≡ some (get_value map i)))
          ⊎ (((i : ℕ) → probe map key ≢ hit i) × (elem_lookup map key ≡ none))
    go (vacant i) e = inr (λ j q. cc, rw (e, elem_lookup))
    go (hit i) e = inl (i, e, rw (e, elem_lookup))
    go full e = inr (λ j q. cc, rw (e, elem_lookup))
    go out_of_fuel e = inr (λ j q. cc, rw (e, elem_lookup))

lookup-hit :
    (map : HashMap) (key : Mem) (i : ℕ)
    → probe map key ≡ hit i
    → elem_lookup map key ≡ some (get_value map i)
lookup-hit map key i e = elim (lookup_cases map key) [
  | inl (j, q, l) ↦ ground (arith, e, q, l)
  | inr (n, l) ↦ absurd (n i e)
]

lookup-none :
    (map : HashMap) (key : Mem) → ((i : ℕ) → probe map key ≢ hit i) → elem_lookup map key ≡ none
lookup-none map key h = elim (lookup_cases map key) [
  | inl (j, q, l) ↦ absurd (h j q)
  | inr (n, l) ↦ l
]

get_value-fill :
    (map : HashMap) (key value : Mem) (i j : ℕ)
    → get_value (fill map key value i) j ≡ get_value map j
unfolding fill set_filled get_value get_elem_offset
get_value-fill map key value i j = refl

neq : (j i : ℕ) → j ≢ i → (j == i) ≡ false
neq j i h = ground arith

match_from_differs : (key k : Mem) (n : ℕ) → ¬ SameKey n key k → match_from key 0 k 0 n ≡ false
match_from_differs key k n other = elim (Bool-cases (match_from key 0 k 0 n)) [
  | inl agrees ↦ absurd (
      other (λ t l.
        let e : 0 + t ≡ t = omega arith in
        rw e at (match_from_sound key 0 k 0 n t agrees (omega arith) (omega arith))))
  | inr differs ↦ differs
]

-- A key that is found elsewhere has other bytes than the key that is written.
other_key :
    (map : HashMap) (z : IsSized map) (key : Mem) (i : ℕ)
    → StopsAt map key i
    → (j : ℕ) → j ≢ i
    → (k : Mem) → probe map k ≡ hit j
    → match_from key 0 k 0 map.key_size ≡ false
other_key map z key i stop j ne k q =
    match_from_differs key k map.key_size
      (λ same. let p = probe_congr map z key k same in ground (arith, stop, p, q))

module _ (map : HashMap) (z : IsSized map) (key value : Mem) (bk : IsBytes key)
    (bv : IsBytes value) where
  -- After an update that returned 1, a lookup of the key returns an address at which the value's bytes stand.
  pub lookup-update :
      (elem_update map key value).1 ≡ true
      → (a : ℕ) × (elem_lookup (elem_update map key value).0 key ≡ some a)
        × ((t : ℕ)
            → t < map.value_size
            → (elem_update map key value).0.data_buffer (a + t) ≡ value t)
  lookup-update done = elim (update_cases map key value z) [
    | inl (i, stop, e) ↦
        let m = fill map key value i in
        (
          get_value map i,
          rw (e, ← get_value-fill map key value i i)
              (lookup-hit m key i (probe-fill map z key value bk bv i stop)),
          λ t l. rw e (value-fill map z key value bk bv i (stop-lt map z key i stop) t l),
        )
    | inr (f, e) ↦ absurd (cc)
  ]

  -- An update that returned 0 left the table alone, and the table was full of other keys.
  pub update_full :
      (elem_update map key value).1 ≡ false
      → ((elem_update map key value).0 ≡ map)
        × ((j : ℕ) → j < map.num_buckets → (is_empty map j ≡ false) × (matches map key j ≡ false))
  update_full fails = elim (update_cases map key value z) [
    | inl (i, stop, e) ↦ absurd (cc)
    | inr (f, e) ↦ (
      rw e,
      λ j hj.
          full_all (is_empty map) (matches map key) map.num_buckets (start_index map key) j
            (start-lt map z key) hj (rw (probe-first map key z) at f),
    )
  ]

  IsReachable-fill :
      (i : ℕ) → StopsAt map key i → IsReachable map → IsReachable (fill map key value i)
  unfolding fill set_filled
  IsReachable-fill i stop r = record {
    finds = λ j hj filled. elim (ℕ_discrete j i) [
      | yes e ↦ rw e (
          probe_congr (fill map key value i) (sized map z key value bk bv i stop)
            (slot_key (fill map key value i) i) key
            (λ t l. key-fill map z key value bk bv i (stop-lt map z key i stop) t l)
          ∙ probe-fill map z key value bk bv i stop)
      | no ne ↦
          let k = slot_key map j in
          let old : probe map k ≡ hit j = r.finds j hj (
            rw (is_empty-fill map z key value bk bv i (stop-lt map z key i stop) j hj, neq j i ne)
              at filled) in
          probe_congr (fill map key value i) (sized map z key value bk bv i stop)
            (slot_key (fill map key value i) j) k
            (λ t l. key-fill_ne map z key value bk bv i (stop-lt map z key i stop) j t hj ne l)
          ∙ hit_kept map z key value bk bv i stop r k (other_key map z key i stop j ne k old) j old
    ];
  }

  -- An update keeps every stored key reachable.
  pub update-IsReachable : IsReachable map → IsReachable (elem_update map key value).0
  update-IsReachable r = elim (update_cases map key value z) [
    | inl (i, stop, e) ↦ rw e (IsReachable-fill i stop r)
    | inr (f, e) ↦ rw e r
  ]

  -- An update leaves the lookup of every key with other bytes, and the value that it finds, as they were.
  pub lookup-update_ne :
      (k : Mem)
      → IsReachable map
      → ¬ SameKey map.key_size key k
      → (elem_lookup (elem_update map key value).0 k ≡ elem_lookup map k)
        × ((a t : ℕ)
            → elem_lookup map k ≡ some a
            → t < map.value_size
            → (elem_update map key value).0.data_buffer (a + t) ≡ map.data_buffer (a + t))
  lookup-update_ne k r other = elim (update_cases map key value z) [
    | inr (f, e) ↦ rw e (refl, λ a t q l. refl)
    | inl (i, stop, e) ↦
        let m = fill map key value i in
        let differs = match_from_differs key k map.key_size other in
        rw e (elim (lookup_cases map k) [
          | inl (j, q, l) ↦ (
            lookup-hit m k j (hit_kept map z key value bk bv i stop r k differs j q)
                ∙ rw (get_value-fill map key value i j) (sym l),
            λ a t found lt.
                let back =
                  hit_back map z key value bk bv i stop r k differs j
                    (hit_kept map z key value bk bv i stop r k differs j q) in
                let at : a ≡ get_value map j = cc in
                rw at (
                  value-fill_ne map z key value bk bv i (stop-lt map z key i stop) j t
                    (stop-lt map z k j (inr q)) back.1 lt),
          )
          | inr (n, l) ↦ (
            lookup-none m k (λ j q. n j (hit_back map z key value bk bv i stop r k differs j q).0)
                ∙ sym l,
            λ a t found lt. absurd (cc),
          )
        ])
  ]

is_empty-set_empty : (map : HashMap) (i : ℕ) → is_empty (set_empty map i) i ≡ true
unfolding is_empty set_empty get_elem_offset get32 put32
is_empty-set_empty map i = ground arith

probe_emptied :
    (map : HashMap) (k : Mem)
    → IsSized map
    → probe (set_empty map (start_index map k)) k ≡ vacant (start_index map k)
unfolding set_empty start_index
probe_emptied map k z =
    let m = set_empty map (start_index map k) in
    let z' : IsSized m = record { some_bucket = z.some_bucket; fits = z.fits } in
    rw (probe-first m k z') (
      first_empty (is_empty m) (matches m k) map.num_buckets (start_index map k) (start-lt map z k)
        (is_empty-set_empty map (start_index map k)))

-- A delete can hide another key: if the deleted key stood in the slot where the probe for `k` starts, a lookup of `k` finds nothing afterwards, wherever `k` is stored.
pub delete_hides :
    (map : HashMap) (key k : Mem)
    → IsSized map
    → probe map key ≡ hit (start_index map k)
    → ((elem_delete map key).1 ≡ true) × (elem_lookup (elem_delete map key).0 k ≡ none)
unfolding elem_delete
delete_hides map key k z q =
    rw (q, elem_delete)
      (
        refl,
        lookup-none (set_empty map (start_index map k)) k
            (λ i h. let v = probe_emptied map k z in cc),
      )
