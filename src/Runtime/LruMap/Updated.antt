-- ===== src/Runtime/LruMap/Updated.antt =====
-- What the LRU map of module/maps.cpp answers after an update.
use userspace_xdp.Prelude.{
  ℕ, ◌≡◌, refl, ◌∙◌, arith, true, some, Option-cases, inl, inr, List, [], ◌∷◌,
}
use userspace_xdp.Runtime.LruMap.{
  LruKey, equals, hash_key, RealPosLru, Cache, LruMap, lru_hash_map_elem_lookup,
  lru_hash_map_elem_update, lru_hash_map_elem_delete, store,
}

-- a call or a store that is not an update
pub data Op : Type 0 where
  look : LruKey → Op
  remove : LruKey → Op
  write : RealPosLru → Op

-- Keys that are equal have the same hash, which is what the cache's hash table relies on.
hash_key-equals :
    (hash32 hash8 : ℕ → ℕ) (k k' : LruKey)
    → equals k k' ≡ true
    → hash_key hash32 hash8 k ≡ hash_key hash32 hash8 k'
unfolding equals hash_key
hash_key-equals hash32 hash8 k k' h =
    let s : k.src.first ≡ k'.src.first = ground (arith, h) in
    let d : k.dst.first ≡ k'.dst.first = ground (arith, h) in
    let p : k.ports ≡ k'.ports = ground (arith, h) in
    let q : k.proto ≡ k'.proto = ground (arith, h) in rw (s, d, p, q) refl

module _ {C : Type 0} (lru : Cache C) where
  unfoldable pub apply : Op → LruMap C → LruMap C
  apply (look k) map = (lru_hash_map_elem_lookup lru map k).0
  apply (remove k) map = (lru_hash_map_elem_delete map k).0
  apply (write v) map = store map v

  unfoldable pub run : List Op → LruMap C → LruMap C
  run [] map = map
  run (op ∷ ops) map = run ops (apply op map)

  find-apply :
      (op : Op) (map : LruMap C) (k : LruKey)
      → lru.find (apply op map).cache k ≡ lru.find map.cache k
  unfolding apply lru_hash_map_elem_lookup lru_hash_map_elem_delete store
  find-apply (look j) map k = elim (Option-cases (lru.find map.cache j)) [
    | inl e ↦ rw (e, apply, lru_hash_map_elem_lookup) refl
    | inr (v, e) ↦ rw (e, apply, lru_hash_map_elem_lookup) (lru.find-touch map.cache j k)
  ]
  find-apply (remove j) map k = refl
  find-apply (write v) map k = refl

  find-run :
      (ops : List Op) (map : LruMap C) (k : LruKey)
      → lru.find (run ops map).cache k ≡ lru.find map.cache k
  unfolding run
  find-run [] map k = refl
  find-run (op ∷ ops) map k = find-run ops (apply op map) k ∙ find-apply op map k

  lookup_hit :
      (map : LruMap C) (k : LruKey) (v : RealPosLru)
      → lru.find map.cache k ≡ some v
      → lru_hash_map_elem_lookup lru map k
        ≡ (record { cache = lru.touch map.cache k; value_local = v }, true)
  unfolding lru_hash_map_elem_lookup
  lookup_hit map k v e = rw (e, lru_hash_map_elem_lookup) refl

  -- After an update every lookup of its key, and of a key that agrees with it in the first words of the
  -- addresses, the ports and the protocol, finds the value of the update until the next update: a delete,
  -- which reports success, and a store through a pointer of a lookup change no entry.
  pub update_lasts :
      (map : LruMap C) (k k' : LruKey) (v : RealPosLru) (ops : List Op)
      → equals k k' ≡ true
      → (map' : LruMap C) × (lru_hash_map_elem_lookup lru
            (run ops (lru_hash_map_elem_update lru map k v).0)
            k'
          ≡ (map', true))
        × (map'.value_local ≡ v)
        × ((lru_hash_map_elem_delete map' k').1 ≡ 0)
  unfolding lru_hash_map_elem_update lru_hash_map_elem_delete
  update_lasts map k k' v ops h =
      let after = run ops (record map { cache = lru.insert map.cache k v }) in
      let found =
        find-run ops (record map { cache = lru.insert map.cache k v }) k'
        ∙ lru.find-insert map.cache k k' v h in
      (
        record { cache = lru.touch after.cache k'; value_local = v },
        lookup_hit after k' v found,
        refl,
        refl,
      )
