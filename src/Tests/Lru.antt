-- ===== src/Tests/Lru.antt =====
-- The LRU map over a cache that evicts nothing.
use userspace_xdp.Prelude.{◌≡◌, refl, true, Option, none, some, if◌then◌else◌, [], ◌∷◌}
use userspace_xdp.Runtime.LruMap.{
  Address, LruKey, equals, RealPosLru, Cache, LruMap, lru_hash_map_elem_lookup,
  lru_hash_map_elem_update, lru_hash_map_elem_delete,
}
use userspace_xdp.Runtime.LruMap.Updated.{look, remove, write, run, update_lasts}

abbrev Entries : Type 0
Entries = LruKey → Option RealPosLru

abbrev entries : Cache Entries
entries = record {
  insert = λ c k v k'. if equals k k' then some v else c k';
  find = λ c k. c k;
  touch = λ c k. c;
  find-insert = λ c k k' v e. rw e refl;
  find-touch = λ c k k'. refl;
}

-- two IPv6 addresses that agree in their first word
abbrev one : Address
one = record { first = 1; second = 2; third = 3; fourth = 4 }

abbrev other : Address
other = record { first = 1; second = 0; third = 0; fourth = 9 }

abbrev flow : LruKey
flow = record { src = one; dst = one; ports = 7; proto = 6 }

abbrev other_flow : LruKey
other_flow = record { src = other; dst = one; ports = 7; proto = 6 }

abbrev position : RealPosLru
position = record { pos = 5; atime = 100 }

abbrev later : RealPosLru
later = record { pos = 8; atime = 200 }

abbrev empty : LruMap Entries
empty = record { cache = λ k. none; value_local = later }

flow-equals : equals flow other_flow ≡ true
unfolding equals
flow-equals = refl

update_lasts_example :
    (map' : LruMap Entries) × (lru_hash_map_elem_lookup entries
        (run entries
          (look flow ∷ write later ∷ remove flow ∷ [])
          (lru_hash_map_elem_update entries empty flow position).0)
        other_flow
      ≡ (map', true))
    × (map'.value_local ≡ position)
    × ((lru_hash_map_elem_delete map' other_flow).1 ≡ 0)
update_lasts_example =
    update_lasts entries empty flow other_flow position (look flow ∷ write later ∷ remove flow ∷ [])
      flow-equals
