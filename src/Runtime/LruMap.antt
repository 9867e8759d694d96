-- ===== src/Runtime/LruMap.antt =====
-- module/maps.cpp: the LRU map of flows. The cache is lru11::Cache (LRUCache11.hpp, a copy of another
-- library), so it is a parameter.
pub mod Updated
use userspace_xdp.Prelude.{
  ℕ, ◌*◌, ◌%◌, ◌^◌, ◌≡◌, Bool, true, false, Option, none, some, ◌==◌, ◌&&◌, bit_xor,
}

-- the words of an address; an IPv4 address is the first one (the unions `src`/`srcv6`, `dst`/`dstv6`)
pub record Address : Type 0 where
  pub first : ℕ
  pub second : ℕ
  pub third : ℕ
  pub fourth : ℕ

-- `struct flow_key`
pub record LruKey : Type 0 where
  pub src : Address
  pub dst : Address
  pub ports : ℕ
  pub proto : ℕ

-- `flow_key::operator==`
unfoldable pub equals : LruKey → LruKey → Bool
equals k other =
    k.src.first == other.src.first
    && k.dst.first == other.dst.first
    && k.ports == other.ports
    && k.proto == other.proto

-- `std::hash<flow_key>`, from the hashes of a word and of a byte
unfoldable pub hash_key : (ℕ → ℕ) → (ℕ → ℕ) → LruKey → ℕ
hash_key hash32 hash8 k =
    let h1 = hash32 k.src.first in
    let h2 = hash32 k.dst.first in
    let h3 = hash32 k.ports in
    let h4 = hash8 k.proto in
    bit_xor (bit_xor (bit_xor h1 (h2 * 2 % 2 ^ 64)) (h3 * 4 % 2 ^ 64)) (h4 * 8 % 2 ^ 64)

-- `struct real_pos_lru`
pub record RealPosLru : Type 0 where
  pub pos : ℕ
  pub atime : ℕ

-- What the map uses of the cache: an entry that was inserted is found under every equal key, and
-- looking a key up changes no entry (it makes the key the newest one).
pub record Cache (C : Type 0) : Type 0 where
  pub insert : C → LruKey → RealPosLru → C
  pub find : C → LruKey → Option RealPosLru
  pub touch : C → LruKey → C
  pub find-insert :
      (c : C) (k k' : LruKey) (v : RealPosLru)
      → equals k k' ≡ true
      → find (insert c k v) k' ≡ some v
  pub find-touch : (c : C) (k k' : LruKey) → find (touch c k) k' ≡ find c k'

-- `cache` and the static `value_local`, which every pointer of a lookup points to
pub record LruMap (C : Type 0) : Type 0 where
  pub cache : C
  pub value_local : RealPosLru

module _ {C : Type 0} (lru : Cache C) where
  -- whether the result is `&value_local` and not the null pointer
  unfoldable pub lru_hash_map_elem_lookup : LruMap C → LruKey → LruMap C × Bool
  lru_hash_map_elem_lookup map key = elim (lru.find map.cache key) [
    | none ↦ (map, false)
    | some v ↦ (record { cache = lru.touch map.cache key; value_local = v }, true)
  ]

  unfoldable pub lru_hash_map_elem_update : LruMap C → LruKey → RealPosLru → LruMap C × ℕ
  lru_hash_map_elem_update map key value =
      (record map { cache = lru.insert map.cache key value }, 0)

-- 0 is success
unfoldable pub lru_hash_map_elem_delete : {C : Type 0} → LruMap C → LruKey → LruMap C × ℕ
lru_hash_map_elem_delete map key = (map, 0)

-- `next_key` is left as it is
unfoldable pub lru_hash_map_get_next_key : {C : Type 0} → LruMap C → LruKey → LruKey → LruKey × ℕ
lru_hash_map_get_next_key map key next_key = (next_key, 0)

-- a program's store through the pointer of a lookup
unfoldable pub store : {C : Type 0} → LruMap C → RealPosLru → LruMap C
store map v = record map { value_local = v }
