-- ===== src/HashMap.antt =====
-- xdp_progs/includes/hash_map.h: a hash table with open addressing and linear probing in one
-- buffer of bytes. Slot i stands at i * (4 + key_size + value_size): a 32-bit flag (0 if the slot
-- is empty), the key's bytes, the value's bytes. A key or a value is the memory that it points to.
pub mod Scan
pub mod Slots
pub mod Update
pub mod Contract
use userspace_xdp.Prelude.{
  ℕ, zero, suc, ◌+◌, ◌*◌, ◌%◌, ◌^◌, Bool, true, false, Option, none, some, ◌==◌, if◌then◌else◌, Mem,
  get32, put8, put32,
}

-- `bpftime_hash_map_t`
pub record HashMap : Type 0 where
  pub num_buckets : ℕ
  pub key_size : ℕ
  pub value_size : ℕ
  pub data_buffer : Mem

unfoldable pub get_elem_offset : HashMap → ℕ → ℕ
get_elem_offset map index = index * (4 + map.key_size + map.value_size) % 2 ^ 32

-- the loop of `hash_func` from byte `i` on
unfoldable pub hash_from : Mem → ℕ → ℕ → ℕ → ℕ
hash_from key i zero hash = hash
hash_from key i (suc n) hash = hash_from key (i + 1) n ((hash * 31 + key i) % 2 ^ 32)

unfoldable pub hash_func : Mem → ℕ → ℕ
unfolding hash_from
hash_func key key_size = hash_from key 0 key_size 0

unfoldable pub is_empty : HashMap → ℕ → Bool
is_empty map index = get32 map.data_buffer (get_elem_offset map index) == 0

unfoldable pub set_empty : HashMap → ℕ → HashMap
set_empty map index = record map {
  data_buffer = put32 map.data_buffer (get_elem_offset map index) 0;
}

unfoldable pub set_filled : HashMap → ℕ → HashMap
set_filled map index = record map {
  data_buffer = put32 map.data_buffer (get_elem_offset map index) 1;
}

-- the addresses, in the buffer, of a slot's key and value
unfoldable pub get_key : HashMap → ℕ → ℕ
get_key map index = get_elem_offset map index + 4

unfoldable pub get_value : HashMap → ℕ → ℕ
get_value map index = get_elem_offset map index + 4 + map.key_size

-- the loop that compares `n` bytes from byte `i` on and stops at the first that differs
unfoldable pub match_from : Mem → ℕ → Mem → ℕ → ℕ → Bool
match_from m a key i zero = true
match_from m a key i (suc n) =
    let rest = match_from m a key (i + 1) n in if m (a + i) == key i then rest else false

unfoldable pub matches : HashMap → Mem → ℕ → Bool
unfolding match_from
matches map key index = match_from map.data_buffer (get_key map index) key 0 map.key_size

-- the loop that copies `n` bytes
unfoldable pub write_bytes : Mem → ℕ → Mem → ℕ → Mem
write_bytes m dst src zero = m
write_bytes m dst src (suc n) = put8 (write_bytes m dst src n) (dst + n) (src n)

-- where the `do ... while (index != start_index)` loop of a lookup, an update or a delete stops:
-- at an empty slot, at a slot that holds the key, or back at its start
pub data Stop : Type 0 where
  vacant : ℕ → Stop
  hit : ℕ → Stop
  full : Stop
  out_of_fuel : Stop

unfoldable pub probe_from : ℕ → HashMap → Mem → ℕ → ℕ → Stop
probe_from zero map key start index = out_of_fuel
probe_from (suc fuel) map key start index =
    let next = (index + 1) % map.num_buckets in
    let rest = probe_from fuel map key start next in
    if is_empty map index
    then vacant index
    else if matches map key index
    then hit index
    else if next == start
    then full
    else rest

unfoldable pub start_index : HashMap → Mem → ℕ
start_index map key = hash_func key map.key_size % map.num_buckets

-- A round for each bucket is enough (`Slots.probe-first`).
unfoldable pub probe : HashMap → Mem → Stop
unfolding probe_from start_index
probe map key = probe_from map.num_buckets map key (start_index map key) (start_index map key)

-- The value's address in the buffer, or `none` for the null pointer.
unfoldable pub elem_lookup : HashMap → Mem → Option ℕ
elem_lookup map key = elim (probe map key) [ hit i ↦ some (get_value map i) | _ ↦ none ]

unfoldable pub fill : HashMap → Mem → Mem → ℕ → HashMap
unfolding write_bytes
fill map key value i =
    let keyed = write_bytes map.data_buffer (get_key map i) key map.key_size in
    let valued = write_bytes keyed (get_value map i) value map.value_size in
    set_filled (record map { data_buffer = valued }) i

-- the new table, and whether the call returned 1
unfoldable pub elem_update : HashMap → Mem → Mem → HashMap × Bool
elem_update map key value = elim (probe map key) [
  | vacant i ↦ (fill map key value i, true)
  | hit i ↦ (fill map key value i, true)
  | _ ↦ (map, false)
]

unfoldable pub elem_delete : HashMap → Mem → HashMap × Bool
elem_delete map key = elim (probe map key) [ hit i ↦ (set_empty map i, true) | _ ↦ (map, false) ]

-- the loop of `get_elem_count` over the slots from `i` on
unfoldable pub count_from : HashMap → ℕ → ℕ → ℕ
count_from map i zero = 0
count_from map i (suc n) = (if is_empty map i then 0 else 1) + count_from map (i + 1) n

unfoldable pub get_elem_count : HashMap → ℕ
unfolding count_from
get_elem_count map = count_from map 0 map.num_buckets
