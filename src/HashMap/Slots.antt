-- ===== src/HashMap/Slots.antt =====
-- The table's buffer as slots: what a write of one slot does to the tests and the bytes of each.
use userspace_xdp.Prelude.{
  ℕ, zero, suc, ◌+◌, ◌-◌, ◌*◌, ◌%◌, ◌^◌, ◌≤◌, ◌<◌, ◌≡◌, ◌≢◌, refl, arith, true, false, ◌==◌,
  if◌then◌else◌, Mem, IsBytes, get32, put8, put32, within,
}
use native.Mathlib.Nat.{mod-add-mod, mod-eq_of_lt, mod-eq-sub-mod}
use native.Mathlib.Decide.{dec_lt, ℕ_discrete}
use userspace_xdp.HashMap.{
  HashMap, get_elem_offset, is_empty, matches, match_from, get_key, get_value, write_bytes, fill,
  set_filled, probe_from, probe, start_index,
}
use userspace_xdp.HashMap.Scan.{first}

-- `size` is the size of a slot; the buffer's size does not overflow an `unsigned int`.
abbrev pub slot_size : HashMap → ℕ
slot_size map = 4 + map.key_size + map.value_size

pub record IsSized (map : HashMap) : Type 0 where
  pub some_bucket : 0 < map.num_buckets
  pub fits : map.num_buckets * slot_size map < 2 ^ 32

slot_in : (i n k : ℕ) → i < n → i * k + k ≤ n * k
slot_in i n k h = grind arith

-- Where a slot stands; the slots do not overlap.
pub offset-eq :
    (map : HashMap) (i : ℕ)
    → IsSized map
    → i < map.num_buckets
    → (get_elem_offset map i ≡ i * slot_size map)
      × (i * slot_size map + slot_size map ≤ map.num_buckets * slot_size map)
unfolding get_elem_offset
offset-eq map i z h = omega (arith, slot_in i map.num_buckets (slot_size map) h, z.fits)

pub write_bytes-eq :
    (m : Mem) (dst : ℕ) (src : Mem) (n i : ℕ)
    → IsBytes src
    → write_bytes m dst src n i ≡ (if within dst n i then src (i - dst) else m i)
unfolding write_bytes put8
write_bytes-eq m dst src zero i b = ground arith
write_bytes-eq m dst src (suc n) i b = ground (arith, write_bytes-eq m dst src n i b, b n)

-- the comparison loop: all the bytes agree
pub match_from_sound :
    (m : Mem) (a : ℕ) (key : Mem) (i n t : ℕ)
    → match_from m a key i n ≡ true
    → i ≤ t
    → t < i + n
    → m (a + t) ≡ key t
unfolding match_from
match_from_sound m a key i zero t h l u = absurd (omega arith)
match_from_sound m a key i (suc n) t h l u = ground (arith, match_from_sound m a key (i + 1) n t)

pub match_from_complete :
    (m : Mem) (a : ℕ) (key : Mem) (i n : ℕ)
    → ((t : ℕ) → i ≤ t → t < i + n → m (a + t) ≡ key t)
    → match_from m a key i n ≡ true
unfolding match_from
match_from_complete m a key i zero h = refl
match_from_complete m a key i (suc n) h = ground (
  arith,
  h i (omega arith) (omega arith),
  match_from_complete m a key (i + 1) n (λ t l u. h t (omega arith) (omega arith)),
)

pub match_from_congr :
    (m m' : Mem) (a a' : ℕ) (key : Mem) (i n : ℕ)
    → ((t : ℕ) → i ≤ t → t < i + n → m (a + t) ≡ m' (a' + t))
    → match_from m a key i n ≡ match_from m' a' key i n
unfolding match_from
match_from_congr m m' a a' key i zero h = refl
match_from_congr m m' a a' key i (suc n) h = rw (
  h i (omega arith) (omega arith),
  match_from_congr m m' a a' key (i + 1) n (λ t l u. h t (omega arith) (omega arith)),
)

put32-one :
    (m : Mem) (a j : ℕ) → put32 m a 1 j ≡ (if within a 4 j then (if j == a then 1 else 0) else m j)
unfolding put32
put32-one m a j = ground arith

-- A slot's flag, key and value after slot `i` has been written.
module _ (map : HashMap) (z : IsSized map) (key value : Mem) (bk : IsBytes key) (bv : IsBytes value)
    (i : ℕ) (hi : i < map.num_buckets) where
  byte-fill :
      (a : ℕ)
      → (fill map key value i).data_buffer a ≡ (
          if within (i * slot_size map) 4 a
          then (if a == i * slot_size map then 1 else 0)
          else if within (i * slot_size map + 4) map.key_size a
          then key (a - (i * slot_size map + 4))
          else if within (i * slot_size map + 4 + map.key_size) map.value_size a
          then value (a - (i * slot_size map + 4 + map.key_size))
          else map.data_buffer a)
  unfolding fill set_filled get_key get_value get_elem_offset
  byte-fill a =
      let base = i * slot_size map in
      let e : base % 2 ^ 32 ≡ base =
        omega (arith, slot_in i map.num_buckets (slot_size map) hi, z.fits) in
      rw
        (
          put32-one,
          write_bytes-eq _ _ value map.value_size a bv,
          write_bytes-eq _ _ key map.key_size a bk,
          e,
        )
        (ground arith)

  -- another slot keeps its bytes
  byte-other :
      (j t : ℕ)
      → j < map.num_buckets
      → j ≢ i
      → t < slot_size map
      → (fill map key value i).data_buffer (j * slot_size map + t)
        ≡ map.data_buffer (j * slot_size map + t)
  byte-other j t hj ne ht =
      let below = λ (h : i < j). slot_in i j (slot_size map) h in
      let above = λ (h : j < i). slot_in j i (slot_size map) h in
      elim (dec_lt i j) [
        | yes lt ↦ rw byte-fill (ground (arith, slot_in i j (slot_size map) lt))
        | no ge ↦ rw byte-fill (ground (arith, slot_in j i (slot_size map) (omega arith)))
      ]

  byte_at :
      (j t : ℕ)
      → j < map.num_buckets
      → j ≢ i
      → t < slot_size map
      → (a : ℕ) → a ≡ j * slot_size map + t
      → (fill map key value i).data_buffer a ≡ map.data_buffer a
  byte_at j t hj ne ht a e = rw e (byte-other j t hj ne ht)

  flag-fill_self : get32 (fill map key value i).data_buffer (i * slot_size map) ≡ 1
  unfolding get32
  flag-fill_self = simp byte-fill (ground arith)

  flag-fill_ne :
      (j : ℕ)
      → j < map.num_buckets
      → j ≢ i
      → get32 (fill map key value i).data_buffer (j * slot_size map)
        ≡ get32 map.data_buffer (j * slot_size map)
  unfolding get32
  flag-fill_ne j hj ne =
      let b = byte_at j in
      omega (
        arith,
        b 0 hj ne (omega arith) (j * slot_size map) (omega arith),
        b 1 hj ne (omega arith) (j * slot_size map + 1) (omega arith),
        b 2 hj ne (omega arith) (j * slot_size map + 2) (omega arith),
        b 3 hj ne (omega arith) (j * slot_size map + 2 + 1) (omega arith),
      )

  offset-fill : (j : ℕ) → get_elem_offset (fill map key value i) j ≡ get_elem_offset map j
  unfolding fill set_filled get_elem_offset
  offset-fill j = refl

  key_size-fill : (fill map key value i).key_size ≡ map.key_size
  unfolding fill set_filled
  key_size-fill = refl

  pub is_empty-fill :
      (j : ℕ)
      → j < map.num_buckets
      → is_empty (fill map key value i) j ≡ (if j == i then false else is_empty map j)
  unfolding is_empty
  is_empty-fill j hj =
      let o = (offset-eq map j z hj).0 in
      elim (ℕ_discrete j i) [
        | yes e ↦ rw (offset-fill, o, e, flag-fill_self) (ground arith)
        | no ne ↦ rw (offset-fill, o, flag-fill_ne j hj ne) (ground arith)
      ]

  pub matches-fill :
      (k : Mem) (j : ℕ)
      → j < map.num_buckets
      → matches (fill map key value i) k j
        ≡ (if j == i then match_from key 0 k 0 map.key_size else matches map k j)
  unfolding matches get_key
  matches-fill k j hj =
      let o = (offset-eq map j z hj).0 in
      let n = map.key_size in
      elim (ℕ_discrete j i) [
        | yes e ↦
            let same : (t : ℕ)
                → 0 ≤ t
                → t < 0 + n
                → (fill map key value i).data_buffer (i * slot_size map + 4 + t) ≡ key (0 + t) =
              λ t l u. rw byte-fill (ground arith) in
            rw (offset-fill, o, key_size-fill, e, match_from_congr _ key _ 0 k 0 n same)
              (ground arith)
        | no ne ↦
            let same : (t : ℕ)
                → 0 ≤ t
                → t < 0 + n
                → (fill map key value i).data_buffer (j * slot_size map + 4 + t)
                  ≡ map.data_buffer (j * slot_size map + 4 + t) =
              λ t l u. byte_at j (4 + t) hj ne (omega arith) _ (omega arith) in
            rw (offset-fill, o, key_size-fill, match_from_congr _ map.data_buffer _ _ k 0 n same)
              (ground arith)
      ]

  -- the value written is the value read
  pub value-fill :
      (t : ℕ)
      → t < map.value_size
      → (fill map key value i).data_buffer (get_value map i + t) ≡ value t
  unfolding get_value
  value-fill t ht = rw ((offset-eq map i z hi).0, byte-fill) (ground arith)

  pub value-fill_ne :
      (j t : ℕ)
      → j < map.num_buckets
      → j ≢ i
      → t < map.value_size
      → (fill map key value i).data_buffer (get_value map j + t)
        ≡ map.data_buffer (get_value map j + t)
  unfolding get_value
  value-fill_ne j t hj ne ht =
      rw ((offset-eq map j z hj).0)
        (byte_at j (4 + map.key_size + t) hj ne (omega arith) _ (omega arith))

  pub key-fill :
      (t : ℕ)
      → t < map.key_size
      → (fill map key value i).data_buffer (get_key (fill map key value i) i + t) ≡ key t
  unfolding get_key
  key-fill t ht = rw (offset-fill, (offset-eq map i z hi).0, byte-fill) (ground arith)

  pub key-fill_ne :
      (j t : ℕ)
      → j < map.num_buckets
      → j ≢ i
      → t < map.key_size
      → (fill map key value i).data_buffer (get_key (fill map key value i) j + t)
        ≡ map.data_buffer (get_key map j + t)
  unfolding get_key
  key-fill_ne j t hj ne ht =
      rw (offset-fill, (offset-eq map j z hj).0)
        (byte_at j (4 + t) hj ne (omega arith) _ (omega arith))

mod-next : (a n : ℕ) → 0 < n → (a % n + 1) % n ≡ (a + 1) % n
mod-next a n p = rw mod-add-mod

mod-round : (s n : ℕ) → s < n → (s + n) % n ≡ s
mod-round s n h = grind arith

mod-apart : (s d n : ℕ) → s < n → 0 < d → d < n → (s + d) % n ≢ s
mod-apart s d n h p q = elim (dec_lt (s + d) n) [
  | yes lt ↦ omega (arith, mod-eq_of_lt lt)
  | no ge ↦ omega (
    arith,
    mod-eq-sub-mod {n = s + d} {m = n} (omega arith),
    mod-eq_of_lt {n = s + d - n} {m = n} (omega arith),
  )
]

-- The loop of the code is the search along the slots, and a round for each bucket is enough.
module _ (map : HashMap) (key : Mem) (z : IsSized map) (s : ℕ) (hs : s < map.num_buckets) where
  probe_from-first :
      (f d : ℕ)
      → d + suc f ≡ map.num_buckets
      → probe_from (suc f) map key s ((s + d) % map.num_buckets)
        ≡ first (is_empty map) (matches map key) map.num_buckets s d (suc f)
  unfolding probe_from first
  probe_from-first zero d h =
      let e : s + d + 1 ≡ s + map.num_buckets = omega arith in
      let next : ((s + d) % map.num_buckets + 1) % map.num_buckets ≡ s =
        rw (mod-next (s + d) map.num_buckets z.some_bucket, e) (mod-round s map.num_buckets hs) in
      ground (arith, next)
  probe_from-first (suc f) d h =
      let e : s + (d + 1) ≡ s + d + 1 = omega arith in
      let next : ((s + d) % map.num_buckets + 1) % map.num_buckets
          ≡ (s + (d + 1)) % map.num_buckets =
        rw (mod-next (s + d) map.num_buckets z.some_bucket, e) in
      ground (arith, next, mod-apart s (d + 1) map.num_buckets hs, probe_from-first f (d + 1))

  probe_from_start :
      probe_from map.num_buckets map key s s
      ≡ first (is_empty map) (matches map key) map.num_buckets s 0 map.num_buckets
  probe_from_start =
      let n = map.num_buckets in
      let e : suc (n - 1) ≡ n = omega (arith, z.some_bucket) in
      let e' : (s + 0) % n ≡ s = let e2 : s + 0 ≡ s = omega arith in rw e2 (mod-eq_of_lt hs) in
      rw (e, e') at (probe_from-first (n - 1) 0 (omega arith))

pub probe-first :
    (map : HashMap) (key : Mem)
    → IsSized map
    → probe map key
      ≡ first
          (is_empty map)
          (matches map key)
          map.num_buckets
          (start_index map key)
          0
          map.num_buckets
unfolding probe start_index
probe-first map key z = probe_from_start map key z _ (omega (arith, z.some_bucket))
