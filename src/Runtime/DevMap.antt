-- ===== src/Runtime/DevMap.antt =====
-- module/maps.cpp: the device map, a `std::map<int, int>`. It is the list of its entries in the order of
-- their keys; an `int` k stands for the number k + 2 ^ 31, which keeps the order.
pub mod Finite
use userspace_xdp.Prelude.{
  ℕ, zero, suc, ◌+◌, ◌≤◌, ◌<◌, ◌≡◌, ◌≢◌, refl, sym, ◌∙◌, ap, arith, Bool, true, false, Bool-cases,
  inl, inr, List, [], ◌∷◌, length, map, Option, none, some, ltb, leb, ◌==◌, if◌then◌else◌,
}

-- an entry
pub record Entry : Type 0 where
  pub key : ℕ
  pub value : ℕ

-- `find`, and `elem_lookup_static`, which gives the entry's value
unfoldable pub elem_lookup_static : List Entry → ℕ → Option ℕ
elem_lookup_static [] k = none
elem_lookup_static (e ∷ es) k = if e.key == k then some e.value else elem_lookup_static es k

-- `dev_hash_map[k] = v`
unfoldable pub elem_update_static : List Entry → ℕ → ℕ → List Entry
elem_update_static [] k v = record { key = k; value = v } ∷ []
elem_update_static (e ∷ es) k v =
    let rest = elem_update_static es k v in
    let here : Entry = record { key = k; value = v } in
    if ltb k e.key then here ∷ e ∷ es else if k == e.key then here ∷ es else e ∷ rest

unfoldable pub erase : List Entry → ℕ → List Entry
erase [] k = []
erase (e ∷ es) k = let rest = erase es k in if e.key == k then es else e ∷ rest

-- `none` is -1: there is no such key
unfoldable pub elem_delete_static : List Entry → ℕ → Option (List Entry)
unfolding erase elem_lookup_static
elem_delete_static es k = elim (elem_lookup_static es k) [
  | none ↦ none
  | some v ↦ some (erase es k)
]

-- `upper_bound`: the first key above `k`; `none` is -1
unfoldable pub elem_get_next_key_static : List Entry → ℕ → Option ℕ
elem_get_next_key_static [] k = none
elem_get_next_key_static (e ∷ es) k =
    if ltb k e.key then some e.key else elem_get_next_key_static es k
