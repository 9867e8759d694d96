-- ===== src/Tests/Table.antt =====
-- The hash table of xdp_progs/includes/hash_map.h at small tables.
use userspace_xdp.Prelude.{
  ℕ, ◌+◌, ◌<◌, ◌≡◌, ◌≢◌, refl, arith, true, false, some, none, Mem, IsBytes, get16, get32,
}
use userspace_xdp.HashMap.{
  HashMap, hit, out_of_fuel, is_empty, matches, match_from, get_key, get_elem_offset, probe,
  probe_from, start_index, hash_func, hash_from, elem_lookup, elem_update, elem_delete,
}
use userspace_xdp.HashMap.Slots.{IsSized}
use userspace_xdp.HashMap.Update.{IsReachable, SameKey}
use userspace_xdp.HashMap.Contract.{
  lookup-update, lookup-update_ne, update-IsReachable, update_full, delete_hides,
  probe-ne-out_of_fuel,
}

-- four empty slots, and one slot that holds the key of one byte 1
abbrev blank : HashMap
blank = record { num_buckets = 4; key_size = 4; value_size = 4; data_buffer = λ _. 0 }

abbrev taken : HashMap
taken = record { num_buckets = 1; key_size = 1; value_size = 1; data_buffer = λ _. 1 }

abbrev ones : Mem
ones i = 1

abbrev sevens : Mem
sevens i = 7

abbrev nines : Mem
nines i = 9

blank-IsSized : IsSized blank
blank-IsSized = record { some_bucket = omega arith; fits = omega arith }

taken-IsSized : IsSized taken
taken-IsSized = record { some_bucket = omega arith; fits = omega arith }

sevens-IsBytes : IsBytes sevens
sevens-IsBytes i = omega arith

nines-IsBytes : IsBytes nines
nines-IsBytes i = omega arith

blank-empty : (j : ℕ) → is_empty blank j ≡ true
unfolding is_empty get32 get16
blank-empty j = refl

blank-IsReachable : IsReachable blank
blank-IsReachable = record { finds = λ j l e. absurd (let q = blank-empty j in cc) }

differ : SameKey 4 sevens ones → ⊥
differ h = absurd (let q = h 0 (omega arith) in omega arith)

updated : (elem_update blank sevens nines).1 ≡ true
unfolding elem_update probe probe_from start_index hash_func hash_from is_empty get_elem_offset
    get32 get16
updated = refl

refused : (elem_update taken sevens nines).1 ≡ false
unfolding elem_update probe probe_from start_index hash_func hash_from is_empty matches match_from
    get_key get_elem_offset get32 get16
refused = refl

found : probe taken ones ≡ hit (start_index taken sevens)
unfolding probe probe_from start_index hash_func hash_from is_empty matches match_from get_key
    get_elem_offset get32 get16
found = refl

lookup-update_example :
    (a : ℕ) × (elem_lookup (elem_update blank sevens nines).0 sevens ≡ some a)
    × ((t : ℕ) → t < 4 → (elem_update blank sevens nines).0.data_buffer (a + t) ≡ 9)
lookup-update_example =
    lookup-update blank blank-IsSized sevens nines sevens-IsBytes nines-IsBytes updated

lookup-update_ne_example :
    (elem_lookup (elem_update blank sevens nines).0 ones ≡ elem_lookup blank ones)
    × ((a t : ℕ)
        → elem_lookup blank ones ≡ some a
        → t < 4
        → (elem_update blank sevens nines).0.data_buffer (a + t) ≡ 0)
lookup-update_ne_example =
    lookup-update_ne blank blank-IsSized sevens nines sevens-IsBytes nines-IsBytes ones
      blank-IsReachable differ

update-IsReachable_example : IsReachable (elem_update blank sevens nines).0
update-IsReachable_example =
    update-IsReachable blank blank-IsSized sevens nines sevens-IsBytes nines-IsBytes
      blank-IsReachable

update_full_example :
    ((elem_update taken sevens nines).0 ≡ taken)
    × ((j : ℕ) → j < 1 → (is_empty taken j ≡ false) × (matches taken sevens j ≡ false))
update_full_example =
    update_full taken taken-IsSized sevens nines sevens-IsBytes nines-IsBytes refused

probe-ne-out_of_fuel_example : probe blank sevens ≢ out_of_fuel
probe-ne-out_of_fuel_example = probe-ne-out_of_fuel blank sevens blank-IsSized

delete_hides_example :
    ((elem_delete taken ones).1 ≡ true) × (elem_lookup (elem_delete taken ones).0 sevens ≡ none)
delete_hides_example = delete_hides taken ones sevens taken-IsSized found
