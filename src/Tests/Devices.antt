-- ===== src/Tests/Devices.antt =====
-- the device map of module/maps.cpp after concrete calls
use userspace_xdp.Prelude.{suc, ◌≡◌, refl, List, [], ◌∷◌, length, map, none, some}
use userspace_xdp.Runtime.DevMap.{
  elem_lookup_static, elem_update_static, erase, elem_delete_static, elem_get_next_key_static,
}
use userspace_xdp.Runtime.DevMap.Finite.{
  IsSorted, Op, update, delete, run, run_function, above, walk, run-run_function-walk,
}

abbrev calls : List Op
calls = update 5 50 ∷ update 3 30 ∷ delete 9 ∷ update 5 51 ∷ update 8 80 ∷ delete 3 ∷ []

kept : elem_lookup_static (run calls []) 5 ≡ some 51
unfolding elem_lookup_static run elem_update_static elem_delete_static erase
kept = refl

in_order : walk (run calls []) 3 0 ≡ 5 ∷ 8 ∷ []
unfolding walk elem_get_next_key_static elem_lookup_static run elem_update_static elem_delete_static
    erase
in_order = refl

run-run_function-walk_example :
    IsSorted 0 (run calls [])
    × (elem_lookup_static (run calls []) 5 ≡ run_function calls (λ i. none) 5)
    × (walk (run calls []) (suc (length (run calls []))) 0
        ≡ map (λ e. e.key) (above 0 (run calls [])))
run-run_function-walk_example = run-run_function-walk calls 5 0
