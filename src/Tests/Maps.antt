-- ===== src/Tests/Maps.antt =====
-- Maps as functions: an instance of the interface `BpfMap`, for the theorems that take maps.
use userspace_xdp.Prelude.{◌≡◌, refl, sym, ap, ◌∙◌, Bool, true, Option, none, some, if◌then◌else◌}
use userspace_xdp.Xdp.Maps.{BpfMap}

-- what an update's result holds for a key
abbrev pub after : {K V : Type 0} → Option (K → Option V) → K → Option V
after none k = none
after (some s) k = s k

unfoldable pub put : {K V : Type 0} → (K → K → Bool) → (K → Option V) → K → V → K → Option V
put test s k v j = if test k j then some v else s j

pub put_self :
    {K V : Type 0}
    → (test : K → K → Bool) → ((k : K) → test k k ≡ true)
    → (s : K → Option V) (k : K) (v : V) → put test s k v k ≡ some v
unfolding put
put_self test same s k v = rw (same k) refl

-- `test` compares two keys
unfoldable pub function_map :
    {K V : Type 0} → (test : K → K → Bool) → ((k : K) → test k k ≡ true) → BpfMap (K → Option V) K V
function_map test same = record {
  lookup = λ s k. s k;
  write = λ s k v. put test s k v;
  update = λ s k v. some (put test s k v);
  lookup-write = λ s k v v' h. put_self test same s k v';
  lookup-update = λ s s' k v e. sym (ap (λ o. after o k) e) ∙ put_self test same s k v;
}

-- a map without entries that takes none
unfoldable pub empty_map : {S K V : Type 0} → BpfMap S K V
empty_map = record {
  lookup = λ s k. none;
  write = λ s k v. s;
  update = λ s k v. none;
  lookup-write = λ s k v v' h. absurd (cc);
  lookup-update = λ s s' k v e. absurd (cc);
}
