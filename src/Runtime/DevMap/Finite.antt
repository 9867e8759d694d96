-- ===== src/Runtime/DevMap/Finite.antt =====
-- The device map is a finite map, and stepping from key to key goes through its keys in order.
use userspace_xdp.Prelude.{
  ℕ, zero, suc, ◌≤◌, ◌<◌, ◌≡◌, refl, sym, ◌∙◌, ap, subst, arith, true, false, Bool-cases, inl, inr,
  List, [], ◌∷◌, length, map, Option, Option-cases, none, some, ◌⊎◌, ltb, ◌==◌, if◌then◌else◌,
}
use userspace_xdp.Runtime.DevMap.{
  Entry, elem_lookup_static, elem_update_static, erase, elem_delete_static,
  elem_get_next_key_static,
}

-- the keys stand in their order, all of them at least `b`
unfoldable pub IsSorted : ℕ → List Entry → Type 0
IsSorted b [] = Unit {0}
IsSorted b (e ∷ es) = (b ≤ e.key) × IsSorted (suc e.key) es

IsSorted-lookup :
    (b k : ℕ) (es : List Entry) → IsSorted b es → k < b → elem_lookup_static es k ≡ none
unfolding IsSorted elem_lookup_static
IsSorted-lookup b k [] s l = refl
IsSorted-lookup b k (e ∷ es) s l =
    let rest = IsSorted-lookup (suc e.key) k es s.1 (omega (arith, s.0, l)) in
    let ne : (e.key == k) ≡ false = ground (arith, s.0, l) in rw ne rest

lookup-update :
    (es : List Entry) (k v j : ℕ)
    → elem_lookup_static (elem_update_static es k v) j
      ≡ (if k == j then some v else elem_lookup_static es j)
unfolding elem_lookup_static elem_update_static
lookup-update [] k v j = refl
lookup-update (e ∷ es) k v j = ground (arith, lookup-update es k v j)

update-IsSorted :
    (b : ℕ) (es : List Entry) (k v : ℕ)
    → b ≤ k
    → IsSorted b es
    → IsSorted b (elem_update_static es k v)
unfolding IsSorted elem_update_static
update-IsSorted b [] k v l s = (l, tt)
update-IsSorted b (e ∷ es) k v l s = elim (Bool-cases (ltb k e.key)) [
  | inl c ↦ rw c (l, (ground arith, s.1))
  | inr c ↦ elim (Bool-cases (k == e.key)) [
    | inl c' ↦
        let q : k ≡ e.key = ground arith in
        rw (c, c') (l, subst (λ a. IsSorted (suc a) es) (sym q) s.1)
    | inr c' ↦ rw (c, c') (s.0, update-IsSorted (suc e.key) es k v (ground arith) s.1)
  ]
]

IsSorted-weaken : (b c : ℕ) (es : List Entry) → b ≤ c → IsSorted c es → IsSorted b es
unfolding IsSorted
IsSorted-weaken b c [] l s = tt
IsSorted-weaken b c (e ∷ es) l s = (omega (arith, l, s.0), s.1)

erase-IsSorted : (b : ℕ) (es : List Entry) (k : ℕ) → IsSorted b es → IsSorted b (erase es k)
unfolding IsSorted erase
erase-IsSorted b [] k s = tt
erase-IsSorted b (e ∷ es) k s =
    let rest = erase-IsSorted (suc e.key) es k s.1 in
    elim (Bool-cases (e.key == k)) [
      | inl c ↦ rw c (IsSorted-weaken b (suc e.key) es (omega (arith, s.0)) s.1)
      | inr c ↦ rw c (s.0, rest)
    ]

lookup-erase :
    (b : ℕ) (es : List Entry) (k j : ℕ)
    → IsSorted b es
    → elem_lookup_static (erase es k) j ≡ (if k == j then none else elem_lookup_static es j)
unfolding elem_lookup_static erase IsSorted
lookup-erase b [] k j s = ground arith
lookup-erase b (e ∷ es) k j s =
    let rest = lookup-erase (suc e.key) es k j s.1 in
    elim (Bool-cases (e.key == k)) [
      | inl c ↦ elim (Bool-cases (k == j)) [
        | inl d ↦ rw (c, d) (IsSorted-lookup (suc e.key) j es s.1 (ground (arith, c, d)))
        | inr d ↦ let other : (e.key == j) ≡ false = ground (arith, c, d) in rw (c, d, other) refl
      ]
      | inr c ↦ ground (arith, rest, c)
    ]

abbrev pub or_same : List Entry → Option (List Entry) → List Entry
or_same es none = es
or_same es (some es') = es'

erase-missing : (es : List Entry) (k : ℕ) → elem_lookup_static es k ≡ none → erase es k ≡ es
unfolding erase elem_lookup_static
erase-missing [] k q = refl
erase-missing (e ∷ es) k q = ground (arith, q, erase-missing es k)

delete-erase : (es : List Entry) (k : ℕ) → or_same es (elem_delete_static es k) ≡ erase es k
unfolding elem_delete_static
delete-erase es k = elim (Option-cases (elem_lookup_static es k)) [
  | inl q ↦
      ap
        (λ o.
          or_same es
            (elim o as (λ x. Option (List Entry)) [ none ↦ none | some v ↦ some (erase es k) ]))
        q
      ∙ sym (erase-missing es k q)
  | inr (v, q) ↦
      ap
        (λ o.
          or_same es
            (elim o as (λ x. Option (List Entry)) [ none ↦ none | some w ↦ some (erase es k) ]))
        q
]

delete-IsSorted :
    (es : List Entry) (k : ℕ) → IsSorted 0 es → IsSorted 0 (or_same es (elem_delete_static es k))
delete-IsSorted es k s = subst (IsSorted 0) (sym (delete-erase es k)) (erase-IsSorted 0 es k s)

lookup-delete :
    (es : List Entry) (k j : ℕ)
    → IsSorted 0 es
    → elem_lookup_static (or_same es (elem_delete_static es k)) j
      ≡ (if k == j then none else elem_lookup_static es j)
lookup-delete es k j s =
    ap (λ es'. elem_lookup_static es' j) (delete-erase es k) ∙ lookup-erase 0 es k j s

-- a call that changes the map
pub data Op : Type 0 where
  update : ℕ → ℕ → Op
  delete : ℕ → Op

-- the entries after a list of calls; a delete that fails changes nothing
unfoldable pub run : List Op → List Entry → List Entry
run [] es = es
run (update k v ∷ ops) es = run ops (elem_update_static es k v)
run (delete k ∷ ops) es = run ops (or_same es (elem_delete_static es k))

-- the same calls on a function
unfoldable pub run_function : List Op → (ℕ → Option ℕ) → ℕ → Option ℕ
run_function [] f = f
run_function (update k v ∷ ops) f = run_function ops (λ j. if k == j then some v else f j)
run_function (delete k ∷ ops) f = run_function ops (λ j. if k == j then none else f j)

-- the entries above `k`
unfoldable pub above : ℕ → List Entry → List Entry
above k [] = []
above k (e ∷ es) = if ltb k e.key then e ∷ es else above k es

-- `elem_get_next_key_static` again and again from `k` on, at most `n` times
unfoldable pub walk : List Entry → ℕ → ℕ → List ℕ
walk es zero k = []
walk es (suc n) k = elim (elem_get_next_key_static es k) [ none ↦ [] | some k' ↦ k' ∷ walk es n k' ]

run-IsSorted : (ops : List Op) (es : List Entry) → IsSorted 0 es → IsSorted 0 (run ops es)
unfolding run
run-IsSorted [] es s = s
run-IsSorted (update k v ∷ ops) es s =
    run-IsSorted ops (elem_update_static es k v) (update-IsSorted 0 es k v (omega arith) s)
run-IsSorted (delete k ∷ ops) es s =
    run-IsSorted ops (or_same es (elem_delete_static es k)) (delete-IsSorted es k s)

run-run_function :
    (ops : List Op) (es : List Entry) (f : ℕ → Option ℕ)
    → IsSorted 0 es
    → ((j : ℕ) → elem_lookup_static es j ≡ f j)
    → (j : ℕ) → elem_lookup_static (run ops es) j ≡ run_function ops f j
unfolding run run_function
run-run_function [] es f s same j = same j
run-run_function (update k v ∷ ops) es f s same j =
    run-run_function ops (elem_update_static es k v) (λ i. if k == i then some v else f i)
      (update-IsSorted 0 es k v (omega arith) s)
      (λ i. lookup-update es k v i ∙ ap (λ o. if k == i then some v else o) (same i)) j
run-run_function (delete k ∷ ops) es f s same j =
    run-run_function ops (or_same es (elem_delete_static es k)) (λ i. if k == i then none else f i)
      (delete-IsSorted es k s)
      (λ i. lookup-delete es k i s ∙ ap (λ o. if k == i then none else o) (same i)) j

above-all : (b : ℕ) (es : List Entry) → IsSorted (suc b) es → above b es ≡ es
unfolding above IsSorted
above-all b [] s = refl
above-all b (e ∷ es) s = let c : ltb b e.key ≡ true = ground (arith, s.0) in rw c refl

-- the next key is the first of the keys above, and the others are above it
unfoldable pub IsNext : List Entry → ℕ → Entry → List Entry → Type 0
IsNext es k e rest =
    (elem_get_next_key_static es k ≡ some e.key)
    × (above k es ≡ e ∷ rest)
    × (above e.key es ≡ rest)
    × (k < e.key)

IsNext-above :
    (b : ℕ) (es : List Entry) (k : ℕ)
    → IsSorted b es
    → ((elem_get_next_key_static es k ≡ none) × (above k es ≡ []))
      ⊎ ((e : Entry) × ((rest : List Entry) × IsNext es k e rest))
unfolding above IsSorted elem_get_next_key_static IsNext
IsNext-above b [] k s = inl (refl, refl)
IsNext-above b (e ∷ es) k s = elim (Bool-cases (ltb k e.key)) [
  | inl c ↦
      let self : ltb e.key e.key ≡ false = ground arith in
      rw c (inr (e, (es, (refl, refl, (rw self (above-all e.key es s.1)), ground (arith, c)))))
  | inr c ↦ elim (IsNext-above (suc e.key) es k s.1) [
    | inl q ↦ rw c (inl q)
    | inr (e', (rest, (q, a, a', l))) ↦
        let less : ltb e'.key e.key ≡ false = ground (arith, c, l) in
        rw c (inr (e', (rest, (q, a, (rw less a'), l))))
  ]
]

length-zero : (es : List Entry) → length es ≤ 0 → es ≡ []
length-zero [] l = refl
length-zero (e ∷ es) l = ground (arith, l)

walk-next :
    (es : List Entry) (n k : ℕ) (o : Option ℕ)
    → elem_get_next_key_static es k ≡ o
    → walk es (suc n) k ≡ elim o [ none ↦ [] | some k' ↦ k' ∷ walk es n k' ]
unfolding walk
walk-next es n k o q =
    ap (λ o'. elim o' as (λ x. List ℕ) [ none ↦ [] | some k' ↦ k' ∷ walk es n k' ]) q

walk-above :
    (n : ℕ) (es : List Entry) (k : ℕ)
    → IsSorted 0 es
    → length (above k es) ≤ n
    → walk es n k ≡ map (λ e. e.key) (above k es)
unfolding walk IsNext
walk-above zero es k s l = sym (ap (map (λ e. e.key)) (length-zero (above k es) l))
walk-above (suc n) es k s l = elim (IsNext-above 0 es k s) [
  | inl (q, a) ↦ walk-next es n k none q ∙ ap (map (λ e. e.key)) (sym a)
  | inr (e, (rest, (q, a, a', m))) ↦
      let fewer : length rest ≤ n = omega (arith, l, ap length a) in
      let on = walk-above n es e.key s (subst (λ r. length r ≤ n) (sym a') fewer) in
      walk-next es n k (some e.key) q
      ∙ ap (λ ks. e.key ∷ ks) (on ∙ ap (map (λ e'. e'.key)) a')
      ∙ ap (map (λ e'. e'.key)) (sym a)
]

length-above : (k : ℕ) (es : List Entry) → length (above k es) ≤ length es
unfolding above
length-above k [] = omega arith
length-above k (e ∷ es) = ground (arith, length-above k es)

-- After any calls of elem_update_static and elem_delete_static on an empty map, the entries stand in
-- the order of their keys, elem_lookup_static finds for each key what the same calls on a function
-- leave there, and elem_get_next_key_static from a key on, again and again until it fails, gives the
-- keys above it, each once and in their order.
pub run-run_function-walk :
    (ops : List Op) (j k : ℕ)
    → IsSorted 0 (run ops [])
      × (elem_lookup_static (run ops []) j ≡ run_function ops (λ i. none) j)
      × (walk (run ops []) (suc (length (run ops []))) k ≡ map (λ e. e.key) (above k (run ops [])))
unfolding IsSorted elem_lookup_static
run-run_function-walk ops j k =
    let sorted = run-IsSorted ops [] tt in
    let found = run-run_function ops [] (λ i. none) tt (λ i. refl) j in
    let steps : length (above k (run ops [])) ≤ suc (length (run ops [])) =
      omega (arith, length-above k (run ops [])) in
    (sorted, found, walk-above (suc (length (run ops []))) (run ops []) k sorted steps)
