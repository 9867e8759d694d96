-- ===== src/Programs/Fwadm/Stats.antt =====
-- The counters that the tool lists.
use userspace_xdp.Prelude.{
  ℕ, zero, suc, ◌+◌, ◌%◌, ◌^◌, ◌<◌, ◌≡◌, refl, ap, ◌∙◌, arith, true, Bool-cases, List, [], ◌∷◌, inl,
  inr, Option, none, some, if◌then◌else◌, ltb, leb, ◌==◌, ◌&&◌, Option-cases,
}
use userspace_xdp.Programs.Firewall.{VrrpFilter}
use userspace_xdp.Programs.Fwadm.{
  System, add_stats, sum_stats, zero_stats, is_shown, or_zero, xdpfw_vrid_get_stats_percpu,
  vrid_lines, xdpfw_vrid_list,
}

-- the sum of a counter over the processors
unfoldable pub total : (VrrpFilter → ℕ) → List VrrpFilter → ℕ
total c [] = 0
total c (f ∷ fs) = c f + total c fs

-- the action of the last processor
unfoldable pub last_action : ℕ → List VrrpFilter → ℕ
last_action a [] = a
last_action a (f ∷ fs) = last_action f.action fs

unfoldable pub sums : ℕ → List VrrpFilter → VrrpFilter
sums a fs = record {
  action = last_action a fs;
  drop_packets = total (λ f. f.drop_packets) fs % 2 ^ 64;
  total_packets = total (λ f. f.total_packets) fs % 2 ^ 64;
  drop_bytes = total (λ f. f.drop_bytes) fs % 2 ^ 64;
  total_bytes = total (λ f. f.total_bytes) fs % 2 ^ 64;
}

fold : (a b c : ℕ) → ((a + b) % 2 ^ 64 + c) % 2 ^ 64 ≡ (a + (b + c)) % 2 ^ 64
fold a b c = omega arith

below : (a : ℕ) → a % 2 ^ 64 < 2 ^ 64
below a = omega arith

sum_stats-eq :
    (t : VrrpFilter) (fs : List VrrpFilter)
    → t.drop_packets < 2 ^ 64
    → t.total_packets < 2 ^ 64
    → t.drop_bytes < 2 ^ 64
    → t.total_bytes < 2 ^ 64
    → sum_stats t fs ≡ record {
      action = last_action t.action fs;
      drop_packets = (t.drop_packets + total (λ f. f.drop_packets) fs) % 2 ^ 64;
      total_packets = (t.total_packets + total (λ f. f.total_packets) fs) % 2 ^ 64;
      drop_bytes = (t.drop_bytes + total (λ f. f.drop_bytes) fs) % 2 ^ 64;
      total_bytes = (t.total_bytes + total (λ f. f.total_bytes) fs) % 2 ^ 64;
    }
unfolding sum_stats total last_action add_stats
sum_stats-eq t [] a b c d = ground (arith, a, b, c, d)
sum_stats-eq t (f ∷ fs) a b c d =
    let ih = sum_stats-eq (add_stats t f) fs (below _) (below _) (below _) (below _) in
    ih
    ∙ rw
        (
          fold t.drop_packets f.drop_packets _,
          fold t.total_packets f.total_packets _,
          fold t.drop_bytes f.drop_bytes _,
          fold t.total_bytes f.total_bytes _,
        )
        refl

none_yet : (n : ℕ) → 0 + n ≡ n
none_yet n = omega arith

sum_zero-eq : (fs : List VrrpFilter) → sum_stats (zero_stats 0) fs ≡ sums 0 fs
unfolding zero_stats sums
sum_zero-eq fs =
    sum_stats-eq (zero_stats 0) fs (omega arith) (omega arith) (omega arith) (omega arith)
    ∙ rw
        (
          none_yet (total (λ f. f.drop_packets) fs),
          none_yet (total (λ f. f.total_packets) fs),
          none_yet (total (λ f. f.drop_bytes) fs),
          none_yet (total (λ f. f.total_bytes) fs),
        )
        refl

-- the line of `j`
unfoldable pub line : ℕ → List (ℕ × VrrpFilter) → Option VrrpFilter
line j [] = none
line j (l ∷ ls) = let rest = line j ls in if l.0 == j then some l.1 else rest

module _ {S : Type 0} (sys : System S) where
  -- what the tool prints for the VRID `j`
  unfoldable pub printed : S → ℕ → Option VrrpFilter
  printed s j = elim (sys.vrids.lookup s j) [
    | none ↦ none
    | some fs ↦ if is_shown (sums 0 fs) then some (sums 0 fs) else none
  ]

  or_zero-printed :
      (s : S) (j : ℕ)
      → (if is_shown (or_zero (xdpfw_vrid_get_stats_percpu sys s j))
          then some (or_zero (xdpfw_vrid_get_stats_percpu sys s j))
          else none)
        ≡ printed s j
  unfolding printed or_zero xdpfw_vrid_get_stats_percpu
  or_zero-printed s j = elim (Option-cases (sys.vrids.lookup s j)) [
    | inl q ↦ rw (q, xdpfw_vrid_get_stats_percpu, printed) (unfold is_shown zero_stats in refl)
    | inr (fs, q) ↦ rw (q, xdpfw_vrid_get_stats_percpu, printed) (rw (sum_zero-eq fs) refl)
  ]

  line-vrid_lines :
      (s : S) (n i j : ℕ)
      → line j (vrid_lines sys s n i) ≡ (if leb i j && ltb j (i + n) then printed s j else none)
  unfolding line vrid_lines
  line-vrid_lines s zero i j = ground arith
  line-vrid_lines s (suc n) i j =
      let t = or_zero (xdpfw_vrid_get_stats_percpu sys s i) in
      let rest = line-vrid_lines s n (i + 1) j in
      let here = or_zero-printed s i in
      elim (Bool-cases (i == j)) [
        | inl e ↦
            let same : i ≡ j = ground (arith, e) in
            let mine = here ∙ ap (printed s) same in
            elim (Bool-cases (is_shown t)) [
              | inl b ↦ ground (arith, e, b, mine, rest)
              | inr b ↦ ground (arith, e, b, mine, rest)
            ]
        | inr e ↦ elim (Bool-cases (is_shown t)) [
          | inl b ↦ ground (arith, e, b, rest)
          | inr b ↦ ground (arith, e, b, rest)
        ]
      ]

  -- The list of VRIDs has a line for exactly those of the 256 whose counters, summed over the processors
  -- modulo 2^64, are not all 0. The line holds these sums.
  pub xdpfw_vrid_list-sums :
      (s : S) (j : ℕ)
      → sys.opens 1 ≡ true
      → (ls : List (ℕ × VrrpFilter)) × (xdpfw_vrid_list sys s ≡ some ls)
        × (line j ls ≡ (if ltb j 256 then printed s j else none))
  unfolding xdpfw_vrid_list
  xdpfw_vrid_list-sums s j o =
      (vrid_lines sys s 256 0, rw o refl, ground (arith, line-vrid_lines s 256 0 j))
