-- ===== src/HashMap/Scan.antt =====
-- The probe of a table, seen as a search along the slots (s + d) % n for d = 0, 1, ...: it stops at
-- the first slot that is empty (`e`) or holds the key (`h`).
use userspace_xdp.Prelude.{
  ℕ, zero, suc, ◌+◌, ◌-◌, ◌%◌, ◌≤◌, ◌<◌, ◌≡◌, ◌≢◌, refl, arith, Bool, true, false, ◌==◌,
  if◌then◌else◌, ◌⊎◌,
}
use native.Mathlib.Nat.{mod-eq_of_lt}
use native.Mathlib.Decide.{dec_lt, ℕ_discrete}
use userspace_xdp.HashMap.{Stop, vacant, hit, full}

unfoldable pub first : (e h : ℕ → Bool) (n s d f : ℕ) → Stop
first e h n s d zero = full
first e h n s d (suc f) =
    let rest = first e h n s (d + 1) f in
    if e ((s + d) % n)
    then vacant ((s + d) % n)
    else if h ((s + d) % n)
    then hit ((s + d) % n)
    else rest

module _ (e h : ℕ → Bool) (n s i : ℕ) where
  pub first-vacant : (d f : ℕ) → first e h n s d f ≡ vacant i → e i ≡ true
  unfolding first
  first-vacant d zero q = ground arith
  first-vacant d (suc f) q = ground (arith, first-vacant (d + 1) f)

  pub first-hit : (d f : ℕ) → first e h n s d f ≡ hit i → (e i ≡ false) × (h i ≡ true)
  unfolding first
  first-hit d zero q = ground arith
  first-hit d (suc f) q = ground (arith, first-hit (d + 1) f)

  pub first-lt :
      (d f : ℕ) → 0 < n → (first e h n s d f ≡ vacant i) ⊎ (first e h n s d f ≡ hit i) → i < n
  unfolding first
  first-lt d zero p q = ground arith
  first-lt d (suc f) p q = ground (arith, first-lt (d + 1) f)

-- where a key is written, and the tests after it
abbrev pub but : (ℕ → Bool) → ℕ → Bool → ℕ → Bool
but f i b j = if j == i then b else f j

module _ (e h : ℕ → Bool) (n s i : ℕ) where
  -- Once the key is written where the search stopped, the search finds it there.
  pub first_written :
      (d f : ℕ)
      → (first e h n s d f ≡ vacant i) ⊎ (first e h n s d f ≡ hit i)
      → first (but e i false) (but h i true) n s d f ≡ hit i
  unfolding first
  first_written d zero q = ground arith
  first_written d (suc f) q = ground (
    arith,
    first_written (d + 1) f,
    first-vacant e h n s i (d + 1) f,
    first-hit e h n s i (d + 1) f,
  )

  -- Writing another key at slot i keeps a search that stops at another slot.
  pub first_kept :
      (d f j : ℕ)
      → j ≢ i
      → first e h n s d f ≡ hit j
      → (e i ≡ true) ⊎ (h i ≡ false)
      → first (but e i false) (but h i false) n s d f ≡ hit j
  unfolding first
  first_kept d zero j ne q o = ground arith
  first_kept d (suc f) j ne q o = ground (arith, first_kept (d + 1) f j)

-- Only the tests of the table's slots matter.
pub first_congr :
    (e h e' h' : ℕ → Bool) (n s d f : ℕ)
    → 0 < n
    → ((j : ℕ) → j < n → (e j ≡ e' j) × (h j ≡ h' j))
    → first e h n s d f ≡ first e' h' n s d f
unfolding first
first_congr e h e' h' n s d zero p q = refl
first_congr e h e' h' n s d (suc f) p q =
    let i = (s + d) % n in
    let lt : i < n = omega arith in
    rw ((q i lt).0, (q i lt).1, first_congr e h e' h' n s (d + 1) f p q)

-- A search that comes back to its start has seen every slot.
first-full :
    (e h : ℕ → Bool) (n s i d f : ℕ)
    → first e h n s d f ≡ full
    → d ≤ i
    → i < d + f
    → (e ((s + i) % n) ≡ false) × (h ((s + i) % n) ≡ false)
unfolding first
first-full e h n s i d zero q l u = absurd (omega arith)
first-full e h n s i d (suc f) q l u = elim (ℕ_discrete d i) [
  | yes same ↦ rw (← same) (ground arith)
  | no ne ↦ ground (arith, first-full e h n s i (d + 1) f)
]

mod-whole : (j n : ℕ) → j < n → (j + n) % n ≡ j
mod-whole j n h = grind arith

pub full_all :
    (e h : ℕ → Bool) (n s j : ℕ)
    → s < n
    → j < n
    → first e h n s 0 n ≡ full
    → (e j ≡ false) × (h j ≡ false)
full_all e h n s j hs hj q = elim (dec_lt j s) [
  | yes lt ↦
      let e1 : s + (j + n - s) ≡ j + n = omega arith in
      rw (e1, mod-whole j n hj) at
        (first-full e h n s (j + n - s) 0 n q (omega arith) (omega arith))
  | no ge ↦
      let e1 : s + (j - s) ≡ j = omega arith in
      rw (e1, mod-eq_of_lt hj) at (first-full e h n s (j - s) 0 n q (omega arith) (omega arith))
]

-- A search that starts at an empty slot stops there.
pub first_empty : (e h : ℕ → Bool) (n s : ℕ) → s < n → e s ≡ true → first e h n s 0 n ≡ vacant s
unfolding first
first_empty e h zero s l q = absurd (omega arith)
first_empty e h (suc n) s l q = let e1 : s + 0 ≡ s = omega arith in rw (e1, mod-eq_of_lt l, q)
