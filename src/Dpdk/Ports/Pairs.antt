-- ===== src/Dpdk/Ports/Pairs.antt =====
-- What the check of the port pairs guarantees for the table of destinations.
use userspace_xdp.Prelude.{
  ℕ, ◌≡◌, refl, subst, arith, Bool, true, false, ◌&&◌, List, [], ◌∷◌, Option, none, some,
}
use userspace_xdp.Dpdk.Ports.{
  Mask, PortPair, no_ports, add_port, set_port, check_port, is_used, check_pairs,
  check_port_pair_config, populate_pairs, restrict,
}

-- Each port of the mask is on the board and was enabled, and its destination is a port of the mask that
-- sends back to it.
pub record Matched (enabled : Mask) (is_valid : ℕ → Bool) (table : ℕ → ℕ) (mask : Mask)
    : Type 0 where
  pub is_on : (i : ℕ) → mask i ≡ true → enabled i ≡ true
  pub on_board : (i : ℕ) → mask i ≡ true → is_valid i ≡ true
  pub inside : (i : ℕ) → mask i ≡ true → mask (table i) ≡ true
  pub back : (i : ℕ) → mask i ≡ true → table (table i) ≡ i

some_inj : {A : Type 0} {a b : A} → some a ≡ some b → a ≡ b
some_inj h = cc

restrict-some :
    (enabled : Mask) (o : Option Mask) {mask : Mask}
    → restrict enabled o ≡ some mask
    → (c : Mask) × (o ≡ some c) × ((λ i. enabled i && c i) ≡ mask)
restrict-some enabled none h = cc
restrict-some enabled (some c) h = (c, refl, some_inj h)

-- what a check that passes has tested of the first pair
pub record Passed (enabled : Mask) (is_valid : ℕ → Bool) (p : PortPair) (config : Mask)
    : Type 0 where
  pub on0 : enabled p.port0 ≡ true
  pub on1 : enabled p.port1 ≡ true
  pub valid0 : is_valid p.port0 ≡ true
  pub valid1 : is_valid p.port1 ≡ true
  pub free0 : config p.port0 ≡ false
  pub free1 : config p.port1 ≡ false

module _ (enabled : Mask) (is_valid : ℕ → Bool) where
  check_pairs-Passed :
      (p : PortPair) (ps : List PortPair) (config : Mask) {c : Mask}
      → check_pairs enabled is_valid (p ∷ ps) config ≡ some c
      → Passed enabled is_valid p config
        × (check_pairs enabled is_valid ps (add_port (add_port config p.port0) p.port1) ≡ some c)
  unfolding check_pairs check_port is_used
  check_pairs-Passed p ps config h = (
    record {
      on0 = ground arith;
      on1 = ground arith;
      valid0 = ground arith;
      valid1 = ground arith;
      free0 = ground arith;
      free1 = ground arith;
    },
    ground arith,
  )

  pub Matched-pair :
      (table : ℕ → ℕ) (config : Mask) (p : PortPair)
      → Passed enabled is_valid p config
      → Matched enabled is_valid table config
      → Matched enabled is_valid
          (set_port (set_port table p.port0 p.port1) p.port1 p.port0)
          (add_port (add_port config p.port0) p.port1)
  unfolding set_port add_port
  Matched-pair table config p c m = record {
    is_on = λ i h. ground (arith, m.is_on i, c.on0, c.on1);
    on_board = λ i h. ground (arith, m.on_board i, c.valid0, c.valid1);
    inside = λ i h. ground (arith, m.inside i);
    back = λ i h. ground (arith, m.back i, m.inside i, c.free0, c.free1);
  }

  check_pairs-Matched :
      (ps : List PortPair) (table : ℕ → ℕ) (config : Mask) {c : Mask}
      → check_pairs enabled is_valid ps config ≡ some c
      → Matched enabled is_valid table config
      → Matched enabled is_valid (populate_pairs ps table) c
  unfolding populate_pairs check_pairs
  check_pairs-Matched [] table config h m = subst (Matched enabled is_valid table) (some_inj h) m
  check_pairs-Matched (p ∷ ps) table config h m =
      let c = check_pairs-Passed p ps config h in
      check_pairs-Matched ps (set_port (set_port table p.port0 p.port1) p.port1 p.port0)
        (add_port (add_port config p.port0) p.port1) c.1 (Matched-pair table config p c.0 m)

  -- If the check of the port pairs passes with a new port mask, then in the table made from the pairs
  -- every port of that mask was enabled, is on the board, and goes to a port of the mask that goes back
  -- to it.
  pub check_port_pair_config-Matched :
      (pairs : List PortPair) (mask : Mask)
      → check_port_pair_config enabled is_valid pairs ≡ some mask
      → Matched enabled is_valid (populate_pairs pairs (λ _. 0)) mask
  unfolding check_port_pair_config
  check_port_pair_config-Matched pairs mask h =
      let (c, e, both) = restrict-some enabled (check_pairs enabled is_valid pairs no_ports) h in
      let none_yet : Matched enabled is_valid (λ _. 0) no_ports = record {
        is_on = λ i k. cc;
        on_board = λ i k. cc;
        inside = λ i k. cc;
        back = λ i k. cc;
      } in
      let m = check_pairs-Matched pairs (λ _. 0) no_ports e none_yet in
      subst (Matched enabled is_valid (populate_pairs pairs (λ _. 0))) both (record {
        is_on = λ i k. ground (arith);
        on_board = λ i k. ground (arith, m.on_board i);
        inside = λ i k. ground (arith, m.inside i, m.is_on (populate_pairs pairs (λ _. 0) i));
        back = λ i k. ground (arith, m.back i);
      })
