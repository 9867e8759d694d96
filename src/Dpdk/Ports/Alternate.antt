-- ===== src/Dpdk/Ports/Alternate.antt =====
-- The table of destinations without port pairs: the enabled ports are paired as they come.
use userspace_xdp.Prelude.{
  ℕ, ◌+◌, ◌%◌, ◌≡◌, ◌≢◌, refl, subst, sym, fun_ext, arith, Bool, true, false, Bool-cases, inl, inr,
  ◌&&◌, ◌||◌, List, [], ◌∷◌, ◌==◌, if◌then◌else◌,
}
use userspace_xdp.Dpdk.Ports.{
  Mask, PortPair, no_ports, add_port, set_port, Pairing, pair_port, pair_ports, pair_last,
  populate_alternate,
}
use userspace_xdp.Dpdk.Ports.Pairs.{Matched, Passed, Matched-pair}

unfoldable pub has : List ℕ → ℕ → Bool
has [] i = false
has (p ∷ ps) i = (i == p) || has ps i

abbrev pub IsDistinct : List ℕ → Type 0
IsDistinct [] = Unit {0}
IsDistinct (p ∷ ps) = (has ps p ≡ false) × IsDistinct ps

abbrev pub any_port : ℕ → Bool
any_port _ = true

-- the ports that the loop has seen: the paired ones and the one that waits for its partner
abbrev taken : Pairing → Mask → Mask
taken s paired i = paired i || ((s.nb_ports_in_mask % 2 == 1) && (i == s.last_port))

-- A matching in which one port at most is its own partner: every other port has another one, so of an even
-- number of ports none is left over, and of an odd number one.
pub record Paired (enabled : Mask) (table : ℕ → ℕ) (m : Mask) : Type 0 where
  pub matched : Matched enabled any_port table m
  pub alone : (i j : ℕ) → m i ≡ true → m j ≡ true → table i ≡ i → table j ≡ j → i ≡ j

record Inv (enabled : Mask) (s : Pairing) (paired : Mask) : Type 0 where
  matched : Matched enabled any_port s.table paired
  apart : (i : ℕ) → paired i ≡ true → s.table i ≢ i
  single : (s.nb_ports_in_mask % 2 == 1) ≡ true → paired s.last_port ≡ false
  single_on : (s.nb_ports_in_mask % 2 == 1) ≡ true → enabled s.last_port ≡ true

Paired-same :
    (enabled : Mask) (table : ℕ → ℕ) (m m' : Mask)
    → ((i : ℕ) → m i ≡ m' i)
    → Paired enabled table m
    → Paired enabled table m'
Paired-same enabled table m m' e h = subst (Paired enabled table) (fun_ext e) h

pair_apart :
    (table : ℕ → ℕ) (paired : Mask) (p last : ℕ)
    → ((i : ℕ) → paired i ≡ true → table i ≢ i)
    → p ≢ last
    → (i : ℕ) → add_port (add_port paired p) last i ≡ true
    → set_port (set_port table p last) last p i ≢ i
unfolding add_port set_port
pair_apart table paired p last h ne i m e = ground (arith, h i, ne, m, e)

module _ (enabled : Mask) where
  pair_last-Paired :
      (s : Pairing) (paired : Mask)
      → Inv enabled s paired
      → Paired enabled (pair_last s) (taken s paired)
  unfolding pair_last set_port
  pair_last-Paired s paired v = elim (Bool-cases (s.nb_ports_in_mask % 2 == 1)) [
    | inl e ↦ rw e (record {
      matched = record {
        is_on = λ i h. ground (arith, v.matched.is_on i, v.single_on e);
        on_board = λ i h. refl;
        inside = λ i h. ground (arith, v.matched.inside i);
        back = λ i h. ground (arith, v.matched.back i, v.matched.inside i, v.single e);
      };
      alone = λ i j h l p q. ground (arith, v.apart i, v.apart j, h, l, p, q);
    })
    | inr e ↦ rw e (
        Paired-same enabled s.table paired _ (λ i. ground arith)
          (record { matched = v.matched; alone = λ i j h l p q. absurd (v.apart i h p) }))
  ]

  pair_ports-Paired :
      (ports : List ℕ) (s : Pairing) (paired : Mask)
      → Inv enabled s paired
      → IsDistinct ports
      → ((i : ℕ) → has ports i ≡ true → taken s paired i ≡ false)
      → Paired enabled
          (pair_last (pair_ports enabled ports s))
          (λ i. taken s paired i || (enabled i && has ports i))
  unfolding pair_ports has
  pair_ports-Paired [] s paired v d f =
      Paired-same enabled (pair_last s) (taken s paired) _ (λ i. ground arith)
        (pair_last-Paired s paired v)
  pair_ports-Paired (p ∷ ps) s paired v d f =
      let free = f p (ground arith) in
      let all : Mask = λ i. taken s paired i || (enabled i && has (p ∷ ps) i) in
      let other : (i : ℕ) → has ps i ≡ true → i ≢ p = λ i h q. absurd (cc (rw q at h, d.0)) in
      elim (Bool-cases (enabled p)) [
        | inl on ↦ elim (Bool-cases (s.nb_ports_in_mask % 2 == 1)) [
          | inl e ↦
              let paired' = add_port (add_port paired p) s.last_port in
              let s' : Pairing = record s {
                table = set_port (set_port s.table p s.last_port) s.last_port p;
                nb_ports_in_mask = s.nb_ports_in_mask + 1;
              } in
              let even : (s'.nb_ports_in_mask % 2 == 1) ≡ false = ground (arith, e) in
              let pair : PortPair = record { port0 = p; port1 = s.last_port } in
              let tests : Passed enabled any_port pair paired = record {
                on0 = on;
                on1 = v.single_on e;
                valid0 = refl;
                valid1 = refl;
                free0 = ground (arith, free);
                free1 = v.single e;
              } in
              let v' : Inv enabled s' paired' = record {
                matched = Matched-pair enabled any_port s.table paired pair tests v.matched;
                apart = pair_apart s.table paired p s.last_port v.apart (ground (arith, free, e));
                single = λ h. absurd (cc (h, even));
                single_on = λ h. absurd (cc (h, even));
              } in
              let fresh : (i : ℕ) → has ps i ≡ true → taken s' paired' i ≡ false =
                λ i h. unfold add_port in ground (arith, f i, other i h) in
              let same : (i : ℕ) → (taken s' paired' i || (enabled i && has ps i)) ≡ all i =
                λ i. unfold add_port in ground arith in
              let eq : (if enabled p then pair_port p s else s) ≡ s' =
                unfold pair_port in rw (on, e) refl in
              subst (λ u. Paired enabled (pair_last (pair_ports enabled ps u)) all) (sym (eq))
                (Paired-same enabled (pair_last (pair_ports enabled ps s')) _ all (λ i. same i)
                  (pair_ports-Paired ps s' paired' v' d.1 fresh))
          | inr e ↦
              let s' : Pairing = record s {
                last_port = p;
                nb_ports_in_mask = s.nb_ports_in_mask + 1;
              } in
              let odd : (s'.nb_ports_in_mask % 2 == 1) ≡ true = ground (arith, e) in
              let v' : Inv enabled s' paired = record {
                matched = v.matched;
                apart = v.apart;
                single = λ h. ground (arith, free);
                single_on = λ h. on;
              } in
              let fresh : (i : ℕ) → has ps i ≡ true → taken s' paired i ≡ false =
                λ i h. ground (arith, f i, other i h) in
              let same : (i : ℕ) → (taken s' paired i || (enabled i && has ps i)) ≡ all i =
                λ i. ground arith in
              let eq : (if enabled p then pair_port p s else s) ≡ s' =
                unfold pair_port in rw (on, e) refl in
              subst (λ u. Paired enabled (pair_last (pair_ports enabled ps u)) all) (sym (eq))
                (Paired-same enabled (pair_last (pair_ports enabled ps s')) _ all (λ i. same i)
                  (pair_ports-Paired ps s' paired v' d.1 fresh))
        ]
        | inr off ↦
            let fresh : (i : ℕ) → has ps i ≡ true → taken s paired i ≡ false =
              λ i h. f i (ground arith) in
            let same : (i : ℕ) → (taken s paired i || (enabled i && has ps i)) ≡ all i =
              λ i. ground arith in
            let eq : (if enabled p then pair_port p s else s) ≡ s = rw off refl in
            subst (λ u. Paired enabled (pair_last (pair_ports enabled ps u)) all) (sym (eq))
              (Paired-same enabled (pair_last (pair_ports enabled ps s)) _ all (λ i. same i)
                (pair_ports-Paired ps s paired v d.1 fresh))
      ]

  -- Without port pairs, over distinct ports: every port among them that is enabled goes to an enabled
  -- port among them, which goes back to it, and one of them at most goes to itself.
  pub populate_alternate-Paired :
      (ports : List ℕ)
      → IsDistinct ports
      → Paired enabled (populate_alternate enabled ports) (λ i. enabled i && has ports i)
  unfolding populate_alternate
  populate_alternate-Paired ports d =
      let s : Pairing = record { table = λ _. 0; last_port = 0; nb_ports_in_mask = 0 } in
      let v : Inv enabled s no_ports = record {
        matched = record {
          is_on = λ i k. cc;
          on_board = λ i k. refl;
          inside = λ i k. cc;
          back = λ i k. cc;
        };
        apart = λ i k. absurd (cc);
        single = λ h. refl;
        single_on = λ h. absurd (ground (arith, h));
      } in
      pair_ports-Paired ports s no_ports v d (λ i h. refl)
