-- ===== src/Programs/Fwadm/Rules.antt =====
-- The list of rules that the tool prints.
use userspace_xdp.Prelude.{
  ℕ, zero, suc, ◌<◌, ◌≡◌, refl, ap, arith, List, [], ◌∷◌, length, none, some,
}
use userspace_xdp.Programs.Firewall.{FlowKey}
use userspace_xdp.Programs.Fwadm.{System, rule_lines}

module _ {S : Type 0} (sys : System S) (s : S) where
  -- the keys that the map gives one after the other behind a key, up to its last
  pub data Follows : FlowKey → List FlowKey → Type 0 where
    last : {k : FlowKey} → sys.rules.get_next_key s k ≡ none → Follows k []
    step :
        {k k' : FlowKey} {ks : List FlowKey}
        → sys.rules.get_next_key s k ≡ some k'
        → Follows k' ks
        → Follows k (k' ∷ ks)

  -- The loop of xdpfw_rule_list prints all the keys behind the one it starts from, if it has one round
  -- more than there are keys.
  rule_lines-Follows :
      {k : FlowKey} {ks : List FlowKey} (fuel : ℕ)
      → Follows k ks
      → length ks < fuel
      → rule_lines sys s fuel k ≡ ks
  unfolding rule_lines
  rule_lines-Follows zero f l = absurd (omega (arith, l))
  rule_lines-Follows (suc fuel) (last q) l = rw (q, rule_lines) refl
  rule_lines-Follows (suc fuel) (step {k} {k'} {ks} q f) l =
      rw (q, rule_lines) (ap (λ r. k' ∷ r) (rule_lines-Follows fuel f (omega (arith, l))))
