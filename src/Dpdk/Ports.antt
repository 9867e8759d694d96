-- ===== src/Dpdk/Ports.antt =====
-- dpdk/main.c: the check of the port pairs, and the table `l2fwd_dst_ports`. A port mask is the set of
-- its bits, as the ports are fewer than RTE_MAX_ETHPORTS, 32.
pub mod Pairs
pub mod Alternate
use userspace_xdp.Prelude.{
  ℕ, ◌+◌, ◌%◌, Bool, true, false, ◌&&◌, ◌||◌, not, List, [], ◌∷◌, Option, none, some, ◌==◌,
  if◌then◌else◌,
}

abbrev pub Mask : Type 0
Mask = ℕ → Bool

-- mask |= 1 << portid
unfoldable pub add_port : Mask → ℕ → Mask
add_port mask portid i = if i == portid then true else mask i

abbrev pub no_ports : Mask
no_ports i = false

-- `struct port_pair_params`
pub record PortPair : Type 0 where
  pub port0 : ℕ
  pub port1 : ℕ

-- table[portid] = port
unfoldable pub set_port : (ℕ → ℕ) → ℕ → ℕ → ℕ → ℕ
set_port table portid port i = if i == portid then port else table i

-- l2fwd_enabled_port_mask &= port_pair_config_mask, where the loop has not failed
abbrev pub restrict : Mask → Option Mask → Option Mask
restrict enabled none = none
restrict enabled (some config) = some (λ i. enabled i && config i)

module _ (enabled : Mask) (is_valid : ℕ → Bool) where
  -- One port of a pair: it is in the port mask and on the board, and joins the pair's mask.
  unfoldable pub check_port : ℕ → Mask → Option Mask
  check_port portid pair_mask =
      if not (enabled portid)
      then none
      else if not (is_valid portid)
      then none
      else some (add_port pair_mask portid)

  -- `port_pair_config_mask & port_pair_mask`, of the ports of one pair
  unfoldable pub is_used : PortPair → Mask → Bool
  is_used p config = config p.port0 || config p.port1

  -- the loop of `check_port_pair_config`, with the mask of the pairs before
  unfoldable pub check_pairs : List PortPair → Mask → Option Mask
  unfolding check_port is_used
  check_pairs [] config = some config
  check_pairs (p ∷ ps) config =
      let rest = check_pairs ps (add_port (add_port config p.port0) p.port1) in
      elim (check_port p.port0 no_ports) [
        | none ↦ none
        | some m0 ↦ elim (check_port p.port1 m0) [
          | none ↦ none
          | some m1 ↦ if is_used p config then none else rest
        ]
      ]

  -- `check_port_pair_config`: the new `l2fwd_enabled_port_mask`
  unfoldable pub check_port_pair_config : List PortPair → Option Mask
  unfolding check_pairs
  check_port_pair_config pairs = restrict enabled (check_pairs pairs no_ports)

-- `l2fwd_dst_ports` from the port pairs
unfoldable pub populate_pairs : List PortPair → (ℕ → ℕ) → ℕ → ℕ
unfolding set_port
populate_pairs [] table = table
populate_pairs (p ∷ ps) table =
    populate_pairs ps (set_port (set_port table p.port0 p.port1) p.port1 p.port0)

-- the loop over the ports without port pairs: the table, `last_port` and `nb_ports_in_mask`
pub record Pairing : Type 0 where
  pub table : ℕ → ℕ
  pub last_port : ℕ
  pub nb_ports_in_mask : ℕ

unfoldable pub pair_port : ℕ → Pairing → Pairing
unfolding set_port
pair_port portid s =
    if s.nb_ports_in_mask % 2 == 1
    then record s {
      table = set_port (set_port s.table portid s.last_port) s.last_port portid;
      nb_ports_in_mask = s.nb_ports_in_mask + 1;
    }
    else record s { last_port = portid; nb_ports_in_mask = s.nb_ports_in_mask + 1 }

unfoldable pub pair_ports : Mask → List ℕ → Pairing → Pairing
unfolding pair_port
pair_ports enabled [] s = s
pair_ports enabled (portid ∷ ports) s =
    pair_ports enabled ports (if enabled portid then pair_port portid s else s)

-- an odd port goes to itself
unfoldable pub pair_last : Pairing → ℕ → ℕ
unfolding set_port
pair_last s =
    if s.nb_ports_in_mask % 2 == 1 then set_port s.table s.last_port s.last_port else s.table

-- `l2fwd_dst_ports` without port pairs, over the ports of RTE_ETH_FOREACH_DEV
unfoldable pub populate_alternate : Mask → List ℕ → ℕ → ℕ
unfolding pair_ports pair_last
populate_alternate enabled ports =
    pair_last
      (pair_ports enabled ports (record { table = λ _. 0; last_port = 0; nb_ports_in_mask = 0 }))
