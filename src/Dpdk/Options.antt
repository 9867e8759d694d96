-- ===== src/Dpdk/Options.antt =====
-- dpdk/main.c: l2fwd_parse_args, from what `getopt_long` returns on.
use userspace_xdp.Prelude.{
  ℕ, ◌≤◌, ◌<◌, ◌≡◌, arith, Bool, true, false, Bool-cases, Option-cases, inl, inr, List, [], ◌∷◌,
  length, Option, none, some, ◌==◌, if◌then◌else◌,
}
use userspace_xdp.Dpdk.Args.{
  Number, max_rx_queue_per_lcore, max_timer_period, l2fwd_parse_portmask, l2fwd_parse_nqueue,
  l2fwd_parse_timer_period,
}
use userspace_xdp.Dpdk.Ports.{PortPair}
use userspace_xdp.Dpdk.PortMap.{
  Text, Parsed, pairs, failed, out_of_fuel, l2fwd_parse_port_pair_config,
}
use userspace_xdp.Dpdk.PortMap.Ends.{IsSmall, IsAnswer, parse-IsAnswer}

-- an option, with what the C library reads of its argument where that is a number
pub data Opt : Type 0 where
  portmask : Number → Opt
  promiscuous : Opt
  nqueue : Number → Opt
  period : Number → Opt
  portmap : Text → Opt
  no_mac_updating : Opt
  unknown : Opt

-- the variables that the options set
pub record Settings : Type 0 where
  pub enabled_port_mask : ℕ
  pub promiscuous_on : Bool
  pub rx_queue_per_lcore : ℕ
  pub timer_period : ℕ
  pub port_pair_params : Option (List PortPair)
  pub mac_updating : Bool

unfoldable pub defaults : Settings
defaults = record {
  enabled_port_mask = 0;
  promiscuous_on = false;
  rx_queue_per_lcore = 1;
  timer_period = 10;
  port_pair_params = none;
  mac_updating = true;
}

unfoldable pub set_pairs : Settings → Parsed → Option Settings
set_pairs g (pairs ps) = some (record g { port_pair_params = some ps })
set_pairs g failed = none
set_pairs g out_of_fuel = none

unfoldable pub set_period : Settings → Option ℕ → Option Settings
set_period g none = none
set_period g (some secs) = some (record g { timer_period = secs })

module _ (strsplit : Text → List Text) (strtoul : Text → Option ℕ) where
  -- the `switch`; `none` is -1
  unfoldable pub set_option : Settings → Opt → Option Settings
  set_option g (portmask n) =
      let mask = l2fwd_parse_portmask n in
      if mask == 0 then none else some (record g { enabled_port_mask = mask })
  set_option g promiscuous = some (record g { promiscuous_on = true })
  set_option g (nqueue n) =
      let queues = l2fwd_parse_nqueue n in
      if queues == 0 then none else some (record g { rx_queue_per_lcore = queues })
  set_option g (period n) = set_period g (l2fwd_parse_timer_period n)
  set_option g (portmap q_arg) = set_pairs g (l2fwd_parse_port_pair_config strsplit strtoul q_arg)
  set_option g no_mac_updating = some (record g { mac_updating = false })
  set_option g unknown = none

  -- the options one after the other, up to the first that fails
  unfoldable pub set_rest : List Opt → Option Settings → Option Settings
  set_rest os none = none
  set_rest [] (some g) = some g
  set_rest (o ∷ os) (some g) = set_rest os (set_option g o)

  unfoldable pub l2fwd_parse_args : List Opt → Option Settings
  l2fwd_parse_args os = set_rest os (some defaults)

unfoldable pub IsConfig : Option (List PortPair) → Type 0
IsConfig none = Unit {0}
IsConfig (some ps) = (length ps ≤ 16) × IsSmall ps

-- settings within their limits
pub record IsLimited (g : Settings) : Type 0 where
  pub some_queue : 0 < g.rx_queue_per_lcore
  pub few_queues : g.rx_queue_per_lcore < max_rx_queue_per_lcore
  pub short_period : g.timer_period < max_timer_period
  pub config : IsConfig g.port_pair_params

unfoldable pub AllLimited : Option Settings → Type 0
AllLimited none = Unit {0}
AllLimited (some g) = IsLimited g

defaults-IsLimited : IsLimited defaults
unfolding defaults IsConfig
defaults-IsLimited = record {
  some_queue = omega arith;
  few_queues = omega arith;
  short_period = omega arith;
  config = tt;
}

set_pairs-AllLimited :
    (g : Settings) (p : Parsed) → IsLimited g → IsAnswer p → AllLimited (set_pairs g p)
unfolding set_pairs AllLimited IsAnswer IsConfig
set_pairs-AllLimited g (pairs ps) h a = record {
  some_queue = h.some_queue;
  few_queues = h.few_queues;
  short_period = h.short_period;
  config = a;
}
set_pairs-AllLimited g failed h a = tt
set_pairs-AllLimited g out_of_fuel h a = tt

period_short :
    (n : Number) (secs : ℕ) → l2fwd_parse_timer_period n ≡ some secs → secs < max_timer_period
unfolding l2fwd_parse_timer_period
period_short n secs e = ground (arith, e)

set_period-AllLimited :
    (g : Settings) (n : Number)
    → IsLimited g
    → AllLimited (set_period g (l2fwd_parse_timer_period n))
unfolding set_period AllLimited
set_period-AllLimited g n h = elim (Option-cases (l2fwd_parse_timer_period n)) [
  | inl q ↦ rw q tt
  | inr (secs, q) ↦ rw q (record {
    some_queue = h.some_queue;
    few_queues = h.few_queues;
    short_period = period_short n secs q;
    config = h.config;
  })
]

queues_few : (n : Number) → l2fwd_parse_nqueue n < max_rx_queue_per_lcore
unfolding l2fwd_parse_nqueue
queues_few n = ground arith

module _ (strsplit : Text → List Text) (strtoul : Text → Option ℕ) where
  set_option-AllLimited :
      (g : Settings) (o : Opt) → IsLimited g → AllLimited (set_option strsplit strtoul g o)
  unfolding set_option AllLimited
  set_option-AllLimited g (portmask n) h = elim (Bool-cases (l2fwd_parse_portmask n == 0)) [
    | inl e ↦ rw e tt
    | inr e ↦ rw e (record {
      some_queue = h.some_queue;
      few_queues = h.few_queues;
      short_period = h.short_period;
      config = h.config;
    })
  ]
  set_option-AllLimited g promiscuous h = record {
    some_queue = h.some_queue;
    few_queues = h.few_queues;
    short_period = h.short_period;
    config = h.config;
  }
  set_option-AllLimited g (nqueue n) h = elim (Bool-cases (l2fwd_parse_nqueue n == 0)) [
    | inl e ↦ rw e tt
    | inr e ↦ rw e (record {
      some_queue = ground (arith, e);
      few_queues = queues_few n;
      short_period = h.short_period;
      config = h.config;
    })
  ]
  set_option-AllLimited g (period n) h = set_period-AllLimited g n h
  set_option-AllLimited g (portmap q_arg) h =
      set_pairs-AllLimited g (l2fwd_parse_port_pair_config strsplit strtoul q_arg) h
        (parse-IsAnswer strsplit strtoul q_arg)
  set_option-AllLimited g no_mac_updating h = record {
    some_queue = h.some_queue;
    few_queues = h.few_queues;
    short_period = h.short_period;
    config = h.config;
  }
  set_option-AllLimited g unknown h = tt

  set_rest-AllLimited :
      (os : List Opt) (g : Option Settings)
      → AllLimited g
      → AllLimited (set_rest strsplit strtoul os g)
  unfolding set_rest AllLimited
  set_rest-AllLimited [] none h = tt
  set_rest-AllLimited (o ∷ os) none h = tt
  set_rest-AllLimited [] (some g) h = h
  set_rest-AllLimited (o ∷ os) (some g) h =
      set_rest-AllLimited os (set_option strsplit strtoul g o) (set_option-AllLimited g o h)

  -- An accepted command line, whatever its options, leaves one to fifteen queues for each core, a timer
  -- period below one day, and no port pair configuration or one of at most sixteen pairs of numbers below
  -- RTE_MAX_ETHPORTS.
  pub l2fwd_parse_args-AllLimited :
      (os : List Opt) → AllLimited (l2fwd_parse_args strsplit strtoul os)
  unfolding l2fwd_parse_args AllLimited
  l2fwd_parse_args-AllLimited os = set_rest-AllLimited os (some defaults) defaults-IsLimited
