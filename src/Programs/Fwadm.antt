-- ===== src/Programs/Fwadm.antt =====
-- xdp_progs/xdp-firewall/xdpfwadm/main.c: the tool that sets the lists of the firewall.
pub mod Blocks
pub mod Stats
pub mod Rules
use userspace_xdp.Prelude.{
  ℕ, zero, suc, ◌+◌, ◌-◌, ◌%◌, ◌^◌, Bool, true, false, ◌&&◌, not, ◌==◌, if◌then◌else◌, List, [],
  ◌∷◌, Option, none, some, ◌⊎◌, inl, inr,
}
use userspace_xdp.Programs.Firewall.{FlowKey, ipv4_key, VrrpFilter}

abbrev pub Text : Type 0
Text = List ℕ

pub data Command : Type 0 where
  load_bpf unload_bpf rule_add rule_del rule_list vrid_add vrid_del vrid_list : Command

-- The calls `bpf_map_*_elem` on an open map that holds a value for each processor. `none` is a result
-- other than 0. `update` is given whether the flag is BPF_NOEXIST.
pub record Fd (S : Type 0) (K : Type 0) (V : Type 0) : Type 0 where
  pub update : S → K → List V → Bool → Option S
  pub delete : S → K → Option S
  pub lookup : S → K → Option (List V)
  pub get_next_key : S → K → Option K

-- the static variables that the options set
pub record Config : Type 0 where
  pub bpf_file : Text
  pub ip_str : Text
  pub ifindex : ℕ
  pub vrrp_vrid : ℕ
  pub action : Command
  pub bad_option : Bool

unfoldable pub initial : Config
initial = record {
  bpf_file = [];
  ip_str = [];
  ifindex = 0;
  vrrp_vrid = 0;
  action = load_bpf;
  bad_option = false;
}

-- What `getopt_long` returns: the character, whether it is a long option that needs an argument, and
-- `optarg`.
pub record Parsed : Type 0 where
  pub c : ℕ
  pub long_with_arg : Bool
  pub optarg : Text

unfoldable pub is_empty : Text → Bool
is_empty [] = true
is_empty (_ ∷ _) = false

-- the sums over the processors, and the action of the last of them
unfoldable pub add_stats : VrrpFilter → VrrpFilter → VrrpFilter
add_stats t f = record {
  action = f.action;
  drop_packets = (t.drop_packets + f.drop_packets) % 2 ^ 64;
  total_packets = (t.total_packets + f.total_packets) % 2 ^ 64;
  drop_bytes = (t.drop_bytes + f.drop_bytes) % 2 ^ 64;
  total_bytes = (t.total_bytes + f.total_bytes) % 2 ^ 64;
}

unfoldable pub sum_stats : VrrpFilter → List VrrpFilter → VrrpFilter
sum_stats t [] = t
sum_stats t (f ∷ fs) = sum_stats (add_stats t f) fs

unfoldable pub zero_stats : ℕ → VrrpFilter
zero_stats action = record {
  action = action;
  drop_packets = 0;
  total_packets = 0;
  drop_bytes = 0;
  total_bytes = 0;
}

-- whether there is a line for it
unfoldable pub is_shown : VrrpFilter → Bool
is_shown t =
    not (t.drop_packets == 0 && t.total_packets == 0 && t.drop_bytes == 0 && t.total_bytes == 0)

unfoldable pub replicate : {A : Type 0} → ℕ → A → List A
replicate zero a = []
replicate (suc n) a = a ∷ replicate n a

-- What the tool is given. `rules` and `vrids` are the maps behind the two exported files, and
-- `opens i` is whether `bpf_obj_get` of the file i succeeds. `stack` is what the array `values` holds,
-- which nothing sets. `inet_pton` gives the four words of an address, for IPv6 or not; `load` and
-- `unload` are xdpfw_load and xdpfw_unload.
pub record System (S : Type 0) : Type 0 where
  pub rules : Fd S FlowKey ℕ
  pub vrids : Fd S ℕ VrrpFilter
  pub opens : ℕ → Bool
  pub nr_cpus : ℕ
  pub stack : List ℕ
  pub has_colon : Text → Bool
  pub inet_pton : Bool → Text → Option (ℕ × ℕ × ℕ × ℕ)
  pub atoi : Text → ℕ
  pub load : Config → S → S
  pub unload : Config → S → S

unfoldable pub make_key : Bool → ℕ × ℕ × ℕ × ℕ → FlowKey
make_key true (a, b, c, d) = record {
  addr = a;
  addr6_1 = b;
  addr6_2 = c;
  addr6_3 = d;
  proto = 0x86DD;
}
make_key false (a, b, c, d) = ipv4_key a

-- the value for every processor
unfoldable pub vrrp_rule : Command → VrrpFilter
vrrp_rule vrid_add = zero_stats 1
vrrp_rule _ = zero_stats 0

unfoldable pub or_zero : Option VrrpFilter → VrrpFilter
or_zero none = zero_stats 0
or_zero (some t) = t

-- a state after a call whose result is not read
unfoldable pub after : {S : Type 0} → S → Option S → S
after s none = s
after s (some s') = s'

module _ {S : Type 0} (sys : System S) where
  unfoldable pub change_rule : Command → FlowKey → S → Option S
  change_rule rule_add key s = sys.rules.update s key sys.stack true
  change_rule rule_del key s = sys.rules.delete s key
  change_rule _ key s = some s

  -- `none` is -1
  unfoldable pub xdpfw_rule : Command → Text → S → Option S
  xdpfw_rule action ip_str s = elim (sys.inet_pton (sys.has_colon ip_str) ip_str) [
    | none ↦ none
    | some words ↦
        if sys.opens 0 then change_rule action (make_key (sys.has_colon ip_str) words) s else none
  ]

  unfoldable pub xdpfw_vrid : Command → ℕ → S → Option S
  xdpfw_vrid action vrid s =
      if sys.opens 1
      then sys.vrids.update s vrid (replicate sys.nr_cpus (vrrp_rule action)) false
      else none

  -- `none` is -1, which the caller does not read
  unfoldable pub xdpfw_vrid_get_stats_percpu : S → ℕ → Option VrrpFilter
  xdpfw_vrid_get_stats_percpu s key = elim (sys.vrids.lookup s key) [
    | none ↦ none
    | some fs ↦ some (sum_stats (zero_stats 0) fs)
  ]

  -- the lines of the VRIDs from `i` on, `n` of them
  unfoldable pub vrid_lines : S → ℕ → ℕ → List (ℕ × VrrpFilter)
  vrid_lines s zero i = []
  vrid_lines s (suc n) i =
      let rest = vrid_lines s n (i + 1) in
      let t = or_zero (xdpfw_vrid_get_stats_percpu s i) in
      if is_shown t then (i, t) ∷ rest else rest

  unfoldable pub xdpfw_vrid_list : S → Option (List (ℕ × VrrpFilter))
  xdpfw_vrid_list s = if sys.opens 1 then some (vrid_lines s 256 0) else none

  -- the keys behind `key`, each printed as its family and its address, for at most `fuel` rounds
  unfoldable pub rule_lines : S → ℕ → FlowKey → List FlowKey
  rule_lines s zero key = []
  rule_lines s (suc fuel) key = elim (sys.rules.get_next_key s key) [
    | none ↦ []
    | some k ↦ k ∷ rule_lines s fuel k
  ]

  -- `key` is what the variable holds, which nothing sets
  unfoldable pub xdpfw_rule_list : ℕ → FlowKey → S → Option (List FlowKey)
  xdpfw_rule_list fuel key s = if sys.opens 0 then some (rule_lines s fuel key) else none

  unfoldable pub xdpfw_action : Config → S → S
  xdpfw_action c s = elim c.action [
    | load_bpf ↦ sys.load c s
    | unload_bpf ↦ sys.unload c s
    | rule_add ↦ after s (xdpfw_rule rule_add c.ip_str s)
    | rule_del ↦ after s (xdpfw_rule rule_del c.ip_str s)
    | rule_list ↦ s
    | vrid_add ↦ after s (xdpfw_vrid vrid_add c.vrrp_vrid s)
    | vrid_del ↦ after s (xdpfw_vrid vrid_del c.vrrp_vrid s)
    | vrid_list ↦ s
  ]

  -- the `switch`; `inr` is an exit with that code
  unfoldable pub set_option : Config → Parsed → Config ⊎ ℕ
  set_option g o =
      let c = if o.long_with_arg && is_empty o.optarg then b':' else o.c in
      if c == b'h'
      then inr 0
      else if c == b'l'
      then inl (record g { action = load_bpf; bpf_file = o.optarg })
      else if c == b'u'
      then inl (record g { action = unload_bpf; bpf_file = o.optarg })
      else if c == b'i'
      then inl (record g { ifindex = sys.atoi o.optarg })
      else if c == b'a'
      then inl (record g { action = rule_add; ip_str = o.optarg })
      else if c == b'd'
      then inl (record g { action = rule_del; ip_str = o.optarg })
      else if c == b'L'
      then inl (record g { action = rule_list })
      else if c == b'A'
      then inl (record g { action = vrid_add; vrrp_vrid = sys.atoi o.optarg })
      else if c == b'D'
      then inl (record g { action = vrid_del; vrrp_vrid = sys.atoi o.optarg })
      else if c == b'V'
      then inl (record g { action = vrid_list })
      else if c == b'?'
      then inl (record g { bad_option = true })
      else if c == b':'
      then inl (record g { bad_option = true })
      else inr 1

  unfoldable pub set_options : Config → List Parsed → Config ⊎ ℕ
  set_options g [] = inl g
  set_options g (o ∷ os) = elim (set_option g o) [
    | inl g' ↦ set_options g' os
    | inr code ↦ inr code
  ]

  -- the exit code of the tool and the state it leaves
  unfoldable pub parse_cmdline : List Parsed → S → ℕ × S
  parse_cmdline os s = elim (set_options initial os) [
    | inl g ↦ if g.bad_option then (1, s) else (0, xdpfw_action g s)
    | inr code ↦ (code, s)
  ]
