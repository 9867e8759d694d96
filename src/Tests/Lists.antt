-- ===== src/Tests/Lists.antt =====
-- the firewall after runs of its tool, at concrete command lines and frames
use userspace_xdp.Prelude.{
  ℕ, ◌≡◌, refl, inl, arith, ◌==◌, ◌&&◌, Bool, true, false, if◌then◌else◌, List, [], ◌∷◌, length,
  sym, ap, ◌∙◌, Option, none, some, get_elem?, get16, get32, swab16, Mem,
}
use userspace_xdp.Xdp.{World, tx, drop}
use userspace_xdp.Xdp.Mac.{swap_mem}
use userspace_xdp.Xdp.Maps.{BpfMap}
use userspace_xdp.Programs.Firewall.{FlowKey, ipv4_key, VrrpFilter, ParsePkt, is_vlan, xdp_pass}
use userspace_xdp.Programs.Firewall.Parse.{parsed}
use userspace_xdp.Programs.Firewall.Filter.{IsCounted}
use userspace_xdp.Programs.Fwadm.{
  replicate, set_options, set_option, is_empty, initial, xdpfw_action, after, xdpfw_vrid, System,
  parse_cmdline, xdpfw_vrid_list, zero_stats,
}
use userspace_xdp.Programs.Fwadm.Blocks.{Seen, one_option, IsTo, added, removed, vrid_denied}
use userspace_xdp.Programs.Fwadm.Stats.{line, printed, xdpfw_vrid_list-sums}

-- both maps, for one processor
pub record Tables : Type 0 where
  pub l3 : FlowKey → Option ℕ
  pub vrrp : ℕ → Option VrrpFilter

abbrev same_key : FlowKey → FlowKey → Bool
same_key a b =
    a.addr == b.addr
    && a.addr6_1 == b.addr6_1
    && a.addr6_2 == b.addr6_2
    && a.addr6_3 == b.addr6_3
    && a.proto == b.proto

abbrev set_l3 : Tables → FlowKey → Option ℕ → Tables
set_l3 s k o = record s { l3 = λ j. if same_key k j then o else s.l3 j }

abbrev set_vrrp : Tables → ℕ → Option VrrpFilter → Tables
set_vrrp s k o = record s { vrrp = λ j. if k == j then o else s.vrrp j }

same_key_refl : (k : FlowKey) → same_key k k ≡ true
same_key_refl k = ground arith

same_number : (n : ℕ) → (n == n) ≡ true
same_number n = ground arith

set_l3_lem : (s : Tables) (k : FlowKey) (o : Option ℕ) → (set_l3 s k o).l3 k ≡ o
set_l3_lem s k o = rw (same_key_refl k) refl

set_vrrp_lem : (s : Tables) (k : ℕ) (o : Option VrrpFilter) → (set_vrrp s k o).vrrp k ≡ o
set_vrrp_lem s k o = rw (same_number k) refl

abbrev l3_of : Option Tables → FlowKey → Option ℕ
l3_of none k = none
l3_of (some s) k = s.l3 k

abbrev vrrp_of : Option Tables → ℕ → Option VrrpFilter
vrrp_of none k = none
vrrp_of (some s) k = s.vrrp k

l3_map : BpfMap Tables FlowKey ℕ
l3_map = record {
  lookup = λ s k. s.l3 k;
  write = λ s k v. set_l3 s k (some v);
  update = λ s k v. some (set_l3 s k (some v));
  lookup-write = λ s k v v' h. set_l3_lem s k (some v');
  lookup-update = λ s s' k v e. sym (ap (λ o. l3_of o k) e) ∙ set_l3_lem s k (some v);
}

vrrp_map : BpfMap Tables ℕ VrrpFilter
vrrp_map = record {
  lookup = λ s k. s.vrrp k;
  write = λ s k v. set_vrrp s k (some v);
  update = λ s k v. some (set_vrrp s k (some v));
  lookup-write = λ s k v v' h. set_vrrp_lem s k (some v');
  lookup-update = λ s s' k v e. sym (ap (λ o. vrrp_of o k) e) ∙ set_vrrp_lem s k (some v);
}

-- the address is the number of characters of its text
abbrev tool : System Tables
tool = record {
  rules = record {
    update = λ s k vs flag. some (set_l3 s k (get_elem? vs 0));
    delete = λ s k. some (set_l3 s k none);
    lookup = λ s k. none;
    get_next_key = λ s k. none;
  };
  vrids = record {
    update = λ s k vs flag. some (set_vrrp s k (get_elem? vs 0));
    delete = λ s k. none;
    lookup = λ s k.
        if k == 7
        then some (
            record (zero_stats 1) { total_packets = 3 }
            ∷ record (zero_stats 1) { total_packets = 4 }
            ∷ [])
        else none;
    get_next_key = λ s k. none;
  };
  opens = λ i. true;
  nr_cpus = 1;
  stack = 9 ∷ [];
  has_colon = λ t. false;
  inet_pton = λ six t. some (length t, 0, 0, 0);
  atoi = λ t. length t;
  load = λ g s. s;
  unload = λ g s. s;
}

seen : Seen Tables tool l3_map vrrp_map 0
unfolding l3_map vrrp_map
seen = record {
  lookup-update_rule =
      λ s s' k vs f e. sym (ap (λ o. l3_of o k) e) ∙ set_l3_lem s k (get_elem? vs 0);
  lookup-delete_rule = λ s s' k e. sym (ap (λ o. l3_of o k) e) ∙ set_l3_lem s k none;
  lookup-update_vrid =
      λ s s' k vs f e. sym (ap (λ o. vrrp_of o k) e) ∙ set_vrrp_lem s k (get_elem? vs 0);
}

abbrev nothing : Tables
nothing = record { l3 = λ k. none; vrrp = λ k. none }

-- at 100 an Ethernet header of type IPv4, and an IPv4 header to the address 3 with `protocol`
abbrev bytes : ℕ → Mem
bytes protocol i =
    if i == 112
    then 8
    else if i == 123
    then protocol
    else if i == 130
    then 3
    else if i == 135
    then 2
    else 0

abbrev ip_packet : ParsePkt
ip_packet = record { l3_proto = 0x0800; l3_offset = 14 }

abbrev text : List ℕ
text = b'a' ∷ b'b' ∷ b'c' ∷ []

abbrev to_three : Tables → ℕ → World Tables
to_three s protocol = record { data_start = 100; data_end = 198; mem = bytes protocol; maps = s }

abbrev listing : Tables
listing = (parse_cmdline tool (one_option b'a' text) nothing).1

is_parsed : (s : Tables) (protocol : ℕ) → parsed (to_three s protocol) ≡ some ip_packet
unfolding parsed is_vlan swab16 get16
is_parsed s protocol = refl

is_to : (s : Tables) (protocol : ℕ) → IsTo (to_three s protocol) ip_packet 3
unfolding IsTo get32 get16
is_to s protocol = (is_parsed s protocol, refl, refl)

is_counted : (s : Tables) → IsCounted l3_map vrrp_map (to_three s 6) ip_packet
unfolding IsCounted
is_counted s = (omega arith, inl (λ e. omega (arith, e)))

added_example :
    (s'' : Tables) × (xdp_pass l3_map vrrp_map (to_three listing 6)
      ≡ some (drop, record (to_three listing 6) { maps = s'' }))
added_example =
    added tool l3_map vrrp_map 0 seen text (3, 0, 0, 0) 9 nothing
      (set_l3 nothing (ipv4_key 3) (some 9)) (to_three listing 6) ip_packet refl refl refl refl refl
      refl (is_to listing 6) (is_counted listing)

abbrev unlisted : Tables
unlisted = (parse_cmdline tool (one_option b'd' text) listing).1

removed_example :
    xdp_pass l3_map vrrp_map (to_three unlisted 6)
    ≡ some (tx, record (to_three unlisted 6) { mem = swap_mem (bytes 6) 100 })
removed_example =
    removed tool l3_map vrrp_map 0 seen text (3, 0, 0, 0) listing (set_l3 listing (ipv4_key 3) none)
      (to_three unlisted 6) ip_packet refl refl refl refl refl (is_to unlisted 6) (omega arith)
      (omega arith) (λ e. omega (arith, e)) (λ e. omega (arith, e))

abbrev denying : Tables
denying = (parse_cmdline tool (one_option b'D' (b'1' ∷ b'2' ∷ [])) nothing).1

not_listed : l3_map.lookup denying (ipv4_key (get32 (bytes 112) 130)) ≡ none
unfolding l3_map parse_cmdline set_options set_option is_empty initial one_option xdpfw_action after
    xdpfw_vrid
not_listed = refl

vrid_denied_example :
    (s'' : Tables) × (xdp_pass l3_map vrrp_map (to_three denying 112)
      ≡ some (drop, record (to_three denying 112) { maps = s'' }))
    × (vrrp_map.lookup s'' 2 ≡ (
        let len = swab16 (get16 (bytes 112) 116) in
        some (record {
          action = 0;
          drop_packets = 1;
          total_packets = 1;
          drop_bytes = len;
          total_bytes = len;
        })))
unfolding replicate
vrid_denied_example =
    vrid_denied tool l3_map vrrp_map 0 seen (b'1' ∷ b'2' ∷ []) nothing
      (set_vrrp nothing 2 (some (zero_stats 0))) (to_three denying 112) ip_packet refl (omega arith)
      refl refl (is_parsed denying 112) refl (omega arith) refl refl not_listed

xdpfw_vrid_list-sums_example :
    (ls : List (ℕ × VrrpFilter)) × (xdpfw_vrid_list tool nothing ≡ some ls)
    × (line 7 ls ≡ printed tool nothing 7)
xdpfw_vrid_list-sums_example = xdpfw_vrid_list-sums tool nothing 7 refl
