-- ===== src/Programs/Firewall.antt =====
-- xdp_progs/xdp_firewall.bpf.c: drop frames to listed destinations, and VRRP of unlisted routers.
pub mod Parse
pub mod Filter
use userspace_xdp.Prelude.{
  ℕ, Bool-cases, inl, inr, refl, ◌∙◌, ap, ◌+◌, ◌≤◌, ◌≡◌, ◌%◌, ◌^◌, arith, ltb, ◌==◌, ◌||◌, Bool,
  not, Option, none, some, if◌then◌else◌, swab16, get16, true,
}
use userspace_xdp.Xdp.{Action, tx, pass, drop, M, World, pure, ◌>>=◌, ◌>>◌, load8, load16, load32}
use userspace_xdp.Xdp.Steps.{bind_step, load16_step}
use userspace_xdp.Xdp.Mac.{swap_src_dst_mac}
use userspace_xdp.Xdp.Maps.{BpfMap, increment, returns, when_found, lookup_elem, write_elem}

-- the address in four words, and the protocol
pub record FlowKey : Type 0 where
  pub addr : ℕ
  pub addr6_1 : ℕ
  pub addr6_2 : ℕ
  pub addr6_3 : ℕ
  pub proto : ℕ

-- the key of an IPv4 address; its other words are 0
unfoldable pub ipv4_key : ℕ → FlowKey
ipv4_key addr = record { addr = addr; addr6_1 = 0; addr6_2 = 0; addr6_3 = 0; proto = 0x0800 }

pub record VrrpFilter : Type 0 where
  pub action : ℕ
  pub drop_packets : ℕ
  pub total_packets : ℕ
  pub drop_bytes : ℕ
  pub total_bytes : ℕ

pub record ParsePkt : Type 0 where
  pub l3_proto : ℕ
  pub l3_offset : ℕ

unfoldable pub count_total : ℕ → VrrpFilter → VrrpFilter
count_total len f = record f {
  total_packets = increment f.total_packets;
  total_bytes = (f.total_bytes + len) % 2 ^ 64;
}

unfoldable pub count_drop : ℕ → VrrpFilter → VrrpFilter
count_drop len f = record f {
  drop_packets = increment f.drop_packets;
  drop_bytes = (f.drop_bytes + len) % 2 ^ 64;
}

-- `eth_type == bpf_htons(ETH_P_8021Q) || eth_type == bpf_htons(ETH_P_8021AD)`
unfoldable pub is_vlan : ℕ → Bool
is_vlan eth_type = eth_type == swab16 0x8100 || eth_type == swab16 0x88A8

module _ {S : Type 0} where
  -- one VLAN tag: the Ethernet type and the offset behind it
  unfoldable pub skip_vlan : ℕ → ℕ → M S (Option (ℕ × ℕ))
  skip_vlan eth_type offset w =
      (if not (is_vlan eth_type)
          then pure (some (eth_type, offset))
          else if ltb w.data_end (w.data_start + (offset + 4))
          then pure none
          else do
            encapsulated ← load16 (w.data_start + offset + 2)
            pure (some (encapsulated, offset + 4)))
        w

  -- behind the inner tag, and behind the outer tag
  unfoldable pub parse_done : Option (ℕ × ℕ) → M S (Option ParsePkt)
  parse_done none = pure none
  parse_done (some i) = pure (some (record { l3_proto = swab16 i.0; l3_offset = i.1 }))

  unfoldable pub parse_inner : Option (ℕ × ℕ) → M S (Option ParsePkt)
  parse_inner none = pure none
  parse_inner (some o) = do inner ← skip_vlan o.0 o.1; parse_done inner

  unfoldable pub parse_eth_frame : M S (Option ParsePkt)
  parse_eth_frame w =
      (if ltb w.data_end (w.data_start + 14) then pure none else do
        h_proto ← load16 (w.data_start + 12)
        outer ← skip_vlan h_proto 14
        parse_inner outer)
        w

module _ {S : Type 0} (l3_filter : BpfMap S FlowKey ℕ)
    (vrrp_vrid_filter : BpfMap S ℕ VrrpFilter) where
  unfoldable pub vrrp_filter : ℕ → ℕ → M S Action
  vrrp_filter vrrph len = do
    key ← load8 (vrrph + 1)
    vrrpf ← lookup_elem vrrp_vrid_filter key
    when_found vrrpf (pure pass) (λ f. do
      write_elem vrrp_vrid_filter key (count_total len f)
      if not (f.action == 0)
          then pure pass
          else do write_elem vrrp_vrid_filter key (count_drop len (count_total len f)); pure drop)

  -- from the lookup in `l3_filter` on
  unfoldable pub filter_flow : FlowKey → ℕ → Option ℕ → M S Action
  filter_flow key tot_len vrrph = do
    drop_cnt ← lookup_elem l3_filter key
    when_found drop_cnt (when_found vrrph (pure pass) (λ h. vrrp_filter h tot_len))
        (λ n. do write_elem l3_filter key (increment n); pure drop)

  -- the header of VRRP, if there is one behind the IP header or an authentication header
  unfoldable pub filter_protocol : ℕ → FlowKey → ℕ → ℕ → M S Action
  filter_protocol iph key tot_len protocol w =
      (if protocol == 112
          then (if ltb w.data_end (iph + 20 + 8)
              then pure drop
              else filter_flow key tot_len (some (iph + 20)))
          else if not (protocol == 51)
          then filter_flow key tot_len none
          else if ltb w.data_end (iph + 20 + 12)
          then pure pass
          else do
            nexthdr ← load8 (iph + 20)
            if not (nexthdr == 112)
                then filter_flow key tot_len none
                else if ltb w.data_end (iph + 20 + 12 + 8)
                then pure drop
                else filter_flow key tot_len (some (iph + 20 + 12)))
        w

  unfoldable pub layer3_filter : ParsePkt → M S Action
  layer3_filter pkt w =
      let iph = w.data_start + pkt.l3_offset in
      (if not (pkt.l3_proto == 0x0800)
          then (if pkt.l3_proto == 0x86DD then pure drop else pure pass)
          else if ltb w.data_end (iph + 20)
          then pure pass
          else do
            len ← load16 (iph + 2)
            daddr ← load32 (iph + 16)
            protocol ← load8 (iph + 9)
            filter_protocol iph (ipv4_key daddr) (swab16 len) protocol)
        w

  -- `if (ret == XDP_PASS) { swap_src_dst_mac(data); return XDP_TX; } return ret;`
  unfoldable pub send_back : ℕ → Action → M S Action
  send_back start pass = do swap_src_dst_mac start; pure tx
  send_back start ret = pure ret

  unfoldable pub xdp_pass : M S Action
  xdp_pass w =
      (do
        pkt ← parse_eth_frame
        when_found pkt (pure pass) (λ p. do ret ← layer3_filter p; send_back w.data_start ret))
        w
