-- ===== src/Programs/Tunnel.antt =====
-- xdp_progs/xdp_tx_iptunnel.bpf.c: put IPv4 frames to a listed service into an IPv4 tunnel.
pub mod Header
pub mod Sent
use userspace_xdp.Prelude.{
  ℕ, zero, suc, ◌+◌, ◌-◌, ◌*◌, ◌/◌, ◌%◌, ◌^◌, ◌≤◌, ◌<◌, ◌≡◌, refl, arith, ltb, leb, ◌==◌, ◌||◌,
  Bool, true, false, not, some, none, Option, if◌then◌else◌, swab16, not16, Mem, IsBytes, get16,
  get32, put16, put32,
}
use userspace_xdp.Xdp.{
  Action, tx, pass, drop, M, World, pure, ◌>>=◌, ◌>>◌, load8, load16, load32, store8, store16,
  store32, move, region,
}
use userspace_xdp.Xdp.Maps.{BpfMap, lookup_elem, when_found, count}
use userspace_xdp.Xdp.Helpers.{grow_head, store_mac}
use userspace_xdp.Runtime.Csum.{fold_once}

-- `struct vip`, for IPv4
pub record Vip : Type 0 where
  pub daddr : ℕ
  pub dport : ℕ
  pub family : ℕ
  pub protocol : ℕ

-- `struct iptnl_info`, for IPv4; the six bytes of the address are `dmac 0` to `dmac 5`
pub record IptnlInfo : Type 0 where
  pub saddr : ℕ
  pub daddr : ℕ
  pub family : ℕ
  pub dmac : Mem

-- the sum of `n` words from `a` on, a `u32`
unfoldable pub sum_words : Mem → ℕ → ℕ → ℕ → ℕ
sum_words m a zero csum = csum
sum_words m a (suc n) csum = sum_words m (a + 2) n ((csum + get16 m a) % 2 ^ 32)

module _ {S : Type 0} where
  -- `none` is the result -1
  unfoldable pub get_dport : ℕ → ℕ → M S (Option ℕ)
  get_dport trans_data protocol w =
      (if protocol == 6
          then (if ltb w.data_end (trans_data + 20)
              then pure none
              else do dest ← load16 (trans_data + 2); pure (some dest))
          else if protocol == 17
          then (if ltb w.data_end (trans_data + 8)
              then pure none
              else do dest ← load16 (trans_data + 2); pure (some dest))
          else pure (some 0))
        w

  unfoldable pub set_ethhdr : ℕ → ℕ → IptnlInfo → ℕ → M S (Unit {0})
  set_ethhdr new_eth old_eth tnl h_proto = do
    move (new_eth + 6) old_eth 6
    store_mac new_eth tnl.dmac
    store16 (new_eth + 12) h_proto

  -- the outer IP header; its field `id` is left as the memory is
  unfoldable pub set_iphdr : ℕ → IptnlInfo → ℕ → M S (Unit {0})
  set_iphdr iph tnl payload_len = do
    store8 iph 0x45
    store16 (iph + 6) 0
    store8 (iph + 9) 4
    store16 (iph + 10) 0
    store8 (iph + 1) 0
    store16 (iph + 2) (swab16 ((payload_len + 20) % 65536))
    store32 (iph + 16) tnl.daddr
    store32 (iph + 12) tnl.saddr
    store8 (iph + 8) 8
    mem ← region iph 20
    store16 (iph + 10) (not16 (fold_once (sum_words mem iph 10 0)))

module _ {S : Type 0} (rxcnt : BpfMap S ℕ ℕ) (vip2tnl : BpfMap S Vip IptnlInfo) where
  -- from the new room at the head of the frame on
  unfoldable pub encapsulate : ℕ → IptnlInfo → ℕ → M S Action
  encapsulate protocol tnl payload_len w =
      let start = w.data_start in
      (if ltb w.data_end (start + 14)
            || (ltb w.data_end (start + 20 + 14) || ltb w.data_end (start + 14 + 20))
          then pure drop
          else do
            set_ethhdr start (start + 20) tnl (swab16 0x0800)
            set_iphdr (start + 14) tnl payload_len
            count rxcnt protocol
            pure tx)
        w

  unfoldable pub handle_vip : Vip → ℕ → M S Action
  handle_vip vip payload_len = do
    tnl ← lookup_elem vip2tnl vip
    when_found tnl (pure pass) (λ t. if not (t.family == 2) then pure pass else do
      err ← grow_head 20
      if not (err == 0) then pure drop else encapsulate vip.protocol t payload_len)

  unfoldable pub handle_ipv4 : M S Action
  handle_ipv4 w =
      let iph = w.data_start + 14 in
      (if ltb w.data_end (iph + 20) then pure drop else do
        protocol ← load8 (iph + 9)
        dport ← get_dport (iph + 20) protocol
        when_found dport (pure drop) (λ port. do
          daddr ← load32 (iph + 16)
          tot_len ← load16 (iph + 2)
          handle_vip (record { daddr = daddr; dport = port; family = 2; protocol = protocol })
              (swab16 tot_len)))
        w

  unfoldable pub xdp_pass : M S Action
  xdp_pass w =
      (if ltb w.data_end (w.data_start + 14) then pure drop else do
        h_proto ← load16 (w.data_start + 12)
        if h_proto == swab16 0x0800 then handle_ipv4 else pure pass)
        w
