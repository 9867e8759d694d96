-- ===== src/Programs/Balancer.antt =====
-- xdp_progs/xdp_lb.bpf.c: rewrite the addresses of TCP over IPv4 towards a target.
pub mod Rewrite
pub mod Segment
pub mod Marked
pub mod Balanced
use userspace_xdp.Prelude.{
  ℕ, ◌+◌, ◌-◌, ◌*◌, ◌/◌, ◌%◌, ◌^◌, ◌≤◌, ◌<◌, ◌≡◌, refl, arith, ltb, leb, ◌==◌, ◌&&◌, Bool, true,
  false, not, some, none, Option, if◌then◌else◌, swab16, swab32, not16, bit_xor, Mem, IsBytes,
  get16, get32, put16, put32,
}
use userspace_xdp.Xdp.{
  Action, tx, pass, drop, aborted, M, World, in_packet, pure, ◌>>=◌, ◌>>◌, load8, load16, load32,
  store16, store32, region,
}
use userspace_xdp.Xdp.Maps.{BpfMap, lookup_elem, when_found}
use userspace_xdp.Xdp.Helpers.{bpf_csum_diff, store_mac}
use userspace_xdp.Runtime.Csum.{fold_once}
use userspace_xdp.Programs.Hash.{HashAndSum, hash_and_sum, store_result}

-- `struct ip_mac_pair`; the six bytes of the address are `mac 0` to `mac 5`
pub record IpMacPair : Type 0 where
  pub mac : Mem
  pub ip : ℕ

-- the high half added to the low half, twice, as a `__u16`
unfoldable pub csum_reduce_helper : ℕ → ℕ
csum_reduce_helper csum = fold_once (fold_once csum) % 65536

unfoldable pub get_target_key : ℕ → ℕ → ℕ → ℕ
get_target_key src_ip src_port dst_port = bit_xor (bit_xor src_ip src_port) dst_port % 2

module _ {S : Type 0} where
  -- the new addresses and the IP checksum
  unfoldable pub rewrite : ℕ → IpMacPair → IpMacPair → M S (Unit {0})
  rewrite start dst src = do
    store_mac start dst.mac
    store_mac (start + 6) src.mac
    store32 (start + 14 + 16) (swab32 dst.ip)
    store32 (start + 14 + 12) (swab32 src.ip)
    store16 (start + 14 + 10) 0
    csum ← bpf_csum_diff (start + 14) 20 0
    store16 (start + 14 + 10) (not16 (csum_reduce_helper csum))

  -- the payload is overwritten with the hash of the new frame
  unfoldable pub mark_payload : ℕ → M S Action
  mark_payload start w =
      (if ltb (start + 1200) w.data_end
          then pure pass
          else if ltb w.data_end (start + 60)
          then pure pass
          else do
            mem ← region start 60
            store_result (start + 14 + 20) (hash_and_sum mem start)
            pure tx)
        w

module _ {S : Type 0} (targets_map : BpfMap S ℕ IpMacPair) (config_map : BpfMap S ℕ IpMacPair) where
  -- the balancer's own addresses, then the frame
  unfoldable pub forward : ℕ → IpMacPair → M S Action
  forward start dst = do
    src ← lookup_elem config_map 0
    when_found src (pure aborted) (λ s. do rewrite start dst s; mark_payload start)

  -- the destination: a target, or the client where the hash is 0 or 1
  unfoldable pub choose : ℕ → HashAndSum → M S (Option IpMacPair)
  choose start r = if r.xxhash64_res / 2 == 0 then lookup_elem config_map 1 else do
    saddr ← load32 (start + 14 + 12)
    source ← load16 (start + 34)
    dest ← load16 (start + 34 + 2)
    lookup_elem targets_map (get_target_key saddr source dest)

  unfoldable pub handle_tcp : M S Action
  handle_tcp w =
      let start = w.data_start in
      (if ltb w.data_end (start + 34 + 20) then pure drop else do
        client_cfg ← lookup_elem config_map 1
        when_found client_cfg (pure aborted) (λ c.
            if ltb (start + 1200) w.data_end
            then pure pass
            else if ltb w.data_end (start + 60)
            then pure pass
            else do
              mem ← region start 60
              dst ← choose start (hash_and_sum mem start)
              when_found dst (pure aborted) (λ d. forward start d)))
        w

  unfoldable pub xdp_pass : M S Action
  xdp_pass w =
      let start = w.data_start in
      (if ltb w.data_end (start + 14)
          then pure drop
          else if ltb w.data_end (start + 14 + 20)
          then pure drop
          else do
            protocol ← load8 (start + 14 + 9)
            if not (protocol == 6) then pure pass else handle_tcp)
        w
