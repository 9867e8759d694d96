-- ===== src/Programs/Balancer/Rewrite.antt =====
-- The balancer's new header.
use userspace_xdp.Prelude.{
  ℕ, ◌%◌, ◌+◌, ◌≤◌, ◌≡◌, arith, some, swab32, not16, Mem, IsBytes, get16, get16-put16_self, put16,
  put32, put16-IsBytes, put32-IsBytes,
}
use userspace_xdp.Xdp.{World}
use userspace_xdp.Xdp.Steps.{bind_step, then_step, store32_step, store16_step}
use userspace_xdp.Xdp.Helpers.{put_bytes, put_bytes-IsBytes, store_mac-eq, bpf_csum_diff-eq}
use userspace_xdp.Runtime.Csum.{csum_diff, fold_once}
use userspace_xdp.Runtime.Csum.ByteSum.{◌≅◌, byte_sum}
use userspace_xdp.Runtime.Csum.Field.{sealed}
use userspace_xdp.Programs.Balancer.{IpMacPair, csum_reduce_helper, rewrite}

-- the frame before its checksum is set
unfoldable pub addressed : Mem → ℕ → IpMacPair → IpMacPair → Mem
addressed m d dst src =
    let macs = put_bytes (put_bytes m d dst.mac 6) (d + 6) src.mac 6 in
    put16 (put32 (put32 macs (d + 14 + 16) (swab32 dst.ip)) (d + 14 + 12) (swab32 src.ip))
      (d + 14 + 10) 0

unfoldable pub rewritten : Mem → ℕ → IpMacPair → IpMacPair → Mem
rewritten m d dst src =
    let k = addressed m d dst src in
    put16 k (d + 14 + 10) (not16 (csum_reduce_helper (csum_diff k 0 0 (d + 14) 20 0)))

module _ {S : Type 0} where
  -- On a frame with its Ethernet and its IPv4 header the rewriting does not fault, and gives `rewritten`.
  pub rewrite-eq :
      (dst src : IpMacPair) (w : World S)
      → w.data_start + 34 ≤ w.data_end
      → rewrite w.data_start dst src w
        ≡ some (tt, record w { mem = rewritten w.mem w.data_start dst src })
  unfolding rewrite rewritten addressed
  rewrite-eq dst src w l = then_step _ _ (store_mac-eq _ _ _ (omega arith) (omega arith)) (
      then_step _ _ (store_mac-eq _ _ _ (omega arith) (omega arith)) (
        then_step _ _ (store32_step _ _ _ (omega arith) (omega arith)) (
          then_step _ _ (store32_step _ _ _ (omega arith) (omega arith)) (
            then_step _ _ (store16_step _ _ _ (omega arith) (omega arith)) (
              bind_step _ _ (bpf_csum_diff-eq _ _ _ _ (omega arith) (omega arith))
                (store16_step _ _ _ (omega arith) (omega arith)))))))

not16_mod : (x : ℕ) → not16 (x % 65536) ≡ not16 x
not16_mod x = omega arith

pub addressed-IsBytes :
    (m : Mem) (d : ℕ) (dst src : IpMacPair)
    → IsBytes m
    → IsBytes dst.mac
    → IsBytes src.mac
    → IsBytes (addressed m d dst src)
unfolding addressed
addressed-IsBytes m d dst src b bd bs = put16-IsBytes _ _ _ (
    put32-IsBytes _ _ _
      (put32-IsBytes _ _ _ (put_bytes-IsBytes _ _ _ _ (put_bytes-IsBytes _ _ _ _ b bd) bs)))

addressed-check :
    (m : Mem) (d : ℕ) (dst src : IpMacPair) → get16 (addressed m d dst src) (d + 14 + 10) ≡ 0
unfolding addressed
addressed-check m d dst src = get16-put16_self _ _ 0 (omega arith)

pub rewritten-verifies :
    (m : Mem) (d : ℕ) (dst src : IpMacPair)
    → IsBytes m
    → IsBytes dst.mac
    → IsBytes src.mac
    → byte_sum (rewritten m d dst src) (d + 14) 20 ≅ 0
unfolding rewritten csum_reduce_helper
rewritten-verifies m d dst src b bd bs =
    let k = addressed m d dst src in
    let x = csum_diff k 0 0 (d + 14) 20 0 in
    rw (not16_mod (fold_once (fold_once x))) (
      sealed k (d + 14) 5 8 5 (addressed-IsBytes m d dst src b bd bs) (omega arith) (omega arith)
        (addressed-check m d dst src))

-- On a frame with its Ethernet and its IPv4 header the rewriting does not fault, and the checksum of the
-- new IPv4 header of 20 bytes verifies: its one's complement sum is zero.
pub rewrite-verifies :
    {S : Type 0} (dst src : IpMacPair) (w : World S)
    → IsBytes w.mem
    → IsBytes dst.mac
    → IsBytes src.mac
    → w.data_start + 34 ≤ w.data_end
    → (w' : World S) × (rewrite w.data_start dst src w ≡ some (tt, w'))
      × (byte_sum w'.mem (w.data_start + 14) 20 ≅ 0)
rewrite-verifies dst src w b bd bs l =
    (_, rewrite-eq dst src w l, rewritten-verifies w.mem w.data_start dst src b bd bs)
