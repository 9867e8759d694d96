-- ===== src/Afxdp/Sums.antt =====
-- afxdp/l2fwd/xdpsock.c: the checksums of the generated packets. `from32to16` and `do_csum` are, line
-- by line, those of module/helpers.c, and are shared with its model.
use userspace_xdp.Prelude.{
  ℕ, zero, suc, ◌+◌, ◌*◌, ◌/◌, ◌%◌, ◌^◌, ◌<◌, ◌≡◌, ap, arith, Mem, IsBytes, get16, put16, not16,
  get16-lt,
}
use userspace_xdp.Runtime.Csum.{do_csum, fold_once}
use userspace_xdp.Runtime.Csum.ByteSum.{◌≅◌, byte_sum, byte_sum_two, byte_sum-add}
use userspace_xdp.Runtime.Csum.Fold.{do_csum-eq}
use userspace_xdp.Runtime.Csum.Field.{field_verifies, fold_twice, byte_sum-put16}
use userspace_xdp.Afxdp.{u32, u64}

-- `ip_fast_csum`: the length in words of 4 bytes
unfoldable pub ip_fast_csum : Mem → ℕ → ℕ → ℕ
ip_fast_csum m iph ihl = not16 (do_csum m iph (ihl * 4))

unfoldable pub csum_fold : ℕ → ℕ
csum_fold csum = not16 (fold_once (fold_once csum))

unfoldable pub from64to32 : ℕ → ℕ
from64to32 x = let y = x % 2 ^ 32 + x / 2 ^ 32 in u32 (y % 2 ^ 32 + y / 2 ^ 32)

-- `csum_tcpudp_nofold` on a little-endian host
unfoldable pub csum_tcpudp_nofold : ℕ → ℕ → ℕ → ℕ → ℕ → ℕ
unfolding from64to32
csum_tcpudp_nofold saddr daddr len proto sum =
    from64to32 (u64 (u32 sum + u32 saddr + u32 daddr + u32 (u32 (proto + len) * 256)))

unfoldable pub csum_tcpudp_magic : ℕ → ℕ → ℕ → ℕ → ℕ → ℕ
unfolding csum_fold csum_tcpudp_nofold
csum_tcpudp_magic saddr daddr len proto sum =
    csum_fold (csum_tcpudp_nofold saddr daddr len proto sum)

-- the loop of `udp_csum`, by the rounds left
unfoldable pub add_packet : Mem → ℕ → ℕ → ℕ → ℕ
add_packet m udp_pkt zero csum = csum
add_packet m udp_pkt (suc rounds) csum =
    add_packet m (udp_pkt + 2) rounds (u32 (csum + get16 m udp_pkt))

-- Its counter goes by 2, so `len` bytes take (len + 1) / 2 rounds.
unfoldable pub udp_csum : Mem → ℕ → ℕ → ℕ → ℕ → ℕ → ℕ
unfolding add_packet csum_tcpudp_magic
udp_csum m saddr daddr len proto udp_pkt =
    csum_tcpudp_magic saddr daddr len proto (add_packet m udp_pkt ((len + 1) / 2) 0)

add_packet-eq :
    (m : Mem) (a n csum : ℕ)
    → IsBytes m
    → csum + 65535 * n < 2 ^ 32
    → (add_packet m a n csum ≡ csum + byte_sum m a (2 * n)) × (add_packet m a n csum < 2 ^ 32)
unfolding add_packet
add_packet-eq m a zero csum b h =
    let e : 2 * 0 ≡ 0 = omega arith in rw e (unfold byte_sum in omega (arith, h))
add_packet-eq m a (suc n) csum b h =
    let g = get16-lt m a b in
    let rest = add_packet-eq m (a + 2) n (u32 (csum + get16 m a)) b (omega (arith, g, h)) in
    let e : 2 * suc n ≡ 2 * 1 + 2 * n = omega arith in
    let s = byte_sum-add m a 1 (2 * n) in rw e (omega (arith, rest, s, byte_sum_two m a, g, h))

-- the sum of the pseudo header
abbrev pub pseudo : ℕ → ℕ → ℕ → ℕ → ℕ
pseudo saddr daddr len proto = saddr + daddr + 256 * (proto + len)

from64to32-eq : (x : ℕ) → x < 2 ^ 48 → (from64to32 x ≅ x) × (from64to32 x < 2 ^ 32)
unfolding from64to32
from64to32-eq x h = omega arith

csum_tcpudp_magic-eq :
    (saddr daddr len proto sum : ℕ)
    → saddr < 2 ^ 32
    → daddr < 2 ^ 32
    → len < 65536
    → proto < 256
    → sum < 2 ^ 32
    → (sum + pseudo saddr daddr len proto + csum_tcpudp_magic saddr daddr len proto sum ≅ 0)
      × (csum_tcpudp_magic saddr daddr len proto sum < 65536)
unfolding csum_tcpudp_magic csum_fold csum_tcpudp_nofold
csum_tcpudp_magic-eq saddr daddr len proto sum a b c d e =
    let x = u64 (u32 sum + u32 saddr + u32 daddr + u32 (u32 (proto + len) * 256)) in
    let xe : x ≡ sum + pseudo saddr daddr len proto = omega (arith, a, b, c, d, e) in
    let f = from64to32-eq x (omega (arith, xe, a, b, c, d, e)) in
    omega (arith, xe, f, fold_twice (from64to32 x) f.1)

-- For a packet of `len` bytes, less than 2 ^ 16, at `a` whose UDP checksum field is zero, and
-- 32-bit addresses: once `udp_csum` stands in the field, the packet, its last byte completed to a
-- word by the byte that follows, and its pseudo header add up to zero as the receiver adds them up.
pub udp_csum-verifies :
    (m : Mem) (saddr daddr len proto a n : ℕ)
    → IsBytes m
    → saddr < 2 ^ 32
    → daddr < 2 ^ 32
    → len < 65536
    → proto < 256
    → (len + 1) / 2 ≡ 4 + n
    → get16 m (a + 6) ≡ 0
    → byte_sum (put16 m (a + 6) (udp_csum m saddr daddr len proto a)) a (2 * (4 + n))
        + pseudo saddr daddr len proto
      ≅ 0
unfolding udp_csum
udp_csum-verifies m saddr daddr len proto a n bytes hs hd hl hp hn z =
    let s = add_packet-eq m a ((len + 1) / 2) 0 bytes (omega (arith, hl)) in
    let sum = add_packet m a ((len + 1) / 2) 0 in
    let g = csum_tcpudp_magic-eq saddr daddr len proto sum hs hd hl hp s.1 in
    let c = csum_tcpudp_magic saddr daddr len proto sum in
    let e : 2 * 3 + (2 + 2 * n) ≡ 2 * (4 + n) = omega arith in
    let p = rw e at (byte_sum-put16 m a 3 (2 * n) c g.1) in
    let s' : sum ≡ byte_sum m a (2 * (4 + n)) =
      omega (arith, s.0, ap (λ k. byte_sum m a (2 * k)) hn) in
    omega (arith, p, z, s', g.0)

-- For a header of `4 * k` bytes at `a`, k at least 3, whose word at the even offset 2 * j is zero: once the
-- complement of `do_csum` stands there, the header adds up to zero.
pub ip_fast_csum-verifies :
    (m : Mem) (a j n k : ℕ)
    → IsBytes m
    → k * 4 ≡ 2 * j + (2 + n)
    → get16 m (a + 2 * j) ≡ 0
    → byte_sum (put16 m (a + 2 * j) (ip_fast_csum m a k)) a (2 * j + (2 + n)) ≅ 0
unfolding ip_fast_csum
ip_fast_csum-verifies m a j n k bytes e z =
    let d = do_csum-eq m a (k * 4) bytes in
    let x = do_csum m a (k * 4) in
    let s : byte_sum m a (k * 4) ≡ byte_sum m a (2 * j + (2 + n)) = ap (byte_sum m a) e in
    field_verifies m a j n x (not16 x) z (omega (arith, d.0, s)) (omega arith) (omega (arith, d.1))
