-- ===== src/Tests/Sums.antt =====
-- The checksums of module/helpers.c and of the programs at concrete memories.
use userspace_xdp.Prelude.{
  Bool, true, get16, get32, ◌==◌, if◌then◌else◌, ℕ, ◌+◌, ◌*◌, ◌%◌, ◌^◌, ◌<◌, ◌≤◌, ◌≡◌, ◌≢◌, refl,
  arith, ◌⊎◌, inl, inr, some, Mem, IsBytes,
}
use userspace_xdp.Xdp.{World}
use userspace_xdp.Runtime.Csum.{csum_diff, fold_once}
use userspace_xdp.Runtime.Csum.ByteSum.{◌≅◌, byte_sum}
use userspace_xdp.Runtime.Csum.Diff.{csum_diff-eq}
use userspace_xdp.Programs.Tunnel.{IptnlInfo, sum_words}
use userspace_xdp.Programs.Tunnel
use userspace_xdp.Programs.Tunnel.Header.{header, outer_header-verifies}

-- the bytes 0, 1, 2, ...
abbrev ramp : Mem
ramp i = i % 256

abbrev seed : ℕ
seed = 4294967295

ramp-IsBytes : IsBytes ramp
ramp-IsBytes i = omega arith

csum_diff-eq_example :
    (csum_diff ramp 4 (4 * 2) 32 (4 * 5) seed + byte_sum ramp 4 (4 * 2)
      ≅ byte_sum ramp 32 (4 * 5) + seed)
    × (csum_diff ramp 4 (4 * 2) 32 (4 * 5) seed < 2 ^ 32)
    × (seed ≡ 0 → csum_diff ramp 4 (4 * 2) 32 (4 * 5) seed < 65536)
csum_diff-eq_example = csum_diff-eq ramp ramp-IsBytes 4 2 32 5 seed (omega arith) (omega arith)

abbrev frame : World (Unit {0})
frame = record { data_start = 100; data_end = 400; mem = ramp; maps = tt }

abbrev tunnel : IptnlInfo
tunnel = record { saddr = 1; daddr = 2; family = 2; dmac = ramp }

no_carry : fold_once (sum_words (header ramp 114 tunnel 40) 114 10 0) < 65536
unfolding sum_words userspace_xdp.Prelude.get16 header userspace_xdp.Prelude.put8
    userspace_xdp.Prelude.put32
no_carry = omega arith

outer_header-verifies_example :
    (w' : World (Unit {0})) × (Tunnel.set_iphdr 114 tunnel 40 frame ≡ some (tt, w'))
    × (byte_sum w'.mem 114 20 ≅ 0)
outer_header-verifies_example =
    outer_header-verifies 114 tunnel 40 frame ramp-IsBytes (omega arith) (omega arith) no_carry
