-- ===== src/Programs/Balancer/Segment.antt =====
-- `compute_tcp_csum` of xdp_progs/xdp_lb.bpf.c: the checksum of a TCP header, its options and the
-- pseudo header.
use userspace_xdp.Prelude.{
  ℕ, zero, suc, ◌+◌, ◌-◌, ◌*◌, ◌/◌, ◌%◌, ◌^◌, ◌≤◌, ◌<◌, ◌≡◌, refl, arith, ltb, ◌==◌, Bool, true,
  false, some, if◌then◌else◌, swab16, not16, Mem, IsBytes, get16, get32, get16-put16_self, put8,
  put16, put32, put8-IsBytes, put16-IsBytes, put32-IsBytes,
}
use userspace_xdp.Xdp.{M, World, pure, ◌>>=◌, ◌>>◌, load8, load16, load32, store16}
use userspace_xdp.Xdp.Steps.{
  bind_step, then_step, load8_step, load16_step, load32_step, store16_step, pure_step,
}
use userspace_xdp.Xdp.Helpers.{bpf_csum_diff, bpf_csum_diff-eq}
use userspace_xdp.Runtime.Csum.{csum_diff, fold_once}
use userspace_xdp.Runtime.Csum.ByteSum.{◌≅◌, byte_sum}
use userspace_xdp.Runtime.Csum.Diff.{csum_diff-eq}
use userspace_xdp.Runtime.Csum.Field.{byte_sum-put16, fold_twice, pushed}
use userspace_xdp.Programs.Balancer.{csum_reduce_helper}

-- `struct ipv4_psd_header`, which stands on the stack: its 12 bytes from address 0 on
unfoldable pub psd_header : ℕ → ℕ → ℕ → Mem
psd_header src_addr dst_addr tot_len =
    put16 (put8 (put8 (put32 (put32 (λ _. 0) 0 src_addr) 4 dst_addr) 8 0) 9 6) 10
      (swab16 ((swab16 tot_len + 65536 - 20) % 65536))

-- the sum of the options and the result: `true` for 0, `false` for -1
module _ {S : Type 0} where
  -- `n` rounds of the loop over the options; a round reads the word at `opt`
  unfoldable pub add_options : ℕ → ℕ → ℕ → ℕ → ℕ → M S (ℕ × Bool)
  add_options tcphdrlen opt parsed csum zero w = some ((csum, true), w)
  add_options tcphdrlen opt parsed csum (suc n) w =
      (if ltb w.data_end (opt + 4) then pure (csum, false) else do
        sum ← bpf_csum_diff opt 4 csum
        if parsed + 4 == tcphdrlen
            then pure (sum, true)
            else add_options tcphdrlen (opt + 4) (parsed + 4) sum n)
        w

  -- `goto OUT` is taken at once where there are no options
  unfoldable pub sum_options : ℕ → ℕ → ℕ → M S (ℕ × Bool)
  sum_options tcphdrlen opt csum =
      if tcphdrlen == 20 then pure (csum, true) else add_options tcphdrlen opt 20 csum 10

  unfoldable pub compute_tcp_csum : ℕ → ℕ → M S Bool
  compute_tcp_csum ip tcp = do
    store16 (tcp + 16) 0
    header_sum ← bpf_csum_diff tcp 20 0
    saddr ← load32 (ip + 12)
    daddr ← load32 (ip + 16)
    tot_len ← load16 (ip + 2)
    offset ← load8 (tcp + 12)
    r ←
        sum_options (offset / 16 * 4) (tcp + 20)
          (csum_diff (psd_header saddr daddr tot_len) 0 0 0 12 header_sum)
    store16 (tcp + 16) (not16 (csum_reduce_helper r.0))
    pure r.1

psd_header-IsBytes : (s d t : ℕ) → IsBytes (psd_header s d t)
unfolding psd_header
psd_header-IsBytes s d t = put16-IsBytes _ _ _ (
    put8-IsBytes _ _ _
      (put8-IsBytes _ _ _ (put32-IsBytes _ _ _ (put32-IsBytes _ _ _ (λ i. omega arith)))))

-- the words in front of the field that is cleared
kept :
    (m : Mem) (f v a : ℕ)
    → a + 4 ≤ f
    → (put16 m f v a ≡ m a)
      × (get16 (put16 m f v) a ≡ get16 m a)
      × (get32 (put16 m f v) a ≡ get32 m a)
unfolding get32 get16 put16
kept m f v a h = (ground arith, ground arith, ground arith)

-- the header's checksum, where `k` is the memory with the field cleared
unfoldable pub segment_sum : Mem → ℕ → ℕ → ℕ
segment_sum k ip tcp =
    csum_diff (psd_header (get32 k (ip + 12)) (get32 k (ip + 16)) (get16 k (ip + 2))) 0 0 0 12
      (csum_diff k 0 0 tcp 20 0)

psd_pushed :
    (m : Mem) (x : ℕ)
    → IsBytes m
    → x < 2 ^ 32
    → (csum_diff m 0 0 0 12 x ≅ byte_sum m 0 12 + x) × (csum_diff m 0 0 0 12 x < 2 ^ 32)
unfolding byte_sum
psd_pushed m x b h =
    let e : 4 * 0 ≡ 0 = omega arith in
    let p = rw e at (csum_diff-eq m b 0 0 0 3 x (omega arith) h) in (omega (arith, p.0), p.1)

segment-verifies :
    (k : Mem) (ip tcp : ℕ)
    → IsBytes k
    → get16 k (tcp + 16) ≡ 0
    → byte_sum (put16 k (tcp + 16) (not16 (csum_reduce_helper (segment_sum k ip tcp)))) tcp 20
        + byte_sum (psd_header (get32 k (ip + 12)) (get32 k (ip + 16)) (get16 k (ip + 2))) 0 12
      ≅ 0
unfolding segment_sum csum_reduce_helper
segment-verifies k ip tcp b z =
    let psd = psd_header (get32 k (ip + 12)) (get32 k (ip + 16)) (get16 k (ip + 2)) in
    let x1 = csum_diff k 0 0 tcp 20 0 in
    let p1 = pushed k tcp 5 b (omega arith) in
    let p2 = psd_pushed psd x1 (psd_header-IsBytes _ _ _) (omega (arith, p1.1)) in
    let x2 = csum_diff psd 0 0 0 12 x1 in
    let c = not16 (fold_once (fold_once x2) % 65536) in
    let t = fold_twice x2 p2.1 in
    let w = byte_sum-put16 k tcp 8 2 c (omega arith) in omega (arith, p1.0, p2.0, t, w, z)

module _ {S : Type 0} where
  sum_options_none :
      (opt csum : ℕ) (w : World S) → sum_options 20 opt csum w ≡ some ((csum, true), w)
  unfolding sum_options pure
  sum_options_none opt csum w = refl

  compute_tcp_csum-eq :
      (ip tcp : ℕ) (w : World S)
      → w.data_start ≤ ip
      → ip + 20 ≤ tcp
      → tcp + 20 ≤ w.data_end
      → w.mem (tcp + 12) / 16 ≡ 5
      → compute_tcp_csum ip tcp w ≡ (
          let k = put16 w.mem (tcp + 16) 0 in
          some (
            true,
            record w {
              mem = put16 k (tcp + 16) (not16 (csum_reduce_helper (segment_sum k ip tcp)));
            },
          ))
  unfolding compute_tcp_csum segment_sum
  compute_tcp_csum-eq ip tcp w l m u e =
      let k = put16 w.mem (tcp + 16) 0 in
      let o : k (tcp + 12) / 16 * 4 ≡ 20 =
        omega (arith, e, (kept w.mem (tcp + 16) 0 (tcp + 12) (omega arith)).0) in
      then_step _ _ (store16_step _ _ _ (omega arith) (omega arith)) (
        bind_step _ _ (bpf_csum_diff-eq _ _ _ _ (omega arith) (omega arith)) (
          bind_step _ _ (load32_step _ _ (omega arith) (omega arith)) (
            bind_step _ _ (load32_step _ _ (omega arith) (omega arith)) (
              bind_step _ _ (load16_step _ _ (omega arith) (omega arith)) (
                bind_step _ _ (load8_step _ _ (omega arith) (omega arith)) (
                  bind_step _ _ (rw o (sum_options_none _ _ _)) (
                    then_step _ _ (store16_step _ _ _ (omega arith) (omega arith))
                      (pure_step _ _))))))))

  -- A TCP header of 20 bytes, without options, behind an IPv4 header: the function does not fault,
  -- returns 0, and then the one's complement sum of the header and of the pseudo header, for the
  -- addresses and the length that the IPv4 header has, is zero.
  pub compute_tcp_csum-verifies :
      (ip tcp : ℕ) (w : World S)
      → IsBytes w.mem
      → w.data_start ≤ ip
      → ip + 20 ≤ tcp
      → tcp + 20 ≤ w.data_end
      → w.mem (tcp + 12) / 16 ≡ 5
      → (w' : World S) × (compute_tcp_csum ip tcp w ≡ some (true, w'))
        × (byte_sum w'.mem tcp 20
              + byte_sum
                  (psd_header
                    (get32 w.mem (ip + 12))
                    (get32 w.mem (ip + 16))
                    (get16 w.mem (ip + 2)))
                  0
                  12
            ≅ 0)
  compute_tcp_csum-verifies ip tcp w b l m u e =
      let f = tcp + 16 in
      let k = put16 w.mem f 0 in
      let kb = put16-IsBytes w.mem f 0 b in
      let s1 = (kept w.mem f 0 (ip + 12) (omega arith)).2 in
      let s2 = (kept w.mem f 0 (ip + 16) (omega arith)).2 in
      let s3 = (kept w.mem f 0 (ip + 2) (omega arith)).1 in
      (
        _,
        compute_tcp_csum-eq ip tcp w l m u e,
        rw (← s1, ← s2, ← s3)
            (segment-verifies k ip tcp kb (get16-put16_self w.mem f 0 (omega arith))),
      )
