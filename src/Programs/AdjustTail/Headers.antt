-- ===== src/Programs/AdjustTail/Headers.antt =====
-- The headers of the ICMP error.
use userspace_xdp.Prelude.{
  ◌*◌, ◌%◌, ◌^◌, refl, ap, sym, subst, not16, ℕ, ◌+◌, ◌-◌, ◌≤◌, ◌≡◌, arith, some, swab16, Mem,
  IsBytes, get16, get32, get16-put16_self, put8, put16, put32, put8-IsBytes, put16-IsBytes,
  put32-IsBytes,
}
use userspace_xdp.Xdp.Steps.{
  bind_step, then_step, load32_step, store32_step, store16_step, store8_step,
}
use userspace_xdp.Runtime.Csum.{csum_diff}
use userspace_xdp.Runtime.Csum.ByteSum.{◌≅◌, byte_sum}
use userspace_xdp.Runtime.Csum.Field.{sealed}
use userspace_xdp.Xdp.{World, pure, ◌>>=◌}
use userspace_xdp.Xdp.Helpers.{bpf_csum_diff}
use userspace_xdp.Runtime.Csum.{fold_once}
use userspace_xdp.Runtime.Csum.Diff.{csum_diff-eq}
use userspace_xdp.Programs.AdjustTail.{
  csum_fold_helper, ipv4_csum, icmp_toobig_size, headroom, set_icmphdr, set_iphdr,
}

-- One fold is enough for a sum of the runtime's helper that begins with 0.
one_fold :
    (m : Mem) (a n : ℕ)
    → IsBytes m
    → n ≤ 128
    → csum_fold_helper (csum_diff m 0 0 a (4 * n) 0)
      ≡ not16 (fold_once (fold_once (csum_diff m 0 0 a (4 * n) 0)))
unfolding csum_fold_helper
one_fold m a n b h =
    let (e, l, small) = csum_diff-eq m b 0 0 a n 0 (omega arith) (omega arith) in
    let s = small refl in ap not16 (omega (arith, s))

-- A header whose checksum is set sums up to zero.
pub sealed_once :
    (m : Mem) (a j n k : ℕ)
    → IsBytes m
    → 4 * k ≡ 2 * j + (2 + n)
    → k ≤ 128
    → get16 m (a + 2 * j) ≡ 0
    → byte_sum (put16 m (a + 2 * j) (csum_fold_helper (csum_diff m 0 0 a (4 * k) 0))) a (4 * k) ≅ 0
sealed_once m a j n k b e h z =
    subst (λ c. byte_sum (put16 m (a + 2 * j) c) a (4 * k) ≅ 0) (sym (one_fold m a k b h))
      (sealed m a j n k b e h z)

unfoldable pub icmp_unsummed : ℕ → Mem → ℕ → Mem
icmp_unsummed p m a =
    put16 (put16 (put8 (put8 m a 3) (a + 1) 4) (a + 6) (swab16 ((p + 2 ^ 32 - 14) % 2 ^ 32)))
      (a + 2) 0

-- at `a`, for the original header at `o`
unfoldable pub ip_unsummed : Mem → ℕ → ℕ → Mem
ip_unsummed m a o =
    let k1 = put8 m (a + 8) 64 in
    let k2 = put32 k1 (a + 16) (get32 k1 (o + 12)) in
    let k3 = put32 k2 (a + 12) (get32 k2 (o + 16)) in
    put16
      (put16 (put8 (put8 (put8 k3 a 0x45) (a + 9) 1) (a + 1) 0) (a + 2)
        (swab16 (icmp_toobig_size + headroom - 14)))
      (a + 10) 0

pub icmp_unsummed-IsBytes : (p : ℕ) (m : Mem) (a : ℕ) → IsBytes m → IsBytes (icmp_unsummed p m a)
unfolding icmp_unsummed
icmp_unsummed-IsBytes p m a b =
    put16-IsBytes _ _ _ (put16-IsBytes _ _ _ (put8-IsBytes _ _ _ (put8-IsBytes _ _ _ b)))

pub icmp_unsummed-check : (p : ℕ) (m : Mem) (a : ℕ) → get16 (icmp_unsummed p m a) (a + 2) ≡ 0
unfolding icmp_unsummed
icmp_unsummed-check p m a = get16-put16_self _ _ 0 (omega arith)

pub ip_unsummed-IsBytes : (m : Mem) (a o : ℕ) → IsBytes m → IsBytes (ip_unsummed m a o)
unfolding ip_unsummed
ip_unsummed-IsBytes m a o b = put16-IsBytes _ _ _ (
    put16-IsBytes _ _ _ (
      put8-IsBytes _ _ _ (
        put8-IsBytes _ _ _
          (put8-IsBytes _ _ _ (put32-IsBytes _ _ _ (put32-IsBytes _ _ _ (put8-IsBytes _ _ _ b)))))))

pub ip_unsummed-check : (m : Mem) (a o : ℕ) → get16 (ip_unsummed m a o) (a + 10) ≡ 0
unfolding ip_unsummed
ip_unsummed-check m a o = get16-put16_self _ _ 0 (omega arith)

module _ {S : Type 0} where
  ipv4_csum-eq :
      (a n : ℕ) (w : World S)
      → w.data_start ≤ a
      → a + n ≤ w.data_end
      → ipv4_csum a n w ≡ some (csum_fold_helper (csum_diff w.mem 0 0 a n 0), w)
  unfolding ipv4_csum bpf_csum_diff pure ◌>>=◌
  ipv4_csum-eq a n w l u = ground arith

  pub set_icmphdr-eq :
      (p a : ℕ) (w : World S)
      → w.data_start ≤ a
      → a + 92 ≤ w.data_end
      → set_icmphdr p a w ≡ (
          let k = icmp_unsummed p w.mem a in
          some (tt, record w { mem = put16 k (a + 2) (csum_fold_helper (csum_diff k 0 0 a 92 0)) }))
  unfolding set_icmphdr icmp_unsummed
  set_icmphdr-eq p a w l u = then_step _ _ (store8_step _ _ _ (omega arith) (omega arith)) (
      then_step _ _ (store8_step _ _ _ (omega arith) (omega arith)) (
        then_step _ _ (store16_step _ _ _ (omega arith) (omega arith)) (
          then_step _ _ (store16_step _ _ _ (omega arith) (omega arith)) (
            bind_step _ _ (ipv4_csum-eq _ _ _ (omega arith) (omega arith))
              (store16_step _ _ _ (omega arith) (omega arith))))))

  -- The ICMP header is written without a fault where its 92 bytes are in the frame, and then the
  -- one's complement sum of the 92 bytes is zero.
  pub set_icmphdr-verifies :
      (p a : ℕ) (w : World S)
      → IsBytes w.mem
      → w.data_start ≤ a
      → a + 92 ≤ w.data_end
      → (w' : World S) × (set_icmphdr p a w ≡ some (tt, w')) × (byte_sum w'.mem a 92 ≅ 0)
  set_icmphdr-verifies p a w b l u = (
    _,
    set_icmphdr-eq p a w l u,
    sealed_once (icmp_unsummed p w.mem a) a 1 88 23 (icmp_unsummed-IsBytes p w.mem a b)
        (omega arith) (omega arith) (icmp_unsummed-check p w.mem a),
  )

  pub set_iphdr-eq :
      (a o : ℕ) (w : World S)
      → w.data_start ≤ a
      → a + 20 ≤ w.data_end
      → w.data_start ≤ o
      → o + 20 ≤ w.data_end
      → set_iphdr a o w ≡ (
          let k = ip_unsummed w.mem a o in
          some
            (tt, record w { mem = put16 k (a + 10) (csum_fold_helper (csum_diff k 0 0 a 20 0)) }))
  unfolding set_iphdr ip_unsummed
  set_iphdr-eq a o w l u l' u' = then_step _ _ (store8_step _ _ _ (omega arith) (omega arith)) (
      bind_step _ _ (load32_step _ _ (omega arith) (omega arith)) (
        then_step _ _ (store32_step _ _ _ (omega arith) (omega arith)) (
          bind_step _ _ (load32_step _ _ (omega arith) (omega arith)) (
            then_step _ _ (store32_step _ _ _ (omega arith) (omega arith)) (
              then_step _ _ (store8_step _ _ _ (omega arith) (omega arith)) (
                then_step _ _ (store8_step _ _ _ (omega arith) (omega arith)) (
                  then_step _ _ (store8_step _ _ _ (omega arith) (omega arith)) (
                    then_step _ _ (store16_step _ _ _ (omega arith) (omega arith)) (
                      then_step _ _ (store16_step _ _ _ (omega arith) (omega arith)) (
                        bind_step _ _ (ipv4_csum-eq _ _ _ (omega arith) (omega arith))
                          (store16_step _ _ _ (omega arith) (omega arith))))))))))))

  -- The IPv4 header is written without a fault where it and the original header are in the frame, and
  -- then the one's complement sum of its 20 bytes is zero.
  pub set_iphdr-verifies :
      (a o : ℕ) (w : World S)
      → IsBytes w.mem
      → w.data_start ≤ a
      → a + 20 ≤ w.data_end
      → w.data_start ≤ o
      → o + 20 ≤ w.data_end
      → (w' : World S) × (set_iphdr a o w ≡ some (tt, w')) × (byte_sum w'.mem a 20 ≅ 0)
  set_iphdr-verifies a o w b l u l' u' = (
    _,
    set_iphdr-eq a o w l u l' u',
    sealed_once (ip_unsummed w.mem a o) a 5 8 5 (ip_unsummed-IsBytes w.mem a o b) (omega arith)
        (omega arith) (ip_unsummed-check w.mem a o),
  )
