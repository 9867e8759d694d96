-- ===== src/Programs/Tunnel/Header.antt =====
-- The outer IPv4 header of the tunnel.
use userspace_xdp.Prelude.{
  ℕ, zero, suc, ◌+◌, ◌*◌, ◌%◌, ◌^◌, ◌≤◌, ◌<◌, ◌≡◌, refl, ap, ◌∙◌, arith, some, swab16, not16, Mem,
  IsBytes, get16, get16-lt, put8, put16, put32, put8-IsBytes, put16-IsBytes, put32-IsBytes,
}
use userspace_xdp.Xdp.{World}
use userspace_xdp.Xdp.Steps.{
  bind_step, region_step, then_step, store32_step, store16_step, store8_step,
}
use userspace_xdp.Runtime.Csum.{fold_once}
use userspace_xdp.Runtime.Csum.ByteSum.{◌≅◌, byte_sum}
use userspace_xdp.Runtime.Csum.Field.{field_verifies, fold_once_lem}
use userspace_xdp.Programs.Tunnel.{IptnlInfo, sum_words, set_iphdr}

unfoldable pub header : Mem → ℕ → IptnlInfo → ℕ → Mem
header m a tnl payload_len =
    let k1 = put16 (put8 (put16 (put8 m a 0x45) (a + 6) 0) (a + 9) 4) (a + 10) 0 in
    let k2 = put16 (put8 k1 (a + 1) 0) (a + 2) (swab16 ((payload_len + 20) % 65536)) in
    put8 (put32 (put32 k2 (a + 16) tnl.daddr) (a + 12) tnl.saddr) (a + 8) 8

pub header-IsBytes :
    (m : Mem) (a : ℕ) (tnl : IptnlInfo) (n : ℕ) → IsBytes m → IsBytes (header m a tnl n)
unfolding header
header-IsBytes m a tnl n b = put8-IsBytes _ _ _ (
    put32-IsBytes _ _ _ (
      put32-IsBytes _ _ _ (
        put16-IsBytes _ _ _ (
          put8-IsBytes _ _ _ (
            put16-IsBytes _ _ _
              (put8-IsBytes _ _ _ (put16-IsBytes _ _ _ (put8-IsBytes _ _ _ b))))))))

pub header-check :
    (m : Mem) (a : ℕ) (tnl : IptnlInfo) (n : ℕ) → get16 (header m a tnl n) (a + 10) ≡ 0
unfolding header get16 put8 put16 put32
header-check m a tnl n = ground arith

-- `n` words add up to their bytes' sum where the sum cannot wrap around.
pub sum_words-eq :
    (m : Mem) (a n csum : ℕ)
    → IsBytes m
    → csum + 65535 * n < 2 ^ 32
    → sum_words m a n csum ≡ csum + byte_sum m a (2 * n)
unfolding sum_words byte_sum get16
sum_words-eq m a zero csum b h = omega arith
sum_words-eq m a (suc n) csum b h =
    let e : (csum + get16 m a) % 2 ^ 32 ≡ csum + get16 m a = omega (arith, get16-lt m a b) in
    let two : 2 * suc n ≡ suc (suc (2 * n)) = omega arith in
    let split : byte_sum m a (2 * suc n) ≡ get16 m a + byte_sum m (a + 2) (2 * n) =
      ap (byte_sum m a) two ∙ refl in
    rw e (
      omega (
        arith,
        split,
        sum_words-eq m (a + 2) n (csum + get16 m a) b (omega (arith, get16-lt m a b)),
      ))

module _ {S : Type 0} where
  pub set_iphdr-eq :
      (a : ℕ) (tnl : IptnlInfo) (n : ℕ) (w : World S)
      → w.data_start ≤ a
      → a + 20 ≤ w.data_end
      → set_iphdr a tnl n w ≡ (
          let k = header w.mem a tnl n in
          some (tt, record w { mem = put16 k (a + 10) (not16 (fold_once (sum_words k a 10 0))) }))
  unfolding set_iphdr header
  set_iphdr-eq a tnl n w l u = then_step _ _ (store8_step _ _ _ (omega arith) (omega arith)) (
      then_step _ _ (store16_step _ _ _ (omega arith) (omega arith)) (
        then_step _ _ (store8_step _ _ _ (omega arith) (omega arith)) (
          then_step _ _ (store16_step _ _ _ (omega arith) (omega arith)) (
            then_step _ _ (store8_step _ _ _ (omega arith) (omega arith)) (
              then_step _ _ (store16_step _ _ _ (omega arith) (omega arith)) (
                then_step _ _ (store32_step _ _ _ (omega arith) (omega arith)) (
                  then_step _ _ (store32_step _ _ _ (omega arith) (omega arith)) (
                    then_step _ _ (store8_step _ _ _ (omega arith) (omega arith)) (
                      bind_step _ _ (region_step _ _ _ (omega arith) (omega arith))
                        (store16_step _ _ _ (omega arith) (omega arith)))))))))))

  -- The outer header is written without a fault where its 20 bytes are in the frame, and their one's
  -- complement sum then is zero if the one fold of the sum of the header's words does not carry.
  pub outer_header-verifies :
      (a : ℕ) (tnl : IptnlInfo) (n : ℕ) (w : World S)
      → IsBytes w.mem
      → w.data_start ≤ a
      → a + 20 ≤ w.data_end
      → fold_once (sum_words (header w.mem a tnl n) a 10 0) < 65536
      → (w' : World S) × (set_iphdr a tnl n w ≡ some (tt, w')) × (byte_sum w'.mem a 20 ≅ 0)
  outer_header-verifies a tnl n w b l u f =
      let k = header w.mem a tnl n in
      let x = sum_words k a 10 0 in
      let bk = header-IsBytes w.mem a tnl n b in
      (
        _,
        set_iphdr-eq a tnl n w l u,
        field_verifies k a 5 8 x (not16 (fold_once x)) (header-check w.mem a tnl n)
            (omega (arith, sum_words-eq k a 10 0 bk (omega arith))) (omega arith)
            (fold_once_lem x f),
      )
