-- ===== src/Programs/Csum.antt =====
-- xdp_progs/xdp_csum.bpf.c: write the IP checksum of a frame 32 times and send the frame back.
use userspace_xdp.Prelude.{ℕ, zero, suc, ◌+◌, ltb, ◌==◌, not, if◌then◌else◌, swab16}
use userspace_xdp.Xdp.{Action, tx, pass, M, pure, ◌>>=◌, ◌>>◌, load16, store16}
use userspace_xdp.Xdp.Mac.{swap_src_dst_mac}
use userspace_xdp.Xdp.Maps.{BpfMap, lookup_elem, when_found, write_elem}
use userspace_xdp.Xdp.Helpers.{bpf_csum_diff}
use userspace_xdp.Xdp.Maps.{increment}
use userspace_xdp.Programs.Ping.{csum_fold_helper}

abbrev pub loop_len : ℕ
loop_len = 32

module _ {S : Type 0} (rxcnt : BpfMap S ℕ ℕ) where
  -- `n` rounds; the checksum of a round is the seed of the next
  unfoldable pub rounds : ℕ → ℕ → ℕ → M S (Unit {0})
  rounds iph csum zero = pure tt
  rounds iph csum (suc n) = do
    sum ← bpf_csum_diff iph 20 csum
    store16 (iph + 10) (csum_fold_helper sum)
    value ← lookup_elem rxcnt 23
    rounds iph (csum_fold_helper sum) n

  unfoldable pub xdp_pass : M S Action
  xdp_pass w =
      let iph = w.data_start + 14 in
      (if ltb w.data_end iph then pure pass else do
        h_proto ← load16 (w.data_start + 12)
        if not (h_proto == swab16 0x0800)
            then pure pass
            else if ltb w.data_end (iph + 20)
            then pure pass
            else do
              rounds iph 0 loop_len
              value ← lookup_elem rxcnt 23
              when_found value (pure tt) (λ n. write_elem rxcnt 23 (increment n))
              swap_src_dst_mac w.data_start
              pure tx)
        w

module _ {S : Type 0} where
  -- the rounds of xdp_progs/xdp_csum_only.bpf.c, which do not read the map
  unfoldable pub rounds_only : ℕ → ℕ → ℕ → M S (Unit {0})
  rounds_only iph csum zero = pure tt
  rounds_only iph csum (suc n) = do
    sum ← bpf_csum_diff iph 20 csum
    store16 (iph + 10) (csum_fold_helper sum)
    rounds_only iph (csum_fold_helper sum) n

  unfoldable pub csum_only : M S Action
  csum_only w =
      let iph = w.data_start + 14 in
      (if ltb w.data_end iph then pure pass else do
        h_proto ← load16 (w.data_start + 12)
        if not (h_proto == swab16 0x0800)
            then pure pass
            else if ltb w.data_end (iph + 20)
            then pure pass
            else do rounds_only iph 0 loop_len; swap_src_dst_mac w.data_start; pure tx)
        w
