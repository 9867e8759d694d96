-- ===== src/Programs/Tx.antt =====
-- xdp_progs/xdp_tx.bpf.c: send each frame back with its two MAC addresses exchanged.
use userspace_xdp.Prelude.{◌+◌, ◌≤◌, ◌≡◌, arith, ltb, if◌then◌else◌, some, IsBytes}
use userspace_xdp.Xdp.{Action, tx, pass, M, World, pure, ◌>>=◌, ◌>>◌, load16}
use userspace_xdp.Xdp.Mac.{swap_mem, swap_mem-swap_mem, swap_src_dst_mac, swap_src_dst_mac-eq}

module _ {S : Type 0} where
  unfoldable pub xdp_pass : M S Action
  xdp_pass w =
      (if ltb w.data_end (w.data_start + 14)
          then pure pass
          else do swap_src_dst_mac w.data_start; h_proto ← load16 (w.data_start + 12); pure tx)
        w

  pub xdp_pass-eq :
      (w : World S)
      → xdp_pass w ≡ (
          if ltb w.data_end (w.data_start + 14)
          then some (pass, w)
          else some (tx, record w { mem = swap_mem w.mem w.data_start }))
  unfolding xdp_pass load16 pure ◌>>=◌ ◌>>◌
  xdp_pass-eq w = ground (arith, swap_src_dst_mac-eq w)

  -- On a frame that holds an Ethernet header the program does not fault and sends it, and a second
  -- run on the frame that was sent restores the frame.
  pub twice :
      (w : World S)
      → IsBytes w.mem
      → w.data_start + 14 ≤ w.data_end
      → (w' : World S) × (xdp_pass w ≡ some (tx, w')) × (xdp_pass w' ≡ some (tx, w))
  twice w b h =
      let w' = record w { mem = swap_mem w.mem w.data_start } in
      (
        w',
        ground (arith, xdp_pass-eq w),
        ground (arith, xdp_pass-eq w', swap_mem-swap_mem w.mem w.data_start b),
      )
