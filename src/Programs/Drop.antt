-- ===== src/Programs/Drop.antt =====
-- xdp_progs/xdp_drop.bpf.c: drop TCP over IPv4.
use userspace_xdp.Prelude.{◌+◌, ◌≡◌, arith, ltb, ◌==◌, not, some, if◌then◌else◌, swab16, get16}
use userspace_xdp.Xdp.{Action, pass, drop, aborted, M, World, pure, ◌>>=◌, load8, load16}

module _ {S : Type 0} where
  unfoldable pub xdp_pass : M S Action
  xdp_pass w =
      let start = w.data_start in
      (if ltb w.data_end (start + 14) then pure aborted else do
        h_proto ← load16 (start + 12)
        if not (swab16 h_proto == 0x0800)
            then pure pass
            else if ltb w.data_end (start + 14 + 20)
            then pure aborted
            else do
              protocol ← load8 (start + 14 + 9)
              if not (protocol == 6)
                  then pure pass
                  else if ltb w.data_end (start + 14 + 20 + 20)
                  then pure aborted
                  else pure drop)
        w

  -- The program always returns and leaves the frame as it is. It aborts exactly on a frame that is
  -- too short for the header that it announces, and drops exactly TCP over IPv4 with a whole header.
  pub xdp_drop-eq :
      (w : World S)
      → xdp_pass w
        ≡ some (
          (if ltb w.data_end (w.data_start + 14)
              then aborted
              else if not (swab16 (get16 w.mem (w.data_start + 12)) == 0x0800)
              then pass
              else if ltb w.data_end (w.data_start + 34)
              then aborted
              else if not (w.mem (w.data_start + 23) == 6)
              then pass
              else if ltb w.data_end (w.data_start + 54)
              then aborted
              else drop),
          w,
        )
  unfolding xdp_pass load8 load16 pure ◌>>=◌
  xdp_drop-eq w = ground arith
