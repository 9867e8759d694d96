-- ===== src/Programs/Counters.antt =====
-- xdp_progs/xdp-maps.bpf.c (a histogram of frame sizes) and xdp_progs/xdp_map_access.bpf.c (a flag
-- that switches the program off, and a counter).
use userspace_xdp.Prelude.{
  ℕ, ◌+◌, ◌-◌, ◌%◌, ◌^◌, ◌≡◌, arith, ltb, ◌==◌, not, some, none, Option, if◌then◌else◌,
}
use userspace_xdp.Xdp.{Action, tx, pass, drop, M, World, pure, ◌>>=◌, ◌>>◌}
use userspace_xdp.Xdp.Mac.{swap_mem, swap_src_dst_mac, swap_src_dst_mac-eq}
use userspace_xdp.Xdp.Maps.{BpfMap, lookup_elem, update_elem, when_found, count}

module _ {S : Type 0} where
  unfoldable pub return_frame : M S Action
  return_frame w =
      (if ltb w.data_end (w.data_start + 14)
          then pure drop
          else do swap_src_dst_mac w.data_start; pure tx)
        w

-- `*value + 1`, or 0 where there is none yet
unfoldable pub next_count : Option ℕ → ℕ
next_count none = 0
next_count (some n) = (n + 1) % 2 ^ 32

module _ {S : Type 0} (packet_size_distribute : BpfMap S ℕ ℕ) where
  unfoldable pub count_size : M S Action
  count_size w =
      let pkt_sz = w.data_end - w.data_start in
      (do
        value ← lookup_elem packet_size_distribute pkt_sz
        update_elem packet_size_distribute pkt_sz (next_count value)
        return_frame)
        w

module _ {S : Type 0} (ctl_array : BpfMap S ℕ ℕ) (cntrs_array : BpfMap S ℕ ℕ) where
  unfoldable pub map_access : M S Action
  map_access = do
    flag ← lookup_elem ctl_array 0
    when_found flag (pure pass)
        (λ f. if not (f == 0) then pure pass else do count cntrs_array 0; return_frame)

module _ {S : Type 0} (sizes : BpfMap S ℕ ℕ) where
  -- Where the map takes the entry, every frame is counted under its size, also one that is dropped
  -- because it is too short for an Ethernet header, and any other is sent back without a fault.
  pub count_size-eq :
      (w : World S) (s : S)
      → sizes.update w.maps
          (w.data_end - w.data_start)
          (next_count (sizes.lookup w.maps (w.data_end - w.data_start)))
        ≡ some s
      → (count_size sizes w ≡ (
          if ltb w.data_end (w.data_start + 14)
          then some (drop, record w { maps = s })
          else some (tx, record w { mem = swap_mem w.mem w.data_start; maps = s })))
        × (sizes.lookup s (w.data_end - w.data_start)
            ≡ some (next_count (sizes.lookup w.maps (w.data_end - w.data_start))))
  unfolding count_size return_frame lookup_elem update_elem pure ◌>>=◌ ◌>>◌
  count_size-eq w s u =
      let d = record w { maps = s } in
      (
        ground (arith, u, swap_src_dst_mac-eq d),
        sizes.lookup-update w.maps s (w.data_end - w.data_start) _ u,
      )
