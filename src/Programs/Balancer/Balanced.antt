-- ===== src/Programs/Balancer/Balanced.antt =====
-- The balancer's verdict on a TCP frame.
use userspace_xdp.Prelude.{
  ℕ, ◌+◌, ◌/◌, ◌≤◌, ◌<◌, ◌≡◌, inl, inr, refl, ap, ◌∙◌, arith, false, not, Bool-cases, Option, some,
  ltb, ◌==◌, if◌then◌else◌, swab32, Mem, IsBytes, get16, get32,
}
use userspace_xdp.Xdp.{World, tx, aborted, pure}
use userspace_xdp.Xdp.Steps.{
  bind_step, then_step, load8_step, load16_step, load32_step, region_step, pure_step,
}
use userspace_xdp.Xdp.Maps.{BpfMap, lookup_elem, when_found}
use userspace_xdp.Runtime.Csum.ByteSum.{◌≅◌, byte_sum}
use userspace_xdp.Programs.Hash.{hash_and_sum, store_result_step}
use userspace_xdp.Programs.Balancer.{
  IpMacPair, get_target_key, mark_payload, forward, choose, handle_tcp, xdp_pass,
}
use userspace_xdp.Programs.Balancer.Rewrite.{rewritten, rewrite-eq, rewritten-verifies}
use userspace_xdp.Programs.Balancer.Marked.{
  marked, marked_other, marked-verifies, marked_ip, rewritten_ip, rewritten_mac,
}

module _ {S : Type 0} where
  mark_payload-eq :
      (w : World S)
      → w.data_start + 60 ≤ w.data_end
      → w.data_end ≤ w.data_start + 1200
      → mark_payload w.data_start w ≡ some (tx, record w { mem = marked w.mem w.data_start })
  unfolding mark_payload marked
  mark_payload-eq w l u =
      let d = w.data_start in
      let t3 : ltb (d + 1200) w.data_end ≡ false = ground (arith, u) in
      let t4 : ltb w.data_end (d + 60) ≡ false = ground (arith, l) in
      rw (t3, t4)
        (bind_step _ _ (region_step _ _ _ (omega arith) (omega (arith, l))) (
          then_step _ _ (store_result_step _ _ _ (omega arith) (omega (arith, l))) (pure_step _ _)))

module _ {S : Type 0} (targets_map : BpfMap S ℕ IpMacPair) (config_map : BpfMap S ℕ IpMacPair) where
  forward-eq :
      (dst src : IpMacPair) (w : World S)
      → w.data_start + 60 ≤ w.data_end
      → w.data_end ≤ w.data_start + 1200
      → config_map.lookup w.maps 0 ≡ some src
      → forward targets_map config_map w.data_start dst w
        ≡ some (tx, record w { mem = marked (rewritten w.mem w.data_start dst src) w.data_start })
  unfolding forward when_found lookup_elem
  forward-eq dst src w l u e = bind_step _ _ (ap (λ o. some (o, w)) e) (
      then_step _ _ (rewrite-eq dst src w (omega (arith, l)))
        (mark_payload-eq (record w { mem = rewritten w.mem w.data_start dst src }) l u))

  -- The destination that the balancer picks: one of two targets, by the lowest bits of the client's address
  -- and of the ports; or the client, if the hash of the frame is 0 or 1.
  unfoldable pub picked : World S → Option IpMacPair
  picked w =
      let d = w.data_start in
      if (hash_and_sum w.mem d).xxhash64_res / 2 == 0
      then config_map.lookup w.maps 1
      else targets_map.lookup w.maps (
          get_target_key (get32 w.mem (d + 14 + 12)) (get16 w.mem (d + 34))
            (get16 w.mem (d + 34 + 2)))

  choose-eq :
      (w : World S)
      → w.data_start + 60 ≤ w.data_end
      → choose targets_map config_map w.data_start (hash_and_sum w.mem w.data_start) w
        ≡ some (picked w, w)
  unfolding choose picked lookup_elem
  choose-eq w l = elim (Bool-cases ((hash_and_sum w.mem w.data_start).xxhash64_res / 2 == 0)) [
    | inl e ↦ rw e refl
    | inr e ↦ rw e (
        bind_step _ _ (load32_step _ _ (omega arith) (omega (arith, l))) (
          bind_step _ _ (load16_step _ _ (omega arith) (omega (arith, l)))
            (bind_step _ _ (load16_step _ _ (omega arith) (omega (arith, l))) refl)))
  ]

  handle_tcp-eq :
      (client : IpMacPair) (w : World S)
      → w.data_start + 60 ≤ w.data_end
      → w.data_end ≤ w.data_start + 1200
      → config_map.lookup w.maps 1 ≡ some client
      → handle_tcp targets_map config_map w
        ≡ when_found
            (picked w)
            (pure aborted)
            (λ d. forward targets_map config_map w.data_start d)
            w
  unfolding handle_tcp when_found lookup_elem
  handle_tcp-eq client w l u e =
      let d = w.data_start in
      let t2 : ltb w.data_end (d + 34 + 20) ≡ false = ground (arith, l) in
      let t3 : ltb (d + 1200) w.data_end ≡ false = ground (arith, u) in
      let t4 : ltb w.data_end (d + 60) ≡ false = ground (arith, l) in
      rw t2 (
        bind_step _ _ (ap (λ o. some (o, w)) e) (
          rw (t3, t4)
            (bind_step _ _ (region_step _ _ _ (omega arith) (omega (arith, l)))
              (bind_step _ _ (choose-eq w l) refl))))

  xdp_pass-eq :
      (w : World S)
      → w.data_start + 60 ≤ w.data_end
      → w.mem (w.data_start + 14 + 9) ≡ 6
      → xdp_pass targets_map config_map w ≡ handle_tcp targets_map config_map w
  unfolding xdp_pass
  xdp_pass-eq w l e =
      let d = w.data_start in
      let t1 : ltb w.data_end (d + 14) ≡ false = ground (arith, l) in
      let t2 : ltb w.data_end (d + 14 + 20) ≡ false = ground (arith, l) in
      let t3 : not (w.mem (d + 14 + 9) == 6) ≡ false = ground (arith, e) in
      rw (t1, t2) (bind_step _ _ (load8_step _ _ (omega arith) (omega (arith, l))) (rw t3 refl))

module _ {S : Type 0} (targets_map : BpfMap S ℕ IpMacPair) (config_map : BpfMap S ℕ IpMacPair) where
  -- A TCP frame of 60 to 1200 bytes is sent to the destination that the balancer picks, if its two entries
  -- of the configuration are there: the MAC and the IPv4 addresses are those of the destination and of the
  -- balancer, the checksum of the IPv4 header verifies, the frame's length and the maps stay as they are.
  pub balanced :
      (client dst src : IpMacPair) (w : World S) (i : ℕ)
      → i < 6
      → IsBytes w.mem
      → IsBytes dst.mac
      → IsBytes src.mac
      → w.data_start + 60 ≤ w.data_end
      → w.data_end ≤ w.data_start + 1200
      → w.mem (w.data_start + 14 + 9) ≡ 6
      → config_map.lookup w.maps 1 ≡ some client
      → config_map.lookup w.maps 0 ≡ some src
      → picked targets_map config_map w ≡ some dst
      → (m : Mem) × (xdp_pass targets_map config_map w ≡ some (tx, record w { mem = m }))
        × (byte_sum m (w.data_start + 14) 20 ≅ 0)
        × (get32 m (w.data_start + 14 + 16) ≡ swab32 dst.ip)
        × (get32 m (w.data_start + 14 + 12) ≡ swab32 src.ip)
        × (m (w.data_start + i) ≡ dst.mac i)
        × (m (w.data_start + 6 + i) ≡ src.mac i)
  unfolding when_found
  balanced client dst src w i l b bd bs u v t c o p =
      let d = w.data_start in
      let k = rewritten w.mem d dst src in
      let (ip, ip') = rewritten_ip w.mem d dst src in
      let (mac, mac') = rewritten_mac w.mem d dst src i l in
      let picks =
        ap (λ x. when_found x (pure aborted) (λ y. forward targets_map config_map d y) w) p in
      (
        marked k d,
        xdp_pass-eq targets_map config_map w u t
            ∙ handle_tcp-eq targets_map config_map client w u v c
            ∙ picks
            ∙ forward-eq targets_map config_map dst src w u v o,
        marked-verifies k d (rewritten-verifies w.mem d dst src b bd bs),
        marked_ip k d (d + 14 + 16) (omega arith) ∙ ip,
        marked_ip k d (d + 14 + 12) (omega arith) ∙ ip',
        marked_other k d (d + i) (omega (arith, l)) ∙ mac,
        marked_other k d (d + 6 + i) (omega (arith, l)) ∙ mac',
      )
