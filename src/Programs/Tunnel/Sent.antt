-- ===== src/Programs/Tunnel/Sent.antt =====
-- What becomes of a frame to a listed service.
use userspace_xdp.Prelude.{
  ℕ, ◌+◌, ◌-◌, ◌≤◌, ◌<◌, ◌≡◌, ◌⊎◌, inl, inr, refl, ap, ◌∙◌, arith, true, false, not, some, ltb,
  ◌==◌, ◌||◌, swab16, not16, Mem, get16, get32, put8, put16, put32, copy,
}
use userspace_xdp.Xdp.{World, tx, pure}
use userspace_xdp.Xdp.Steps.{
  bind_step, then_step, load8_step, load16_step, load32_step, store16_step, move_step,
}
use userspace_xdp.Xdp.Maps.{BpfMap, lookup_elem, when_found, counted, count-eq}
use userspace_xdp.Xdp.Helpers.{put_bytes, grow_head, store_mac-eq}
use userspace_xdp.Runtime.Csum.{fold_once}
use userspace_xdp.Programs.Tunnel.{
  Vip, IptnlInfo, sum_words, get_dport, set_ethhdr, encapsulate, handle_vip, handle_ipv4, xdp_pass,
}
use userspace_xdp.Programs.Tunnel.Header.{header, set_iphdr-eq}

-- the new Ethernet header at `s`
unfoldable pub ethernet : Mem → ℕ → IptnlInfo → Mem
ethernet m s tnl =
    put16 (put_bytes (copy m (s + 6) (s + 20) 6) s tnl.dmac 6) (s + 12) (swab16 0x0800)

-- the outer IPv4 header at `a`
unfoldable pub outer : Mem → ℕ → IptnlInfo → ℕ → Mem
outer m a tnl n =
    let k = header m a tnl n in put16 k (a + 10) (not16 (fold_once (sum_words k a 10 0)))

unfoldable pub wrapped : Mem → ℕ → IptnlInfo → ℕ → Mem
wrapped m s tnl n = outer (ethernet m s tnl) (s + 14) tnl n

ethernet_other : (m : Mem) (s i : ℕ) (tnl : IptnlInfo) → s + 14 ≤ i → ethernet m s tnl i ≡ m i
unfolding ethernet put_bytes copy put16
ethernet_other m s i tnl h = ground (arith, h)

outer_other :
    (m : Mem) (a i n : ℕ) (tnl : IptnlInfo) → (i < a) ⊎ (a + 20 ≤ i) → outer m a tnl n i ≡ m i
unfolding outer header put8 put16 put32
outer_other m a i n tnl h = ground (arith, h)

-- the frame's IPv4 packet is behind the two new headers
wrapped_inner : (m : Mem) (s i n : ℕ) (tnl : IptnlInfo) → s + 34 ≤ i → wrapped m s tnl n i ≡ m i
unfolding wrapped
wrapped_inner m s i n tnl h =
    outer_other (ethernet m s tnl) (s + 14) i n tnl (inr (omega (arith, h)))
    ∙ ethernet_other m s i tnl (omega (arith, h))

ethernet_dest :
    (m : Mem) (s i : ℕ) (tnl : IptnlInfo) → i < 6 → ethernet m s tnl (s + i) ≡ tnl.dmac i
unfolding ethernet put_bytes copy put16
ethernet_dest m s i tnl l = let e : s + i - s ≡ i = omega arith in ground (arith, l, ap tnl.dmac e)

wrapped_dest :
    (m : Mem) (s i n : ℕ) (tnl : IptnlInfo) → i < 6 → wrapped m s tnl n (s + i) ≡ tnl.dmac i
unfolding wrapped
wrapped_dest m s i n tnl l =
    outer_other (ethernet m s tnl) (s + 14) (s + i) n tnl (inl (omega (arith, l)))
    ∙ ethernet_dest m s i tnl l

-- the type IPv4, and the protocol IPIP
wrapped_types :
    (m : Mem) (s n : ℕ) (tnl : IptnlInfo)
    → (get16 (wrapped m s tnl n) (s + 12) ≡ swab16 0x0800) × (wrapped m s tnl n (s + 14 + 9) ≡ 4)
unfolding wrapped outer header ethernet get16 put_bytes copy put8 put16 put32 swab16
wrapped_types m s n tnl = (ground arith, ground arith)

module _ {S : Type 0} where
  set_ethhdr-eq :
      (s : ℕ) (tnl : IptnlInfo) (w : World S)
      → w.data_start ≤ s
      → s + 34 ≤ w.data_end
      → set_ethhdr s (s + 20) tnl (swab16 0x0800) w
        ≡ some (tt, record w { mem = ethernet w.mem s tnl })
  unfolding set_ethhdr ethernet
  set_ethhdr-eq s tnl w l u =
      then_step _ _
        (move_step (s + 6) (s + 20) 6 w (omega arith) (omega arith) (omega arith) (omega arith))
        (then_step _ _ (store_mac-eq s tnl.dmac _ (omega arith) (omega arith))
          (store16_step _ _ _ (omega arith) (omega arith)))

module _ {S : Type 0} (rxcnt : BpfMap S ℕ ℕ) (vip2tnl : BpfMap S Vip IptnlInfo) where
  encapsulate-eq :
      (protocol n : ℕ) (tnl : IptnlInfo) (w : World S)
      → w.data_start + 34 ≤ w.data_end
      → encapsulate rxcnt vip2tnl protocol tnl n w
        ≡ some (
          tx,
          record w { mem = wrapped w.mem w.data_start tnl n; maps = counted rxcnt w.maps protocol },
        )
  unfolding encapsulate wrapped outer pure
  encapsulate-eq protocol n tnl w h =
      let s = w.data_start in
      let room : (ltb w.data_end (s + 14)
            || (ltb w.data_end (s + 20 + 14) || ltb w.data_end (s + 14 + 20)))
          ≡ false =
        ground (arith, h) in
      rw room (
        then_step _ _ (set_ethhdr-eq s tnl w (omega arith) h) (
          then_step _ _ (set_iphdr-eq (s + 14) tnl n _ (omega arith) (omega arith))
            (then_step _ _ (count-eq rxcnt protocol _) refl)))

  handle_vip-eq :
      (vip : Vip) (n : ℕ) (tnl : IptnlInfo) (w : World S)
      → 20 ≤ w.data_start
      → w.data_start + 14 ≤ w.data_end
      → vip2tnl.lookup w.maps vip ≡ some tnl
      → tnl.family ≡ 2
      → handle_vip rxcnt vip2tnl vip n w ≡ (
          let s = w.data_start - 20 in
          some (
            tx,
            record w {
              data_start = s;
              mem = wrapped w.mem s tnl n;
              maps = counted rxcnt w.maps vip.protocol;
            },
          ))
  unfolding handle_vip lookup_elem when_found grow_head
  handle_vip-eq vip n tnl w r h e f =
      let ipv4 : not (tnl.family == 2) ≡ false = ground (arith, f) in
      bind_step _ _ (ap (λ o. some (o, w)) e)
        (rw ipv4 (bind_step _ _ refl (encapsulate-eq vip.protocol n tnl _ (omega (arith, r, h)))))

  -- the service that a frame is for, by the port that `get_dport` read
  unfoldable pub service : World S → ℕ → Vip
  service w port = record {
    daddr = get32 w.mem (w.data_start + 14 + 16);
    dport = port;
    family = 2;
    protocol = w.mem (w.data_start + 14 + 9);
  }

  xdp_pass-eq :
      (port : ℕ) (w : World S)
      → w.data_start + 34 ≤ w.data_end
      → get16 w.mem (w.data_start + 12) ≡ swab16 0x0800
      → get_dport (w.data_start + 14 + 20) (w.mem (w.data_start + 14 + 9)) w ≡ some (some port, w)
      → xdp_pass rxcnt vip2tnl w
        ≡ handle_vip rxcnt vip2tnl (service w port) (swab16 (get16 w.mem (w.data_start + 14 + 2))) w
  unfolding xdp_pass handle_ipv4 when_found service
  xdp_pass-eq port w h t p =
      let d = w.data_start in
      let long : ltb w.data_end (d + 14) ≡ false = ground (arith, h) in
      let long' : ltb w.data_end (d + 14 + 20) ≡ false = ground (arith, h) in
      let ipv4 : (get16 w.mem (d + 12) == swab16 0x0800) ≡ true = ground (arith, t) in
      rw long (
        bind_step _ _ (load16_step _ _ (omega arith) (omega (arith, h))) (
          rw (ipv4, long')
            (bind_step _ _ (load8_step _ _ (omega arith) (omega (arith, h))) (
              bind_step _ _ p (
                bind_step _ _ (load32_step _ _ (omega arith) (omega (arith, h)))
                  (bind_step _ _ (load16_step _ _ (omega arith) (omega (arith, h))) refl))))))

  -- An IPv4 frame of which the code reads a port, with 20 bytes of room in front of it, is sent through
  -- the tunnel that the map has for its service: the frame begins 20 bytes earlier, is for the tunnel's MAC
  -- address and carries an IPv4 header of the protocol IPIP, behind which the frame's IPv4 packet is
  -- unchanged, byte by byte; the map of counters is changed by the one count at most.
  pub tunneled :
      (port : ℕ) (tnl : IptnlInfo) (w : World S)
      → 20 ≤ w.data_start
      → w.data_start + 34 ≤ w.data_end
      → get16 w.mem (w.data_start + 12) ≡ swab16 0x0800
      → get_dport (w.data_start + 14 + 20) (w.mem (w.data_start + 14 + 9)) w ≡ some (some port, w)
      → vip2tnl.lookup w.maps (service w port) ≡ some tnl
      → tnl.family ≡ 2
      → (w' : World S) × (xdp_pass rxcnt vip2tnl w ≡ some (tx, w'))
        × (w'.data_start + 20 ≡ w.data_start)
        × (w'.data_end ≡ w.data_end)
        × (w'.maps ≡ counted rxcnt w.maps (w.mem (w.data_start + 14 + 9)))
        × ((i : ℕ) → i < 6 → w'.mem (w'.data_start + i) ≡ tnl.dmac i)
        × (get16 w'.mem (w'.data_start + 12) ≡ swab16 0x0800)
        × (w'.mem (w'.data_start + 14 + 9) ≡ 4)
        × ((i : ℕ) → w.data_start + 14 ≤ i → w'.mem i ≡ w.mem i)
  unfolding service
  tunneled port tnl w r h t p e f =
      let n = swab16 (get16 w.mem (w.data_start + 14 + 2)) in
      let s = w.data_start - 20 in
      let (type, protocol) = wrapped_types w.mem s n tnl in
      (
        record w {
          data_start = s;
          mem = wrapped w.mem s tnl n;
          maps = counted rxcnt w.maps (w.mem (w.data_start + 14 + 9));
        },
        xdp_pass-eq port w h t p ∙ handle_vip-eq (service w port) n tnl w r (omega (arith, h)) e f,
        omega (arith, r),
        refl,
        refl,
        (λ i l. wrapped_dest w.mem s i n tnl l),
        type,
        protocol,
        λ i l. wrapped_inner w.mem s i n tnl (omega (arith, l, r)),
      )
