-- ===== src/Programs/Firewall/Filter.antt =====
-- The verdicts of xdp_progs/xdp_firewall.bpf.c on IPv4 frames.
use userspace_xdp.Prelude.{
  ℕ, Bool-cases, inl, inr, refl, ◌∙◌, ap, ◌+◌, ◌≤◌, ◌≡◌, ◌≢◌, ◌⊎◌, arith, ltb, ◌==◌, ◌&&◌, Option,
  none, some, if◌then◌else◌, swab16, get16, get32,
}
use userspace_xdp.Xdp.{Action, tx, pass, drop, M, World, pure, ◌>>=◌, ◌>>◌, load8, load16, load32}
use userspace_xdp.Xdp.Steps.{bind_step, then_step}
use userspace_xdp.Xdp.Mac.{swap_mem, swap_src_dst_mac, swap_src_dst_mac-eq}
use userspace_xdp.Xdp.Maps.{BpfMap, increment, when_found, lookup_elem, write_elem}
use userspace_xdp.Programs.Firewall.{
  FlowKey, ipv4_key, VrrpFilter, ParsePkt, count_total, count_drop, vrrp_filter, filter_flow,
  filter_protocol, layer3_filter, send_back, xdp_pass,
}
use userspace_xdp.Programs.Firewall.Parse.{parsed, parse_eth_frame-eq}

module _ {S : Type 0} (l3_filter : BpfMap S FlowKey ℕ)
    (vrrp_vrid_filter : BpfMap S ℕ VrrpFilter) where
  filter_flow-listed :
      (key : FlowKey) (len n : ℕ) (vrrph : Option ℕ) (w : World S)
      → l3_filter.lookup w.maps key ≡ some n
      → filter_flow l3_filter vrrp_vrid_filter key len vrrph w
        ≡ some (drop, record w { maps = l3_filter.write w.maps key (increment n) })
  unfolding filter_flow lookup_elem write_elem when_found pure ◌>>=◌ ◌>>◌
  filter_flow-listed key len n vrrph w h = ground (arith, h)

  -- A frame of VRRP to a destination that is not listed: it passes without a filter for its router or
  -- if the filter's action is not 0, else it is dropped, and both are counted in the filter.
  pub vrrp :
      (key : FlowKey) (len h : ℕ) (w : World S)
      → w.data_start ≤ h
      → h + 8 ≤ w.data_end
      → l3_filter.lookup w.maps key ≡ none
      → filter_flow l3_filter vrrp_vrid_filter key len (some h) w ≡ (
          let vrid = w.mem (h + 1) in
          elim (vrrp_vrid_filter.lookup w.maps vrid) [
            | none ↦ some (pass, w)
            | some f ↦
                let s = vrrp_vrid_filter.write w.maps vrid (count_total len f) in
                if f.action == 0
                then some (
                  drop,
                  record w {
                    maps = vrrp_vrid_filter.write s vrid (count_drop len (count_total len f));
                  },
                )
                else some (pass, record w { maps = s })
          ])
  unfolding filter_flow vrrp_filter load8 lookup_elem write_elem when_found pure ◌>>=◌ ◌>>◌
  vrrp key len h w l u e = ground (arith, e)

  -- the rest of the program behind an IPv4 header
  unfoldable pub behind_ipv4 : World S → ParsePkt → M S Action
  behind_ipv4 w p =
      let iph = w.data_start + p.l3_offset in
      filter_protocol l3_filter vrrp_vrid_filter iph (ipv4_key (get32 w.mem (iph + 16)))
        (swab16 (get16 w.mem (iph + 2))) (w.mem (iph + 9))

  layer3_filter-eq :
      (w : World S) (p : ParsePkt)
      → p.l3_proto ≡ 0x0800
      → w.data_start + p.l3_offset + 20 ≤ w.data_end
      → layer3_filter l3_filter vrrp_vrid_filter p w ≡ behind_ipv4 w p w
  unfolding layer3_filter behind_ipv4 ◌>>=◌ load8 load16 load32
  layer3_filter-eq w p e f = ground (arith, e, f)

  xdp_pass-eq :
      (w : World S) (p : ParsePkt) {ret : Action} {w' : World S} {r : Option (Action × World S)}
      → parsed w ≡ some p
      → p.l3_proto ≡ 0x0800
      → w.data_start + p.l3_offset + 20 ≤ w.data_end
      → behind_ipv4 w p w ≡ some (ret, w')
      → send_back l3_filter vrrp_vrid_filter w.data_start ret w' ≡ r
      → xdp_pass l3_filter vrrp_vrid_filter w ≡ r
  unfolding xdp_pass when_found
  xdp_pass-eq w p q e f h k =
      bind_step _ _ (parse_eth_frame-eq w ∙ ap (λ o. some (o, w)) q)
        (bind_step _ _ (layer3_filter-eq w p e f ∙ h) k)

  -- A frame whose IPv4 header is whole, and also its authentication header if it has one, to a listed
  -- destination.
  unfoldable pub IsCounted : World S → ParsePkt → Type 0
  IsCounted w p =
      (w.data_start + p.l3_offset + 20 ≤ w.data_end)
      × ((w.mem (w.data_start + p.l3_offset + 9) ≢ 51)
          ⊎ (w.data_start + p.l3_offset + 32 ≤ w.data_end))

  -- nothing is stored, or the counter of `key` is one higher
  unfoldable pub IsRaised : S → S → FlowKey → ℕ → Type 0
  IsRaised s s' key n = (s' ≡ s) ⊎ (l3_filter.lookup s' key ≡ some (increment n))

  filter_protocol-listed :
      (iph len protocol n : ℕ) (key : FlowKey) (w : World S)
      → w.data_start ≤ iph
      → iph + 20 ≤ w.data_end
      → (protocol ≢ 51) ⊎ (iph + 32 ≤ w.data_end)
      → l3_filter.lookup w.maps key ≡ some n
      → (s : S) × (filter_protocol l3_filter vrrp_vrid_filter iph key len protocol w
          ≡ some (drop, record w { maps = s }))
        × IsRaised w.maps s key n
  unfolding filter_protocol load8 pure ◌>>=◌ IsRaised
  filter_protocol-listed iph len protocol n key w l u a h =
      let s = l3_filter.write w.maps key (increment n) in
      let raised = l3_filter.lookup-write w.maps key n (increment n) h in
      let flow = λ (o : Option ℕ). (filter_flow-listed key len n o w h) in
      let cut = ltb w.data_end (iph + 20 + 8) in
      let cut' = ltb w.data_end (iph + 20 + 12 + 8) in
      let e0 = flow none in
      let e1 = flow (some (iph + 20)) in
      let e2 = flow (some (iph + 20 + 12)) in
      elim (Bool-cases (protocol == 112)) [
        | inl v ↦ elim (Bool-cases cut) [
          | inl c ↦ (w.maps, (ground (arith, v, c)), inl refl)
          | inr c ↦ (s, (ground (arith, v, c, e1)), inr raised)
        ]
        | inr v ↦ elim (Bool-cases (protocol == 51 && w.mem (iph + 20) == 112 && cut')) [
          | inl c ↦ (w.maps, (ground (arith, v, c, a)), inl refl)
          | inr c ↦ (s, (ground (arith, v, c, a, e0, e2)), inr raised)
        ]
      ]

  -- A frame with an IPv4 header (behind at most two VLAN tags), whose headers are whole, to a
  -- destination on the list is dropped by the whole program. The frame stays as it is, and the
  -- destination's counter is one higher, or nothing is stored (a VRRP header that is cut off).
  pub listed :
      (w : World S) (p : ParsePkt) (n : ℕ)
      → parsed w ≡ some p
      → p.l3_proto ≡ 0x0800
      → IsCounted w p
      → l3_filter.lookup w.maps (ipv4_key (get32 w.mem (w.data_start + p.l3_offset + 16))) ≡ some n
      → (s : S) × (xdp_pass l3_filter vrrp_vrid_filter w ≡ some (drop, record w { maps = s }))
        × IsRaised w.maps s (ipv4_key (get32 w.mem (w.data_start + p.l3_offset + 16))) n
  unfolding IsCounted behind_ipv4 send_back pure
  listed w p n q e c h =
      let iph = w.data_start + p.l3_offset in
      let (s, r, t) =
        filter_protocol-listed iph (swab16 (get16 w.mem (iph + 2))) (w.mem (iph + 9)) n
          (ipv4_key (get32 w.mem (iph + 16))) w (omega arith) c.0 c.1 h in
      (s, xdp_pass-eq w p q e c.0 r refl, t)

  filter_protocol-unlisted :
      (iph len protocol : ℕ) (key : FlowKey) (w : World S)
      → protocol ≢ 112
      → protocol ≢ 51
      → l3_filter.lookup w.maps key ≡ none
      → filter_protocol l3_filter vrrp_vrid_filter iph key len protocol w ≡ some (pass, w)
  unfolding filter_protocol filter_flow lookup_elem when_found pure ◌>>=◌
  filter_protocol-unlisted iph len protocol key w a b h = ground (arith, a, b, h)

  -- A frame with a whole IPv4 header to a destination that is not on the list, neither VRRP nor with
  -- an authentication header, goes back with its MAC addresses exchanged, and no map is written.
  pub unlisted :
      (w : World S) (p : ParsePkt)
      → w.data_start + 14 ≤ w.data_end
      → parsed w ≡ some p
      → p.l3_proto ≡ 0x0800
      → w.data_start + p.l3_offset + 20 ≤ w.data_end
      → w.mem (w.data_start + p.l3_offset + 9) ≢ 112
      → w.mem (w.data_start + p.l3_offset + 9) ≢ 51
      → l3_filter.lookup w.maps (ipv4_key (get32 w.mem (w.data_start + p.l3_offset + 16))) ≡ none
      → xdp_pass l3_filter vrrp_vrid_filter w
        ≡ some (tx, record w { mem = swap_mem w.mem w.data_start })
  unfolding behind_ipv4 send_back pure ◌>>◌
  unlisted w p b q e c v a h =
      let iph = w.data_start + p.l3_offset in
      xdp_pass-eq w p q e c
        (filter_protocol-unlisted iph (swab16 (get16 w.mem (iph + 2))) (w.mem (iph + 9))
          (ipv4_key (get32 w.mem (iph + 16))) w v a h)
        (then_step (swap_src_dst_mac w.data_start) (pure tx) (swap_src_dst_mac-eq w (omega arith))
          refl)

  filter_protocol-vrrp :
      (iph len : ℕ) (key : FlowKey) (w : World S)
      → iph + 28 ≤ w.data_end
      → filter_protocol l3_filter vrrp_vrid_filter iph key len 112 w
        ≡ filter_flow l3_filter vrrp_vrid_filter key len (some (iph + 20)) w
  unfolding filter_protocol
  filter_protocol-vrrp iph len key w l = ground (arith, l)

  -- A frame of VRRP, to a destination that is not on the list, of a router whose filter has the action
  -- 0, is dropped by the whole program, and counted twice in the filter: as a frame and as dropped.
  pub denied :
      (w : World S) (p : ParsePkt) (f : VrrpFilter)
      → parsed w ≡ some p
      → p.l3_proto ≡ 0x0800
      → w.data_start + p.l3_offset + 28 ≤ w.data_end
      → w.mem (w.data_start + p.l3_offset + 9) ≡ 112
      → l3_filter.lookup w.maps (ipv4_key (get32 w.mem (w.data_start + p.l3_offset + 16))) ≡ none
      → vrrp_vrid_filter.lookup w.maps (w.mem (w.data_start + p.l3_offset + 21)) ≡ some f
      → f.action ≡ 0
      → (s : S) × (xdp_pass l3_filter vrrp_vrid_filter w ≡ some (drop, record w { maps = s }))
        × (vrrp_vrid_filter.lookup s (w.mem (w.data_start + p.l3_offset + 21)) ≡ (
            let len = swab16 (get16 w.mem (w.data_start + p.l3_offset + 2)) in
            some (count_drop len (count_total len f))))
  unfolding behind_ipv4 send_back pure
  denied w p f q e c v h g z =
      let iph = w.data_start + p.l3_offset in
      let len = swab16 (get16 w.mem (iph + 2)) in
      let vrid = w.mem (iph + 21) in
      let total = count_total len f in
      let s = vrrp_vrid_filter.write w.maps vrid total in
      let kept = vrrp_vrid_filter.lookup-write w.maps vrid f total g in
      let key = ipv4_key (get32 w.mem (iph + 16)) in
      let run =
        filter_protocol-vrrp iph len key w (omega (arith, c))
        ∙ vrrp key len (iph + 20) w (omega arith) (omega (arith, c)) h in
      let ran : behind_ipv4 w p w
          ≡ some (drop, record w { maps = vrrp_vrid_filter.write s vrid (count_drop len total) }) =
        ground (arith, v, run, g, z) in
      (
        vrrp_vrid_filter.write s vrid (count_drop len total),
        xdp_pass-eq w p q e (omega (arith, c)) ran refl,
        vrrp_vrid_filter.lookup-write s vrid total (count_drop len total) kept,
      )
