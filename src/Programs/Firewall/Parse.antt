-- ===== src/Programs/Firewall/Parse.antt =====
-- parse_eth_frame of xdp_progs/xdp_firewall.bpf.c: what it returns.
use userspace_xdp.Prelude.{
  ℕ, Bool-cases, inl, inr, refl, ◌∙◌, ap, ◌+◌, ◌≤◌, ◌≡◌, arith, ltb, not, Option, none, some,
  if◌then◌else◌, swab16, get16, true,
}
use userspace_xdp.Xdp.{World, pure, ◌>>=◌, load16}
use userspace_xdp.Xdp.Steps.{bind_step, load16_step}
use userspace_xdp.Programs.Firewall.{
  ParsePkt, is_vlan, skip_vlan, parse_done, parse_inner, parse_eth_frame,
}

-- a type and an offset as a result of the parser
unfoldable pub packet : Option (ℕ × ℕ) → Option ParsePkt
packet none = none
packet (some i) = some (record { l3_proto = swab16 i.0; l3_offset = i.1 })

module _ {S : Type 0} where
  -- what the parser returns
  unfoldable pub parsed : World S → Option ParsePkt
  parsed w =
      let start = w.data_start in
      let t0 = get16 w.mem (start + 12) in
      let t1 = get16 w.mem (start + 14 + 2) in
      let t2 = get16 w.mem (start + 18 + 2) in
      if ltb w.data_end (start + 14)
      then none
      else if not (is_vlan t0)
      then some (record { l3_proto = swab16 t0; l3_offset = 14 })
      else if ltb w.data_end (start + 18)
      then none
      else if not (is_vlan t1)
      then some (record { l3_proto = swab16 t1; l3_offset = 18 })
      else if ltb w.data_end (start + 22)
      then none
      else some (record { l3_proto = swab16 t2; l3_offset = 22 })

  -- the type and the offset behind one tag
  unfoldable pub untagged : World S → ℕ → ℕ → Option (ℕ × ℕ)
  untagged w eth_type offset =
      if not (is_vlan eth_type)
      then some (eth_type, offset)
      else if ltb w.data_end (w.data_start + (offset + 4))
      then none
      else some (get16 w.mem (w.data_start + offset + 2), offset + 4)

  skip_vlan-eq : (t o : ℕ) (w : World S) → skip_vlan t o w ≡ some (untagged w t o, w)
  unfolding skip_vlan untagged load16 pure ◌>>=◌
  skip_vlan-eq t o w = ground arith

  unfoldable pub behind_inner : World S → Option (ℕ × ℕ) → Option ParsePkt
  behind_inner w none = none
  behind_inner w (some o) = packet (untagged w o.0 o.1)

  parse_done-eq : (w : World S) (o : Option (ℕ × ℕ)) → parse_done o w ≡ some (packet o, w)
  unfolding parse_done packet pure
  parse_done-eq w none = refl
  parse_done-eq w (some i) = refl

  parse_inner-eq : (w : World S) (o : Option (ℕ × ℕ)) → parse_inner o w ≡ some (behind_inner w o, w)
  unfolding parse_inner behind_inner pure
  parse_inner-eq w none = refl
  parse_inner-eq w (some o) =
      bind_step _ _ (skip_vlan-eq o.0 o.1 w) (parse_done-eq w (untagged w o.0 o.1))

  behind_inner-parsed :
      (w : World S)
      → w.data_start + 14 ≤ w.data_end
      → behind_inner w (untagged w (get16 w.mem (w.data_start + 12)) 14) ≡ parsed w
  unfolding behind_inner packet untagged parsed
  behind_inner-parsed w l = ground arith

  short :
      (w : World S)
      → ltb w.data_end (w.data_start + 14) ≡ true
      → pure {S = S} {A = Option ParsePkt} none w ≡ some (parsed w, w)
  unfolding parsed pure
  short w e = rw e refl

  -- The parser always returns and changes nothing: a frame that is too short for its Ethernet header
  -- or for one of the at most two VLAN tags that it announces has no result, and any other the type
  -- and the offset of what follows the header and the tags.
  pub parse_eth_frame-eq : (w : World S) → parse_eth_frame w ≡ some (parsed w, w)
  unfolding parse_eth_frame
  parse_eth_frame-eq w =
      let t0 = get16 w.mem (w.data_start + 12) in
      elim (Bool-cases (ltb w.data_end (w.data_start + 14))) [
        | inl e ↦ rw e (short w e)
        | inr e ↦
            let l : w.data_start + 14 ≤ w.data_end = ground arith in
            rw e (
              bind_step _ _ (load16_step _ _ (omega arith) (omega arith)) (
                bind_step _ _ (skip_vlan-eq _ _ _) (
                  parse_inner-eq w (untagged w t0 14)
                  ∙ ap (λ o. some (o, w)) (behind_inner-parsed w l))))
      ]
