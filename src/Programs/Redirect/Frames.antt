-- ===== src/Programs/Redirect/Frames.antt =====
-- What the firewall does with a frame and with the frame that answers it.
use userspace_xdp.Prelude.{
  ℕ, ◌+◌, ◌≤◌, ◌≡◌, ◌≢◌, ◌⊎◌, inl, inr, refl, sym, ap, ◌∙◌, arith, ltb, ◌==◌, ◌||◌, not, false,
  some, none, swab16, get16, get32,
}
use userspace_xdp.Xdp.{tx, M, World, pure, ◌>>=◌, ◌>>◌}
use userspace_xdp.Xdp.Steps.{bind_step, load8_step, load16_step, load32_step}
use userspace_xdp.Xdp.Maps.{BpfMap, lookup_elem, update_elem, when_found}
use userspace_xdp.Xdp.Helpers.{redirect_map}
use userspace_xdp.Programs.Redirect.{
  FlowCtxTableKey, FlowCtxTableLeaf, a_port, b_port, biflow, new_flow, extract_flow_key,
  handle_flow, xdp_pass, reverse, biflow-reverse,
}

module _ {S : Type 0} where
  -- a frame of TCP or UDP over IPv4 with room for the ports and the rest of a UDP header
  pub record IsFlow (w : World S) : Type 0 where
    pub room : w.data_start + 42 ≤ w.data_end
    pub ipv4 : swab16 (get16 w.mem (w.data_start + 12)) ≡ 0x0800
    pub transport : (w.mem (w.data_start + 14 + 9) ≡ 6) ⊎ (w.mem (w.data_start + 14 + 9) ≡ 17)

  -- the flow that a frame belongs to, by its bytes
  unfoldable pub flow_of : World S → FlowCtxTableKey
  flow_of w = record {
    ip_proto = w.mem (w.data_start + 14 + 9);
    l4_src = get16 w.mem (w.data_start + 34);
    l4_dst = get16 w.mem (w.data_start + 34 + 2);
    ip_src = get32 w.mem (w.data_start + 14 + 12);
    ip_dst = get32 w.mem (w.data_start + 14 + 16);
  }

  -- `v` answers `w`: the same protocol, with the addresses and the ports exchanged
  pub record IsAnswer (w v : World S) : Type 0 where
    pub protocol : v.mem (v.data_start + 14 + 9) ≡ w.mem (w.data_start + 14 + 9)
    pub source : get16 v.mem (v.data_start + 34) ≡ get16 w.mem (w.data_start + 34 + 2)
    pub dest : get16 v.mem (v.data_start + 34 + 2) ≡ get16 w.mem (w.data_start + 34)
    pub saddr : get32 v.mem (v.data_start + 14 + 12) ≡ get32 w.mem (w.data_start + 14 + 16)
    pub daddr : get32 v.mem (v.data_start + 14 + 16) ≡ get32 w.mem (w.data_start + 14 + 12)

  extract_flow_key-eq : (w : World S) → IsFlow w → extract_flow_key w ≡ some (some (flow_of w), w)
  unfolding extract_flow_key flow_of pure
  extract_flow_key-eq w f =
      let d = w.data_start in
      let r = f.room in
      let t1 : ltb w.data_end (d + 14) ≡ false = ground (arith, r) in
      let t2 : ltb w.data_end (d + 34) ≡ false = ground (arith, r) in
      let t3 : ltb w.data_end (d + 42) ≡ false = ground (arith, r) in
      let t4 : not (swab16 (get16 w.mem (d + 12)) == 0x0800) ≡ false = ground (arith, f.ipv4) in
      let t5 : not (w.mem (d + 14 + 9) == 6 || w.mem (d + 14 + 9) == 17) ≡ false =
        ground (arith, f.transport) in
      rw t1 (
        bind_step _ _ (load16_step _ _ (omega arith) (omega (arith, r))) (
          rw (t4, t2)
            (bind_step _ _ (load8_step _ _ (omega arith) (omega (arith, r))) (
              rw (t5, t3)
                (bind_step _ _ (load32_step _ _ (omega arith) (omega (arith, r))) (
                  bind_step _ _ (load32_step _ _ (omega arith) (omega (arith, r))) (
                    bind_step _ _ (load16_step _ _ (omega arith) (omega (arith, r)))
                      (bind_step _ _ (load16_step _ _ (omega arith) (omega (arith, r))) refl))))))))

  flow_of-answer : (w v : World S) → IsAnswer w v → flow_of v ≡ reverse (flow_of w)
  unfolding flow_of reverse
  flow_of-answer w v a = rw (a.protocol, a.source, a.dest, a.saddr, a.daddr) refl

module _ {S : Type 0} (table : BpfMap S FlowCtxTableKey FlowCtxTableLeaf)
    (callback : ℕ → ℕ → M S (Unit {0})) (tx_port : ℕ) where
  -- The table after a frame of the flow `k` has come from another port than B, and the port that it
  -- has for the flow: it has an entry, or the entry of a new flow is made.
  abbrev pub Opened : FlowCtxTableKey → S → S → ℕ → Type 0
  Opened k s s' out =
      ((l : FlowCtxTableLeaf) × (table.lookup s k ≡ some l) × (s' ≡ s) × (out ≡ l.out_port))
      ⊎ ((table.lookup s k ≡ none) × (table.update s k new_flow ≡ some s') × (out ≡ a_port))

  handle_flow_opens :
      (port : ℕ) (k : FlowCtxTableKey) (w : World S) (s : S) (out : ℕ)
      → port ≢ b_port
      → Opened k w.maps s out
      → handle_flow table (some callback) tx_port port k w
        ≡ (callback tx_port b_port >> pure tx) (record w { maps = s })
  unfolding handle_flow when_found lookup_elem update_elem redirect_map pure ◌>>=◌ ◌>>◌
  handle_flow_opens port k w s out ne (inl (l, e, same, o)) = ground (arith, e, same)
  handle_flow_opens port k w s out ne (inr (e, u, o)) = ground (arith, e, u)

  Opened-entry :
      (k : FlowCtxTableKey) (s s' : S) (out : ℕ)
      → Opened k s s' out
      → (l : FlowCtxTableLeaf) × (table.lookup s' k ≡ some l) × (l.out_port ≡ out)
  unfolding new_flow
  Opened-entry k s s' out (inl (l, e, same, o)) = (l, ap (λ x. table.lookup x k) same ∙ e, sym o)
  Opened-entry k s s' out (inr (e, u, o)) = (new_flow, table.lookup-update s s' k new_flow u, sym o)

  handle_flow_answers :
      (k : FlowCtxTableKey) (v : World S) (l : FlowCtxTableLeaf)
      → table.lookup v.maps k ≡ some l
      → handle_flow table (some callback) tx_port b_port k v
        ≡ (callback tx_port l.out_port >> pure tx) v
  unfolding handle_flow when_found lookup_elem redirect_map pure ◌>>=◌ ◌>>◌
  handle_flow_answers k v l e = ground (arith, e)

  xdp_pass-flow :
      (port : ℕ) (w : World S)
      → IsFlow w
      → xdp_pass table (some callback) tx_port port w
        ≡ handle_flow table (some callback) tx_port port (biflow (flow_of w)) w
  unfolding xdp_pass when_found
  xdp_pass-flow port w f = bind_step _ _ (extract_flow_key-eq w f) refl

  -- A frame of TCP or UDP over IPv4 that comes from another port than B is redirected to B, and the table
  -- then has an entry for its flow, the one that it had or, where the table takes it, a new one for port
  -- A. While the maps are so, every frame that answers it, with the addresses and ports exchanged, and
  -- comes from B is redirected to the port of that entry.
  pub answered :
      (port : ℕ) (w v : World S) (s : S) (out : ℕ)
      → port ≢ b_port
      → IsFlow w
      → IsFlow v
      → IsAnswer w v
      → Opened (biflow (flow_of w)) w.maps s out
      → v.maps ≡ s
      → (xdp_pass table (some callback) tx_port port w
          ≡ (callback tx_port b_port >> pure tx) (record w { maps = s }))
        × (xdp_pass table (some callback) tx_port b_port v ≡ (callback tx_port out >> pure tx) v)
  answered port w v s out ne f g a o m =
      let (l, e, p) = Opened-entry (biflow (flow_of w)) w.maps s out o in
      let same : biflow (flow_of v) ≡ biflow (flow_of w) =
        ap biflow (flow_of-answer w v a) ∙ biflow-reverse (flow_of w) in
      let found : table.lookup v.maps (biflow (flow_of v)) ≡ some l =
        ap (table.lookup v.maps) same ∙ ap (λ x. table.lookup x (biflow (flow_of w))) m ∙ e in
      (
        xdp_pass-flow port w f ∙ handle_flow_opens port (biflow (flow_of w)) w s out ne o,
        xdp_pass-flow b_port v g
            ∙ handle_flow_answers (biflow (flow_of v)) v l found
            ∙ ap (λ n. (callback tx_port n >> pure tx) v) p,
      )
