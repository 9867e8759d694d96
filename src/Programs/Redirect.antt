-- ===== src/Programs/Redirect.antt =====
-- xdp_progs/xdp_fw.bpf.c: let port B answer the flows that port A has opened.
pub mod Frames
use userspace_xdp.Prelude.{
  ℕ, ◌+◌, ◌≡◌, ◌≢◌, arith, ltb, ◌==◌, ◌||◌, not, some, none, Option, if◌then◌else◌, swab16,
}
use userspace_xdp.Xdp.{Action, pass, M, World, pure, ◌>>=◌, ◌>>◌, load8, load16, load32}
use userspace_xdp.Xdp.Maps.{BpfMap, lookup_elem, update_elem, when_found}
use userspace_xdp.Xdp.Helpers.{redirect_map}

abbrev pub a_port : ℕ
a_port = 6

abbrev pub b_port : ℕ
b_port = 7

pub record FlowCtxTableKey : Type 0 where
  pub ip_proto : ℕ
  pub l4_src : ℕ
  pub l4_dst : ℕ
  pub ip_src : ℕ
  pub ip_dst : ℕ

pub record FlowCtxTableLeaf : Type 0 where
  pub out_port : ℕ
  pub in_port : ℕ

unfoldable pub order_addresses : FlowCtxTableKey → FlowCtxTableKey
order_addresses k =
    if ltb k.ip_dst k.ip_src then record k { ip_src = k.ip_dst; ip_dst = k.ip_src } else k

unfoldable pub order_ports : FlowCtxTableKey → FlowCtxTableKey
order_ports k =
    if ltb k.l4_dst k.l4_src then record k { l4_src = k.l4_dst; l4_dst = k.l4_src } else k

-- one key for both directions
unfoldable pub biflow : FlowCtxTableKey → FlowCtxTableKey
biflow k = order_ports (order_addresses k)

unfoldable pub new_flow : FlowCtxTableLeaf
new_flow = record { out_port = a_port; in_port = b_port }

module _ {S : Type 0} where
  -- the labels `ethernet`, `ip` and `l4`: `none` is `goto EOP`
  unfoldable pub extract_flow_key : M S (Option FlowCtxTableKey)
  extract_flow_key w =
      let start = w.data_start in
      (if ltb w.data_end (start + 14) then pure none else do
        h_proto ← load16 (start + 12)
        if not (swab16 h_proto == 0x0800)
            then pure none
            else if ltb w.data_end (start + 34)
            then pure none
            else do
              protocol ← load8 (start + 14 + 9)
              if not (protocol == 6 || protocol == 17)
                  then pure none
                  else if ltb w.data_end (start + 42)
                  then pure none
                  else do
                    saddr ← load32 (start + 14 + 12)
                    daddr ← load32 (start + 14 + 16)
                    source ← load16 (start + 34)
                    dest ← load16 (start + 34 + 2)
                    pure (
                        some (record {
                          ip_proto = protocol;
                          l4_src = source;
                          l4_dst = dest;
                          ip_src = saddr;
                          ip_dst = daddr;
                        })))
        w

module _ {S : Type 0} (flow_ctx_table : BpfMap S FlowCtxTableKey FlowCtxTableLeaf)
    (callback : Option (ℕ → ℕ → M S (Unit {0}))) (tx_port : ℕ) where
  -- the two branches on the port that the frame came in by
  unfoldable pub handle_flow : ℕ → FlowCtxTableKey → M S Action
  handle_flow ingress_ifindex key =
      if ingress_ifindex == b_port
      then (do
        flow_leaf ← lookup_elem flow_ctx_table key
        when_found flow_leaf (pure pass) (λ l. redirect_map callback tx_port l.out_port))
      else (do
        flow_leaf ← lookup_elem flow_ctx_table key
        when_found flow_leaf (update_elem flow_ctx_table key new_flow) (λ l. pure tt)
        redirect_map callback tx_port b_port)

  unfoldable pub xdp_pass : ℕ → M S Action
  xdp_pass ingress_ifindex = do
    flow_key ← extract_flow_key
    when_found flow_key (pure pass) (λ k. handle_flow ingress_ifindex (biflow k))

-- the key of the frames that answer
unfoldable pub reverse : FlowCtxTableKey → FlowCtxTableKey
reverse k = record k { l4_src = k.l4_dst; l4_dst = k.l4_src; ip_src = k.ip_dst; ip_dst = k.ip_src }

-- A frame and its answer have the same key.
pub biflow-reverse : (k : FlowCtxTableKey) → biflow (reverse k) ≡ biflow k
unfolding biflow order_ports order_addresses reverse
biflow-reverse k = ground arith

-- The order of the addresses and that of the ports are found apart, so the frames from one host's
-- port p to another's port q have the key of those from the first host's port q to the other's port p.
pub biflow_confuses :
    (k : FlowCtxTableKey) → biflow (record k { l4_src = k.l4_dst; l4_dst = k.l4_src }) ≡ biflow k
unfolding biflow order_ports order_addresses
biflow_confuses k = ground arith
