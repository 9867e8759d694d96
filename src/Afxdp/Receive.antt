-- ===== src/Afxdp/Receive.antt =====
-- afxdp/l2fwd/xdpsock.c: `rx_drop`, a round that gives the received frames back at once.
pub mod Sockets
use userspace_xdp.Prelude.{
  ℕ, ◌+◌, ◌≤◌, ◌≡◌, sym, ◌∙◌, ap, subst, arith, List, [], ◌∷◌, ◌++◌, map, length, ◌==◌,
  if◌then◌else◌, if-eq, inl, inr,
}
use userspace_xdp.Afxdp.{
  Desc, Xsk, Options, Socket, Run, returns, ◌>>=◌, u32, u64, submit_fq, release_rx,
}
use userspace_xdp.Afxdp.Complete.{reserve_fq}
use userspace_xdp.Afxdp.Forward.{poll_rx}
use userspace_xdp.Afxdp.Forward.Batches.{append_nil}
use userspace_xdp.Afxdp.Forward.Order.{
  kernel-Same, poll_rx-Same, reserve_fq-Same, Same-trans, >>=-eq-returns, returns_inj,
}

-- eop_cnt += IS_EOP_DESC(desc->options) for each entry
unfoldable pub count_eop : List Desc → ℕ → ℕ
count_eop [] n = n
count_eop (d ∷ ds) n = count_eop ds (u32 (n + (if d.contd then 0 else 1)))

module _ {K : Type 0} (x : Xsk K) where
  -- the loop over the entries, the submit, the release and the counters
  unfoldable pub drop_all : List Desc → Socket K → Socket K
  unfolding count_eop
  drop_all descs s =
      let rcvd = length descs in
      let addrs = map (λ d. x.extract_addr d.addr) descs in
      record (release_rx x descs rcvd (submit_fq x addrs s)) {
        stats = record s.stats {
          rx_npkts = u64 (s.stats.rx_npkts + count_eop descs 0);
          rx_frags = u64 (s.stats.rx_frags + rcvd);
        };
      }

module _ {K : Type 0} (x : Xsk K) (opt : Options) where
  unfoldable pub rx_drop : ℕ → Socket K → Run (Socket K)
  unfolding drop_all
  rx_drop fuel s = do
    let (descs, k) = x.peek_rx s.kernel opt.batch_size
    let s1 = record s { kernel = k }
    if length descs == 0
        then returns (poll_rx x opt s1)
        else do s2 ← reserve_fq x opt fuel (length descs) s1; returns (drop_all x descs s2)

  -- What a round that returned has done: the entries `ds`, at most a batch, were received and all
  -- released, and the addresses of their frames were given to the fill ring, in their order.
  pub record Dropped (s t : Socket K) : Type 0 where
    pub ds : List Desc
    pub few : length ds ≤ opt.batch_size
    pub came : t.trace.received ≡ s.trace.received ++ ds
    pub went : t.trace.released ≡ s.trace.released + length ds
    pub back : t.trace.filled ≡ s.trace.filled ++ map (λ d. x.extract_addr d.addr) ds
    pub none_sent : t.outstanding_tx ≡ s.outstanding_tx

  -- A round of `rx_drop` that returns has received at most a batch of entries, released all of them,
  -- given the address of each one's frame back to the fill ring, in order, and sent nothing.
  pub rx_drop-Dropped : (fuel : ℕ) (s t : Socket K) → rx_drop fuel s ≡ returns t → Dropped s t
  unfolding rx_drop drop_all
  rx_drop-Dropped fuel s t h =
      let p = x.peek_rx s.kernel opt.batch_size in
      let s1 : Socket K = record s { kernel = p.1 } in
      elim (if-eq (length p.0 == 0) _ _ h) [
        | inl (e, k) ↦
            let same = Same-trans (kernel-Same s p.1) (poll_rx-Same x opt s1) in
            subst (Dropped s) (returns_inj k) (record {
              ds = [];
              few = omega arith;
              came = ap (λ u. u.received) same.same_trace ∙ sym (append_nil s.trace.received);
              went = omega (arith, ap (λ u. u.released) same.same_trace);
              back = ap (λ u. u.filled) same.same_trace ∙ sym (append_nil s.trace.filled);
              none_sent = same.same_out;
            })
        | inr (e, k) ↦
            let (s2, a, b) = >>=-eq-returns (reserve_fq x opt fuel (length p.0) s1) _ k in
            let same =
              Same-trans (kernel-Same s p.1) (reserve_fq-Same x opt fuel (length p.0) s1 s2 a) in
            subst (Dropped s) (returns_inj b) (record {
              ds = p.0;
              few = x.length-peek_rx s.kernel opt.batch_size;
              came = ap (λ u. u.received ++ p.0) same.same_trace;
              went = ap (λ u. u.released + length p.0) same.same_trace;
              back = ap (λ u. u.filled ++ map (λ d. x.extract_addr d.addr) p.0) same.same_trace;
              none_sent = same.same_out;
            })
      ]
