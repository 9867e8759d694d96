-- ===== src/Afxdp/Forward.antt =====
-- afxdp/l2fwd/xdpsock.c: `l2fwd`, a round that runs the loaded program on the received packets and
-- hands all of them to the send ring.
pub mod Batches
pub mod Order
pub mod Rounds
pub mod Returns
use userspace_xdp.Prelude.{
  ℕ, zero, suc, ◌+◌, ◌^◌, true, false, not, ◌||◌, List, [], ◌∷◌, ◌++◌, length, leb, ◌==◌,
  if◌then◌else◌, Mem,
}
use userspace_xdp.Afxdp.{
  Desc, Xsk, Options, Socket, Run, returns, exits, waits, ◌>>=◌, u32, u64, Handler,
  ebpf_process_packet, submit_tx, release_rx,
}
use userspace_xdp.Afxdp.Complete.{complete_tx_l2fwd, wake_tx}

-- what the loop over the received entries has done so far
pub record Batch : Type 0 where
  pub mem : Mem
  pub nb_frags : ℕ
  pub frags_done : ℕ
  pub eop_cnt : ℕ
  pub written : List Desc
  pub ran : List Desc

module _ {K : Type 0} (x : Xsk K) (run : Handler) where
  -- if (!nb_frags++) ebpf_process_packet(pkt, len);
  unfoldable pub process : Desc → Batch → Batch
  process d b =
      let first = b.nb_frags == 0 in
      record b {
        mem = if first then (ebpf_process_packet run (x.packet_at d.addr) d.len b.mem).0 else b.mem;
        nb_frags = u32 (b.nb_frags + 1);
        ran = if first then b.ran ++ (d ∷ []) else b.ran;
      }

  -- one entry of the loop: the entry of the send ring, and the count at the end of a packet
  unfoldable pub forward_desc : Desc → Batch → Batch
  unfolding process
  forward_desc d b =
      let eop = not d.contd in
      let out : Desc = record { addr = d.addr; len = d.len; contd = if eop then false else true } in
      let b1 = process d b in
      let b2 : Batch = record b1 { written = b1.written ++ (out ∷ []) } in
      if eop
      then record b2 {
        frags_done = u32 (b2.frags_done + b2.nb_frags);
        nb_frags = 0;
        eop_cnt = u32 (b2.eop_cnt + 1);
      }
      else b2

  unfoldable pub forward_all : List Desc → Batch → Batch
  unfolding forward_desc
  forward_all [] b = b
  forward_all (d ∷ ds) b = forward_all ds (forward_desc d b)

module _ {K : Type 0} where
  -- the loop's start in the state `s`
  unfoldable pub open_batch : Socket K → Batch
  open_batch s = record {
    mem = s.mem;
    nb_frags = s.nb_frags;
    frags_done = 0;
    eop_cnt = 0;
    written = [];
    ran = [];
  }

module _ {K : Type 0} (x : Xsk K) where
  -- the submit, the release and the counters after the loop
  unfoldable pub finish : List Desc → Batch → Socket K → Socket K
  finish descs b s =
      let rcvd = length descs in
      let sent = release_rx x descs b.frags_done (submit_tx x b.written b.frags_done s) in
      record sent {
        mem = b.mem;
        nb_frags = b.nb_frags;
        outstanding_tx = u32 (s.outstanding_tx + b.frags_done);
        stats = record s.stats {
          rx_npkts = u64 (s.stats.rx_npkts + b.eop_cnt);
          tx_npkts = u64 (s.stats.tx_npkts + b.eop_cnt);
          rx_frags = u64 (s.stats.rx_frags + rcvd);
          tx_frags = u64 (s.stats.tx_frags + rcvd);
        };
        trace = record sent.trace { ran = s.trace.ran ++ b.ran };
      }

module _ {K : Type 0} (x : Xsk K) (opt : Options) where
  -- the reservation of `n` entries of the send ring and the loop that repeats it
  unfoldable pub reserve_tx : ℕ → ℕ → Socket K → Run (Socket K)
  reserve_tx zero n s = waits
  reserve_tx (suc fuel) n s =
      let (ret, k) = x.reserve_tx s.kernel n in
      let s' = record s { kernel = k } in
      let again = complete_tx_l2fwd x opt fuel s' >>= λ s1.
      wake_tx x opt.busy_poll s1 >>= λ s2. reserve_tx fuel n s2 in
      if ret == n then returns s' else if leb (2 ^ 31) ret then exits else again

  -- nothing was received
  unfoldable pub poll_rx : Socket K → Socket K
  poll_rx s =
      if opt.busy_poll || x.fq_needs_wakeup s.kernel
      then record s {
        kernel = x.recvfrom s.kernel;
        stats = record s.stats { rx_empty_polls = u64 (s.stats.rx_empty_polls + 1) };
      }
      else s

module _ {K : Type 0} (x : Xsk K) (opt : Options) (run : Handler) where
  unfoldable pub l2fwd : ℕ → Socket K → Run (Socket K)
  unfolding reserve_tx forward_all open_batch finish poll_rx
  l2fwd fuel s = do
    s1 ← complete_tx_l2fwd x opt fuel s
    let (descs, k) = x.peek_rx s1.kernel opt.batch_size
    let s2 = record s1 { kernel = k }
    if length descs == 0 then returns (poll_rx x opt s2) else do
      s3 ← reserve_tx x opt fuel (length descs) s2
      returns (finish x descs (forward_all x run descs (open_batch s3)) s3)
