-- ===== src/Afxdp/Complete.antt =====
-- afxdp/l2fwd/xdpsock.c: `kick_tx` and the two functions that take sent frames back.
use userspace_xdp.Prelude.{
  ℕ, zero, suc, ◌+◌, ◌-◌, ◌^◌, Bool, ◌||◌, not, List, length, ltb, leb, ◌==◌, if◌then◌else◌,
}
use userspace_xdp.Afxdp.{
  Xsk, Options, Socket, Run, returns, exits, waits, ◌>>=◌, u32, u64, submit_fq, release_cq,
}

module _ {K : Type 0} (x : Xsk K) where
  -- exit_with_error unless `sendto` succeeded or failed in one of the four known ways
  unfoldable pub kick_tx : Socket K → Run (Socket K)
  kick_tx s =
      let (failed, k) = x.sendto s.kernel in
      if failed then exits else returns (record s { kernel = k })

  -- the addresses of `rcvd` completed frames go to the fill ring
  unfoldable pub give_back : List ℕ → Socket K → Socket K
  give_back addrs s =
      let s1 = release_cq x addrs (submit_fq x addrs s) in
      record s1 { outstanding_tx = u32 (s1.outstanding_tx + 2 ^ 32 - length addrs) }

  -- the send ring asks for a wake-up
  unfoldable pub wake_tx : Bool → Socket K → Run (Socket K)
  unfolding kick_tx
  wake_tx wanted s =
      if wanted || x.tx_needs_wakeup s.kernel
      then kick_tx (record s {
        stats = record s.stats { tx_wakeup_sendtos = u64 (s.stats.tx_wakeup_sendtos + 1) };
      })
      else returns s

module _ {K : Type 0} (x : Xsk K) (opt : Options) where
  -- a call that wakes the kernel up, if it asked for that, while the fill ring is full
  unfoldable pub poll_fill : Socket K → Socket K
  poll_fill s =
      if opt.busy_poll || x.fq_needs_wakeup s.kernel
      then record s {
        kernel = x.recvfrom s.kernel;
        stats = record s.stats { fill_fail_polls = u64 (s.stats.fill_fail_polls + 1) };
      }
      else s

  -- the reservation of `n` entries of the fill ring and the loop that repeats it
  unfoldable pub reserve_fq : ℕ → ℕ → Socket K → Run (Socket K)
  unfolding poll_fill
  reserve_fq zero n s = waits
  reserve_fq (suc fuel) n s =
      let (ret, k) = x.reserve_fq s.kernel n in
      let s' = record s { kernel = k } in
      let again = reserve_fq fuel n (poll_fill s') in
      if ret == n then returns s' else if leb (2 ^ 31) ret then exits else again

  -- in copy mode the kernel sends when it is called
  unfoldable pub kick_copy : Socket K → Run (Socket K)
  unfolding kick_tx
  kick_copy s =
      if opt.copy_mode
      then kick_tx x (record s {
        stats = record s.stats { copy_tx_sendtos = u64 (s.stats.copy_tx_sendtos + 1) };
      })
      else returns s

  -- the completed frames, at most as many as are on their way
  unfoldable pub refill : ℕ → Socket K → Run (Socket K)
  unfolding reserve_fq give_back
  refill fuel s =
      let ndescs =
        if ltb opt.batch_size s.outstanding_tx then opt.batch_size else s.outstanding_tx in
      let (addrs, k) = x.peek_cq s.kernel ndescs in
      let s' = record s { kernel = k } in
      let found = reserve_fq fuel (length addrs) s' >>= λ s2. returns (give_back x addrs s2) in
      if length addrs == 0 then returns s' else found

  unfoldable pub complete_tx_l2fwd : ℕ → Socket K → Run (Socket K)
  unfolding kick_copy refill
  complete_tx_l2fwd fuel s =
      if s.outstanding_tx == 0 then returns s else do s1 ← kick_copy s; refill fuel s1

  unfoldable pub complete_tx_only : ℕ → Socket K → Run (Socket K)
  unfolding wake_tx
  complete_tx_only batch s = if s.outstanding_tx == 0 then returns s else do
    s1 ← wake_tx x (not opt.need_wakeup) s
    let (addrs, k) = x.peek_cq s1.kernel batch
    let rcvd = length addrs
    let s2 = record s1 { kernel = k }
    if rcvd == 0
        then returns s2
        else returns (record (release_cq x addrs s2) {
          outstanding_tx = u32 (s2.outstanding_tx + 2 ^ 32 - rcvd);
        })
