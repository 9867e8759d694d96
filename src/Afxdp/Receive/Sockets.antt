-- ===== src/Afxdp/Receive/Sockets.antt =====
-- afxdp/l2fwd/xdpsock.c: `rx_drop_all`, the rounds of `rx_drop` over the sockets of the process. All
-- sockets are made over one umem, and so share its fill ring: they are calls `xsks i` on one kernel's
-- state, which each of them leaves for the next one.
pub mod Kept
use userspace_xdp.Prelude.{
  ℕ, zero, suc, ◌+◌, Bool, true, false, not, ◌&&◌, List, [], ◌∷◌, map, if◌then◌else◌,
}
use userspace_xdp.Afxdp.{Xsk, Options, Socket, Run, returns, exits, waits, ◌>>=◌, u64}
use userspace_xdp.Afxdp.Receive.{rx_drop}

-- `poll` over the sockets: what happens on the rings while the process waits, and whether one of the
-- sockets was ready; and the flag that a signal sets
pub record Poller (K : Type 0) : Type 0 where
  pub opt_poll : Bool
  pub wait : K → K
  pub is_ready : K → Bool
  pub benchmark_done : K → Bool

unfoldable pub count_poll : {K : Type 0} → Socket K → Socket K
count_poll s = record s { stats = record s.stats { opt_polls = u64 (s.stats.opt_polls + 1) } }

module _ {K : Type 0} (xsks : ℕ → Xsk K) (opt : Options) (p : Poller K) where
  -- the sockets from the number `i` on, with the state of the kernel that the sockets before them left
  unfoldable pub drop_each : ℕ → ℕ → K → List (Socket K) → Run (K × List (Socket K))
  drop_each fuel i k [] = returns (k, [])
  drop_each fuel i k (s ∷ ss) = do
    s1 ← rx_drop (xsks i) opt fuel (record s { kernel = k })
    rest ← drop_each fuel (i + 1) s1.kernel ss
    returns (rest.0, s1 ∷ rest.1)

  -- the loop's body, with whether it leaves the loop
  unfoldable pub drop_round : ℕ → K → List (Socket K) → Run ((K × List (Socket K)) × Bool)
  drop_round fuel k ss =
      let k1 = if p.opt_poll then p.wait k else k in
      let polled = if p.opt_poll then map count_poll ss else ss in
      if p.opt_poll && not (p.is_ready k1)
      then returns ((k1, polled), false)
      else do dropped ← drop_each fuel 0 k1 polled; returns (dropped, p.benchmark_done dropped.0)

  unfoldable pub rx_drop_all : ℕ → K → List (Socket K) → Run (K × List (Socket K))
  rx_drop_all zero k ss = waits
  rx_drop_all (suc fuel) k ss = drop_round fuel k ss >>= λ r.
      (let again = rx_drop_all fuel r.0.0 r.0.1 in if r.1 then returns r.0 else again)
