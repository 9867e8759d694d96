-- ===== src/Afxdp/Forward/Rounds.antt =====
-- Any number of rounds of `l2fwd`.
use userspace_xdp.Prelude.{
  ℕ, ◌+◌, ◌^◌, ◌<◌, ◌≡◌, refl, subst, fun_ext, arith, List, [], ◌∷◌, length, ◌==◌, if-eq, inl, inr,
  sym, Mem,
}
use userspace_xdp.Afxdp.{
  Desc, Xsk, Options, Socket, returns, Handler, XdpMdUserspace, ebpf_process_packet,
}
use userspace_xdp.Afxdp.Complete.{complete_tx_l2fwd}
use userspace_xdp.Afxdp.Forward.{Batch, forward_all, reserve_tx, l2fwd, process, forward_desc}
use userspace_xdp.Afxdp.Forward.Batches.{open_frags, first_frags}
use userspace_xdp.Afxdp.Forward.Order.{
  Inv, Same-Inv, kernel-Same, poll_rx-Same, complete_tx_l2fwd-Inv, reserve_tx-Inv, finish-Inv,
  >>=-eq-returns, returns_inj,
}

-- the socket after `xsk_configure_socket`
abbrev pub start : {K : Type 0} → K → Mem → Socket K
start k m = record {
  kernel = k;
  mem = m;
  outstanding_tx = 0;
  nb_frags = 0;
  stats = record {
    rx_frags = 0;
    rx_npkts = 0;
    tx_frags = 0;
    tx_npkts = 0;
    rx_empty_polls = 0;
    fill_fail_polls = 0;
    copy_tx_sendtos = 0;
    tx_wakeup_sendtos = 0;
    opt_polls = 0;
  };
  trace = record {
    received = [];
    released = 0;
    written = [];
    submitted = 0;
    completed = [];
    cq_released = 0;
    filled = [];
    ran = [];
  };
}

module _ {K : Type 0} (x : Xsk K) (opt : Options) (run : Handler) where
  -- A round that returns. The fragments that wait for the end of their packet and a batch of more
  -- are fewer than 2 ^ 32, as they stand in one ring.
  pub data Round (s t : Socket K) : Type 0 where
    round :
        (fuel : ℕ)
        → l2fwd x opt run fuel s ≡ returns t
        → t.nb_frags + opt.batch_size < 2 ^ 32
        → Round s t

  pub data Reach (s : Socket K) : Socket K → Type 0 where
    here : Reach s s
    next : {t u : Socket K} → Reach s t → Round t u → Reach s u

  Round-Inv : {s t : Socket K} → Round s t → Inv opt.batch_size s → Inv opt.batch_size t
  unfolding l2fwd
  Round-Inv {s} {t} (round fuel h room) i =
      let n = opt.batch_size in
      let (s1, h1, k1) = >>=-eq-returns (complete_tx_l2fwd x opt fuel s) _ h in
      let i1 = complete_tx_l2fwd-Inv x opt n fuel s s1 h1 i in
      let p = x.peek_rx s1.kernel n in
      let s2 : Socket K = record s1 { kernel = p.1 } in
      let i2 = Same-Inv (kernel-Same s1 p.1) i1 in
      elim (if-eq (length p.0 == 0) _ _ k1) [
        | inl (e, k) ↦ subst (Inv n) (returns_inj k) (Same-Inv {s = s2} (poll_rx-Same x opt s2) i2)
        | inr (e, k) ↦
            let (s3, h3, k3) = >>=-eq-returns (reserve_tx x opt fuel (length p.0) s2) _ k in
            let i3 = reserve_tx-Inv x opt n fuel (length p.0) s2 s3 h3 i2 in
            let eq = returns_inj k3 in
            let r = subst (λ u. u.nb_frags + n < 2 ^ 32) (sym eq) room in
            subst (Inv n) eq (finish-Inv x run n p.0 s3 (x.length-peek_rx s1.kernel n) r i3)
      ]

  -- After any number of rounds from the start that returned, while a packet's fragments and a batch
  -- stay below 2 ^ 32: the entries written to the send ring are the received ones, unchanged and in
  -- order; those submitted and released are the entries of the packets that have ended; the program
  -- has run once for each packet, at its first entry; every completed frame's address went to the
  -- fill ring; and `outstanding_tx` is the number of frames submitted and not completed, mod 2 ^ 32.
  pub Reach-Inv :
      (k : K) (m : Mem) (s : Socket K)
      → opt.batch_size < 2 ^ 32
      → Reach (start k m) s
      → Inv opt.batch_size s
  unfolding open_frags first_frags
  Reach-Inv k m s b here = record {
    in_order = refl;
    whole = refl;
    freed = refl;
    kept = refl;
    once = refl;
    refilled = refl;
    acked = refl;
    balance = refl;
    room = omega (arith, b);
  }
  Reach-Inv k m s b (next r st) = Round-Inv st (Reach-Inv k m _ b r)

module _ {K : Type 0} (x : Xsk K) (run run' : Handler) where
  forward_desc_congr :
      ((c : XdpMdUserspace) (m : Mem) → (run c m).0 ≡ (run' c m).0)
      → (d : Desc) (b : Batch) → forward_desc x run d b ≡ forward_desc x run' d b
  unfolding forward_desc process ebpf_process_packet
  forward_desc_congr h d b = rw (h _ b.mem) refl

  forward_all_congr :
      ((c : XdpMdUserspace) (m : Mem) → (run c m).0 ≡ (run' c m).0)
      → (ds : List Desc) (b : Batch) → forward_all x run ds b ≡ forward_all x run' ds b
  unfolding forward_all
  forward_all_congr h [] b = refl
  forward_all_congr h (d ∷ ds) b =
      rw (forward_desc_congr h d b) (forward_all_congr h ds (forward_desc x run' d b))

module _ {K : Type 0} (x : Xsk K) (opt : Options) (run run' : Handler) where
  -- Two programs that leave the same memory behind, whatever they return, make the same round of
  -- `l2fwd`: the verdict of the program is ignored, and a packet that it drops is sent as well.
  pub l2fwd_ignores :
      ((c : XdpMdUserspace) (m : Mem) → (run c m).0 ≡ (run' c m).0)
      → (fuel : ℕ) (s : Socket K) → l2fwd x opt run fuel s ≡ l2fwd x opt run' fuel s
  unfolding l2fwd
  l2fwd_ignores h fuel s =
      let all : forward_all x run ≡ forward_all x run' =
        fun_ext λ ds. fun_ext λ b. forward_all_congr x run run' h ds b in
      rw all refl
