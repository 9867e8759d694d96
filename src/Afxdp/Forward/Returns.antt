-- ===== src/Afxdp/Forward/Returns.antt =====
-- A round of `l2fwd` returns if the kernel refuses a reservation only so often.
use userspace_xdp.Prelude.{
  ℕ, zero, suc, ◌^◌, ◌≤◌, ◌<◌, ◌≡◌, ◌⊎◌, refl, arith, Bool, false, ◌||◌, List, length, leb, ltb,
  ◌==◌, if◌then◌else◌, Bool-cases, inl, inr,
}
use userspace_xdp.Afxdp.{Xsk, Options, Socket, Run, returns, ◌>>=◌, Handler}
use userspace_xdp.Afxdp.Complete.{
  kick_tx, poll_fill, reserve_fq, give_back, kick_copy, refill, complete_tx_l2fwd, wake_tx,
}
use userspace_xdp.Afxdp.Forward.{forward_all, reserve_tx, poll_rx, open_batch, finish, l2fwd}

-- The kernel refuses a reservation at most `patience k` times, each time without an error, until
-- the round ends with a submit; a wake-up does not fail.
pub record IsPatient {K : Type 0} (x : Xsk K) (patience : K → ℕ) : Type 0 where
  pub fq_granted :
      (k : K) (n : ℕ)
      → let r = x.reserve_fq k n in
        ((r.0 ≡ n) × (patience r.1 ≤ patience k)) ⊎ ((r.0 < 2 ^ 31) × (patience r.1 < patience k))
  pub tx_granted :
      (k : K) (n : ℕ)
      → let r = x.reserve_tx k n in
        ((r.0 ≡ n) × (patience r.1 ≤ patience k)) ⊎ ((r.0 < 2 ^ 31) × (patience r.1 < patience k))
  pub peek_cq_keeps : (k : K) (n : ℕ) → patience (x.peek_cq k n).1 ≤ patience k
  pub peek_rx_keeps : (k : K) (n : ℕ) → patience (x.peek_rx k n).1 ≤ patience k
  pub refill_keeps :
      (k : K) (l : List ℕ) (n : ℕ) → patience (x.release_cq (x.submit_fq k l) n) ≤ patience k
  pub recvfrom_keeps : (k : K) → patience (x.recvfrom k) ≤ patience k
  pub sendto_works : (k : K) → ((x.sendto k).0 ≡ false) × (patience (x.sendto k).1 ≤ patience k)

-- `m` returns, with a kernel that is no less patient than `n`
pub record Ends {K : Type 0} (patience : K → ℕ) (n : ℕ) (m : Run (Socket K)) : Type 0 where
  pub result : Socket K
  pub ended : m ≡ returns result
  pub left : patience result.kernel ≤ n

module _ {K : Type 0} (x : Xsk K) (patience : K → ℕ) (ok : IsPatient x patience) where
  -- a bind whose first part ends
  bind-Ends :
      {n c : ℕ} (m : Run (Socket K)) (f : Socket K → Run (Socket K))
      → Ends patience n m
      → ((s : Socket K) → patience s.kernel ≤ n → Ends patience c (f s))
      → Ends patience c (m >>= f)
  bind-Ends m f e h = rw e.ended (h e.result e.left)

  kick_tx-Ends : (s : Socket K) → Ends patience (patience s.kernel) (kick_tx x s)
  unfolding kick_tx
  kick_tx-Ends s =
      let k = ok.sendto_works s.kernel in
      rw k.0
        (record { result = record s { kernel = (x.sendto s.kernel).1 }; ended = refl; left = k.1 })

  wake_tx-Ends : (w : Bool) (s : Socket K) → Ends patience (patience s.kernel) (wake_tx x w s)
  unfolding wake_tx
  wake_tx-Ends w s = elim (Bool-cases (w || x.tx_needs_wakeup s.kernel)) [
    | inl e ↦ rw e (kick_tx-Ends _)
    | inr e ↦ rw e (record { result = s; ended = refl; left = omega arith })
  ]

  give_back_keeps :
      (l : List ℕ) (s : Socket K) → patience (give_back x l s).kernel ≤ patience s.kernel
  unfolding give_back
  give_back_keeps l s = ok.refill_keeps s.kernel l (length l)

module _ {K : Type 0} (x : Xsk K) (opt : Options) (patience : K → ℕ)
    (ok : IsPatient x patience) where
  poll_fill_keeps : (s : Socket K) → patience (poll_fill x opt s).kernel ≤ patience s.kernel
  unfolding poll_fill
  poll_fill_keeps s = elim (Bool-cases (opt.busy_poll || x.fq_needs_wakeup s.kernel)) [
    | inl e ↦ rw e (ok.recvfrom_keeps s.kernel)
    | inr e ↦ rw e (omega arith)
  ]

  pub reserve_fq-Ends :
      (fuel n c : ℕ) (s : Socket K)
      → patience s.kernel < fuel
      → patience s.kernel ≤ c
      → Ends patience c (reserve_fq x opt fuel n s)
  unfolding reserve_fq
  reserve_fq-Ends zero n c s h l = absurd (omega (arith, h))
  reserve_fq-Ends (suc fuel) n c s h l =
      let r = x.reserve_fq s.kernel n in
      let s' : Socket K = record s { kernel = r.1 } in
      elim (Bool-cases (r.0 == n)) [
        | inl e ↦
            rw e (record {
              result = s';
              ended = refl;
              left = ground (arith, ok.fq_granted s.kernel n);
            })
        | inr e ↦
            let small : leb (2 ^ 31) r.0 ≡ false = ground (arith, ok.fq_granted s.kernel n) in
            let less : patience r.1 < patience s.kernel =
              ground (arith, ok.fq_granted s.kernel n) in
            let keeps = poll_fill_keeps s' in
            rw (e, small)
              (reserve_fq-Ends fuel n c (poll_fill x opt s') (omega (arith, less, keeps, h))
                (omega (arith, less, keeps, l)))
      ]

  kick_copy-Ends : (s : Socket K) → Ends patience (patience s.kernel) (kick_copy x opt s)
  unfolding kick_copy
  kick_copy-Ends s = elim (Bool-cases opt.copy_mode) [
    | inl e ↦ rw e (kick_tx-Ends x patience ok _)
    | inr e ↦ rw e (record { result = s; ended = refl; left = omega arith })
  ]

  refill-Ends :
      (fuel c : ℕ) (s : Socket K)
      → patience s.kernel < fuel
      → patience s.kernel ≤ c
      → Ends patience c (refill x opt fuel s)
  unfolding refill
  refill-Ends fuel c s h l =
      let nd = if ltb opt.batch_size s.outstanding_tx then opt.batch_size else s.outstanding_tx in
      let p = x.peek_cq s.kernel nd in
      let s' : Socket K = record s { kernel = p.1 } in
      let keeps = ok.peek_cq_keeps s.kernel nd in
      elim (Bool-cases (length p.0 == 0)) [
        | inl e ↦ rw e (record { result = s'; ended = refl; left = omega (arith, keeps, l) })
        | inr e ↦ rw e (
            bind-Ends x patience ok (reserve_fq x opt fuel (length p.0) s') _
              (reserve_fq-Ends fuel (length p.0) c s' (omega (arith, keeps, h))
                (omega (arith, keeps, l)))
              (λ t k. record {
                result = give_back x p.0 t;
                ended = refl;
                left = omega (arith, k, give_back_keeps x patience ok p.0 t);
              }))
      ]

  complete_tx_l2fwd-Ends :
      (fuel c : ℕ) (s : Socket K)
      → patience s.kernel < fuel
      → patience s.kernel ≤ c
      → Ends patience c (complete_tx_l2fwd x opt fuel s)
  unfolding complete_tx_l2fwd
  complete_tx_l2fwd-Ends fuel c s h l = elim (Bool-cases (s.outstanding_tx == 0)) [
    | inl e ↦ rw e (record { result = s; ended = refl; left = l })
    | inr e ↦ rw e (
        bind-Ends x patience ok (kick_copy x opt s) _ (kick_copy-Ends s)
          (λ t k. refill-Ends fuel c t (omega (arith, k, h)) (omega (arith, k, l))))
  ]

  reserve_tx-Ends :
      (fuel n c : ℕ) (s : Socket K)
      → patience s.kernel < fuel
      → patience s.kernel ≤ c
      → Ends patience c (reserve_tx x opt fuel n s)
  unfolding reserve_tx
  reserve_tx-Ends zero n c s h l = absurd (omega (arith, h))
  reserve_tx-Ends (suc fuel) n c s h l =
      let r = x.reserve_tx s.kernel n in
      let s' : Socket K = record s { kernel = r.1 } in
      elim (Bool-cases (r.0 == n)) [
        | inl e ↦
            rw e (record {
              result = s';
              ended = refl;
              left = ground (arith, ok.tx_granted s.kernel n);
            })
        | inr e ↦
            let small : leb (2 ^ 31) r.0 ≡ false = ground (arith, ok.tx_granted s.kernel n) in
            let less : patience r.1 < patience s.kernel =
              ground (arith, ok.tx_granted s.kernel n) in
            rw (e, small)
              (bind-Ends x patience ok (complete_tx_l2fwd x opt fuel s') _
                (complete_tx_l2fwd-Ends fuel (patience r.1) s' (omega (arith, less, h))
                  (omega arith))
                (λ t k.
                  bind-Ends x patience ok (wake_tx x opt.busy_poll t) _
                    (wake_tx-Ends x patience ok opt.busy_poll t)
                    (λ u k'.
                      reserve_tx-Ends fuel n c u (omega (arith, less, h, k, k'))
                        (omega (arith, less, l, k, k')))))
      ]

module _ {K : Type 0} (x : Xsk K) (opt : Options) (run : Handler) (patience : K → ℕ)
    (ok : IsPatient x patience) where
  -- If the kernel refuses reservations at most `patience` times before the round's submit, each time
  -- without an error, and wake-ups do not fail, then with more fuel than that a round of `l2fwd` returns:
  -- its loops, the one inside the other included, end.
  pub l2fwd-Ends :
      (fuel : ℕ) (s : Socket K)
      → patience s.kernel < fuel
      → (t : Socket K) × (l2fwd x opt run fuel s ≡ returns t)
  unfolding l2fwd
  l2fwd-Ends fuel s h =
      let a = complete_tx_l2fwd-Ends x opt patience ok fuel (patience s.kernel) s h (omega arith) in
      let p = x.peek_rx a.result.kernel opt.batch_size in
      let s2 : Socket K = record a.result { kernel = p.1 } in
      let keeps = ok.peek_rx_keeps a.result.kernel opt.batch_size in
      rw a.ended (elim (Bool-cases (length p.0 == 0)) [
        | inl e ↦ rw e (poll_rx x opt s2, refl)
        | inr e ↦
            let b =
              reserve_tx-Ends x opt patience ok fuel (length p.0) (patience s.kernel) s2
                (omega (arith, keeps, a.left, h)) (omega (arith, keeps, a.left)) in
            rw (e, b.ended)
              (finish x p.0 (forward_all x run p.0 (open_batch b.result)) b.result, refl)
      ])
