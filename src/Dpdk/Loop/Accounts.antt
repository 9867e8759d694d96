-- ===== src/Dpdk/Loop/Accounts.antt =====
-- What becomes of the received packets.
use userspace_xdp.Prelude.{
  ◌<◌, ltb, not, ◌&&◌, false, ℕ, ◌+◌, ◌%◌, ◌^◌, ◌≤◌, ◌≡◌, ◌≢◌, refl, sym, ◌∙◌, ap, arith,
  Bool-cases, inl, inr, List, [], ◌∷◌, ◌++◌, length, suc-eqb-zero, some, ◌==◌, if◌then◌else◌, Mem,
}
use userspace_xdp.Afxdp.{Handler, u64}
use userspace_xdp.Afxdp.Forward.Batches.{append_nil, append_assoc}
use userspace_xdp.Dpdk.Loop.{
  Mbuf, max_pkt_burst, rte_max_ethports, is_handled, Ethdev, Lcore, set_stats, send, act, context,
  l2fwd_simple_forward, forward_burst, read_port, read_burst,
}

-- the packets of a burst, each with what `dst_port` holds in its call and what the program returns for it
unfoldable pub results : Handler → (ℕ → ℕ) → ℕ → List Mbuf → Mem → List ((ℕ × Mbuf) × ℕ)
results run uninit n [] mem = []
results run uninit n (m ∷ ms) mem =
    let (mem', ret) = run (context m) mem in
    ((uninit n, m), ret) ∷ results run uninit (n + 1) ms mem'

-- how many of the packets have the result `r` and the port `i`
unfoldable pub count : ℕ → ℕ → List ((ℕ × Mbuf) × ℕ) → ℕ
count r i [] = 0
count r i (((d, m), ret) ∷ rs) = (if ret == r && i == d then 1 else 0) + count r i rs

-- the packets for which the program returns XDP_TX or XDP_REDIRECT
unfoldable pub to_send : List ((ℕ × Mbuf) × ℕ) → List (ℕ × Mbuf)
to_send [] = []
to_send ((p, ret) ∷ rs) =
    let rest = to_send rs in if ret == 3 then p ∷ rest else if ret == 4 then p ∷ rest else rest

module _ {K : Type 0} (dev : Ethdev K) where
  -- the driver after it was given the packets, and how many packets it says it has sent on the port `i`
  unfoldable pub driven : K → List (ℕ × Mbuf) → K
  driven k [] = k
  driven k ((d, m) ∷ ps) = driven (dev.tx_buffer k d m).1 ps

  unfoldable pub sent_to : ℕ → K → List (ℕ × Mbuf) → ℕ
  sent_to i k [] = 0
  sent_to i k ((d, m) ∷ ps) =
      let (sent, k') = dev.tx_buffer k d m in (if i == d then sent else 0) + sent_to i k' ps

  -- The packets with the results `rs` are accounted for between `s` and `t`, at every port.
  pub record Accounts (rs : List ((ℕ × Mbuf) × ℕ)) (s t : Lcore K) : Type 0 where
    -- those to send went to the driver, in order, and what it sent of them is counted
    pub handed : t.handed ≡ s.handed ++ to_send rs
    pub driver : t.driver ≡ driven s.driver (to_send rs)
    pub sent :
        (i : ℕ)
        → (t.stats i).tx % 2 ^ 64 ≡ ((s.stats i).tx + sent_to i s.driver (to_send rs)) % 2 ^ 64
    -- those that the program dropped and passed are counted, mod 2 ^ 64
    pub dropped :
        (i : ℕ) → (t.stats i).xdp_drop % 2 ^ 64 ≡ ((s.stats i).xdp_drop + count 1 i rs) % 2 ^ 64
    pub passed :
        (i : ℕ) → (t.stats i).xdp_pass % 2 ^ 64 ≡ ((s.stats i).xdp_pass + count 2 i rs) % 2 ^ 64
    pub rx_kept : (i : ℕ) → (t.stats i).rx ≡ (s.stats i).rx

  -- `n` packets with the results `rs` came to the port `portid` between `s` and `t`; `k` is the driver
  -- after they were read.
  pub record Read (portid n : ℕ) (rs : List ((ℕ × Mbuf) × ℕ)) (k : K) (s t : Lcore K) : Type 0 where
    pub received : (t.stats portid).rx % 2 ^ 64 ≡ ((s.stats portid).rx + n) % 2 ^ 64
    pub not_received : (i : ℕ) → i ≢ portid → (t.stats i).rx ≡ (s.stats i).rx
    pub handed : t.handed ≡ s.handed ++ to_send rs
    pub driver : t.driver ≡ driven k (to_send rs)
    pub sent :
        (i : ℕ) → (t.stats i).tx % 2 ^ 64 ≡ ((s.stats i).tx + sent_to i k (to_send rs)) % 2 ^ 64
    pub dropped :
        (i : ℕ) → (t.stats i).xdp_drop % 2 ^ 64 ≡ ((s.stats i).xdp_drop + count 1 i rs) % 2 ^ 64
    pub passed :
        (i : ℕ) → (t.stats i).xdp_pass % 2 ^ 64 ≡ ((s.stats i).xdp_pass + count 2 i rs) % 2 ^ 64

  driven-append : (k : K) (xs ys : List (ℕ × Mbuf)) → driven k (xs ++ ys) ≡ driven (driven k xs) ys
  unfolding driven
  driven-append k [] ys = refl
  driven-append k ((d, m) ∷ xs) ys = driven-append (dev.tx_buffer k d m).1 xs ys

  sent_to-append :
      (i : ℕ) (k : K) (xs ys : List (ℕ × Mbuf))
      → sent_to i k (xs ++ ys) ≡ sent_to i k xs + sent_to i (driven k xs) ys
  unfolding driven sent_to
  sent_to-append i k [] ys = omega arith
  sent_to-append i k ((d, m) ∷ xs) ys =
      omega (arith, sent_to-append i (dev.tx_buffer k d m).1 xs ys)

to_send-cons :
    (x : (ℕ × Mbuf) × ℕ) (rs : List ((ℕ × Mbuf) × ℕ))
    → to_send (x ∷ rs) ≡ to_send (x ∷ []) ++ to_send rs
unfolding to_send
to_send-cons (p, ret) rs = elim (Bool-cases (ret == 3)) [
  | inl e ↦ rw e refl
  | inr e ↦ elim (Bool-cases (ret == 4)) [ inl e' ↦ rw (e, e') refl | inr e' ↦ rw (e, e') refl ]
]

count-cons :
    (r i : ℕ) (x : (ℕ × Mbuf) × ℕ) (rs : List ((ℕ × Mbuf) × ℕ))
    → count r i (x ∷ rs) ≡ count r i (x ∷ []) + count r i rs
unfolding count
count-cons r i ((d, m), ret) rs = omega arith

module _ {K : Type 0} (dev : Ethdev K) where
  Accounts-refl : (s : Lcore K) → Accounts dev [] s s
  unfolding to_send count driven sent_to
  Accounts-refl s = record {
    handed = sym (append_nil s.handed);
    driver = refl;
    sent = λ i. omega arith;
    dropped = λ i. omega arith;
    passed = λ i. omega arith;
    rx_kept = λ i. refl;
  }

  Accounts-cons :
      (x : (ℕ × Mbuf) × ℕ) (rs : List ((ℕ × Mbuf) × ℕ)) (s t u : Lcore K)
      → Accounts dev (x ∷ []) s t
      → Accounts dev rs t u
      → Accounts dev (x ∷ rs) s u
  Accounts-cons x rs s t u a b =
      let first = to_send (x ∷ []) in
      let rest = to_send rs in
      let sent : (i : ℕ)
          → sent_to dev i s.driver (to_send (x ∷ rs))
            ≡ sent_to dev i s.driver first + sent_to dev i t.driver rest =
        λ i. rw (to_send-cons x rs, a.driver) (sent_to-append dev i s.driver first rest) in
      record {
        handed = rw (b.handed, a.handed, to_send-cons x rs) (append_assoc s.handed first rest);
        driver =
            b.driver
            ∙ ap (λ k. driven dev k rest) a.driver
            ∙ sym (driven-append dev s.driver first rest)
            ∙ sym (ap (driven dev s.driver) (to_send-cons x rs));
        sent = λ i. omega (arith, a.sent i, b.sent i, sent i);
        dropped = λ i. omega (arith, a.dropped i, b.dropped i, count-cons 1 i x rs);
        passed = λ i. omega (arith, a.passed i, b.passed i, count-cons 2 i x rs);
        rx_kept = λ i. b.rx_kept i ∙ a.rx_kept i;
      }

  act-Accounts :
      (d : ℕ) (m : Mbuf) (ret : ℕ) (s : Lcore K)
      → Accounts dev (((d, m), ret) ∷ []) s (act dev d m ret s)
  unfolding act send set_stats to_send count driven sent_to
  act-Accounts d m ret s = record {
    handed = ground (arith, append_nil s.handed);
    driver = ground arith;
    sent = λ i. ground arith;
    dropped = λ i. ground arith;
    passed = λ i. ground arith;
    rx_kept = λ i. ground arith;
  }

  act_keeps :
      (d : ℕ) (m : Mbuf) (ret : ℕ) (s : Lcore K)
      → ((act dev d m ret s).mem ≡ s.mem) × ((act dev d m ret s).calls ≡ s.calls)
  unfolding act send
  act_keeps d m ret s = (ground arith, ground arith)

module _ {K : Type 0} (dev : Ethdev K) (run : Handler) (uninit : ℕ → ℕ)
    (in_array : (n : ℕ) → uninit n < rte_max_ethports) where
  forward_burst-Accounts :
      (ms : List Mbuf) (s : Lcore K)
      → (t : Lcore K) × (forward_burst dev run uninit ms s ≡ some t)
        × Accounts dev (results run uninit s.calls ms s.mem) s t
  unfolding forward_burst l2fwd_simple_forward results
  forward_burst-Accounts [] s = (s, refl, Accounts-refl dev s)
  forward_burst-Accounts (m ∷ ms) s =
      let d = uninit s.calls in
      let r = run (context m) s.mem in
      let s1 : Lcore K = record s { mem = r.0; calls = s.calls + 1 } in
      let t = act dev d m r.1 s1 in
      let a = act-Accounts dev d m r.1 s1 in
      let (mem, calls) = act_keeps dev d m r.1 s1 in
      let first : Accounts dev (((d, m), r.1) ∷ []) s t = record {
        handed = a.handed;
        driver = a.driver;
        sent = a.sent;
        dropped = a.dropped;
        passed = a.passed;
        rx_kept = a.rx_kept;
      } in
      let valid : (is_handled r.1 && not (ltb d rte_max_ethports)) ≡ false =
        ground (arith, in_array s.calls) in
      let (u, e, b) = forward_burst-Accounts ms t in
      let b' = rw (mem, calls) at b in
      (
        u,
        rw (forward_burst, l2fwd_simple_forward, valid) e,
        Accounts-cons dev ((d, m), r.1) (results run uninit (s.calls + 1) ms r.0) s t u first b',
      )

  read_burst-Read :
      (portid : ℕ) (ms : List Mbuf) (s : Lcore K)
      → (t : Lcore K) × (read_burst dev run uninit portid ms s ≡ some t)
        × Read dev portid (length ms) (results run uninit s.calls ms s.mem) s.driver s t
  unfolding read_burst results to_send count set_stats driven sent_to
  read_burst-Read portid [] s = (
    s,
    refl,
    record {
      received = omega arith;
      not_received = λ i h. refl;
      handed = sym (append_nil s.handed);
      driver = refl;
      sent = λ i. omega arith;
      dropped = λ i. omega arith;
      passed = λ i. omega arith;
    },
  )
  read_burst-Read portid (m ∷ ms) s =
      let st = s.stats portid in
      let s1 : Lcore K = record s {
        stats = set_stats s.stats portid (record st { rx = u64 (st.rx + length (m ∷ ms)) });
      } in
      let (t, e, a) = forward_burst-Accounts (m ∷ ms) s1 in
      (
        t,
        rw (suc-eqb-zero (length ms)) e,
        record {
          received = ground (arith, a.rx_kept portid);
          not_received = λ i h. ground (arith, a.rx_kept i, h);
          handed = a.handed;
          driver = a.driver;
          sent = λ i. ground (arith, a.sent i);
          dropped = λ i. ground (arith, a.dropped i);
          passed = λ i. ground (arith, a.passed i);
        },
      )

  -- Reading a port's receive queue, if `dst_port`, which the code does not set, holds a port's number in
  -- every call: it does not fault; what came, at most MAX_PKT_BURST packets, is counted as received at that
  -- port and no other, mod 2 ^ 64; the packets for which the program returns XDP_TX or XDP_REDIRECT are
  -- handed to the driver, in their order and no others; and at every port the packets that the driver says
  -- it has sent, and those that the program drops and passes, are counted, mod 2 ^ 64.
  pub read_port-Read :
      (portid : ℕ) (s : Lcore K)
      → let p = dev.rx_burst s.driver portid max_pkt_burst in
        (length p.0 ≤ max_pkt_burst)
        × ((t : Lcore K) × (read_port dev run uninit portid s ≡ some t)
            × Read dev portid (length p.0) (results run uninit s.calls p.0 s.mem) p.1 s t)
  unfolding read_port
  read_port-Read portid s =
      let p = dev.rx_burst s.driver portid max_pkt_burst in
      let (t, e, r) = read_burst-Read portid p.0 (record s { driver = p.1 }) in
      (
        dev.length-rx_burst s.driver portid max_pkt_burst,
        (
          t,
          e,
          record {
            received = r.received;
            not_received = r.not_received;
            handed = r.handed;
            driver = r.driver;
            sent = r.sent;
            dropped = r.dropped;
            passed = r.passed;
          },
        ),
      )
