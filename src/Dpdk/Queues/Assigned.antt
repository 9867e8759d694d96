-- ===== src/Dpdk/Queues/Assigned.antt =====
-- Which cores the ports are given to.
use userspace_xdp.Prelude.{
  ℕ, zero, suc, ◌+◌, ◌≤◌, ◌<◌, ◌≡◌, refl, arith, Bool, true, false, Bool-cases, inl, inr, ◌⊎◌, ◌||◌,
  ◌&&◌, List, [], ◌∷◌, ◌++◌, length, length-append, leb, ◌==◌,
}
use userspace_xdp.Afxdp.{Run, returns, exits}
use userspace_xdp.Dpdk.Ports.{Mask, add_port}
use userspace_xdp.Dpdk.Ports.Alternate.{has}
use userspace_xdp.Dpdk.Queues.{Queues, is_free, find_lcore, add_queue, assign_port, assign_ports}

has-append : (xs : List ℕ) (p i : ℕ) → has (xs ++ (p ∷ [])) i ≡ (has xs i || (i == p))
unfolding has
has-append [] p i = ground arith
has-append (x ∷ xs) p i = ground (arith, has-append xs p i)

module _ (is_enabled : ℕ → Bool) (max_lcore per_lcore : ℕ) where
  -- No list is longer than the limit, only enabled cores have ports, and the ports of `m` have a core.
  pub record IsAssigned (m : Mask) (q : Queues) : Type 0 where
    pub bounded : (i : ℕ) → length (q.rx_port_list i) ≤ per_lcore
    pub on_enabled : (i : ℕ) → is_enabled i ≡ false → q.rx_port_list i ≡ []
    pub has_core : (p : ℕ) → m p ≡ true → (i : ℕ) × (has (q.rx_port_list i) p ≡ true)

  -- The search ends, with a core that has room or with the process's exit.
  find_lcore-ends :
      (fuel : ℕ) (lists : ℕ → List ℕ) (i : ℕ)
      → max_lcore ≤ fuel + i
      → i < max_lcore
      → (find_lcore is_enabled max_lcore per_lcore fuel lists i ≡ exits)
        ⊎ ((j : ℕ) × (find_lcore is_enabled max_lcore per_lcore fuel lists i ≡ returns j)
            × (is_free is_enabled max_lcore per_lcore lists j ≡ true)
            × (j < max_lcore))
  unfolding find_lcore
  find_lcore-ends zero lists i l b = absurd (omega (arith, l, b))
  find_lcore-ends (suc fuel) lists i l b =
      let rest = find_lcore-ends fuel lists (i + 1) (omega (arith, l)) in
      elim (Bool-cases (is_free is_enabled max_lcore per_lcore lists i)) [
        | inl e ↦ rw e (inr (i, refl, e, b))
        | inr e ↦ elim (Bool-cases (leb max_lcore (i + 1))) [
          | inl e' ↦ rw (e, e') (inl refl)
          | inr e' ↦ rw (e, e') (rest (ground (arith, e')))
        ]
      ]

  add_queue-IsAssigned :
      (m : Mask) (p j : ℕ) (q : Queues)
      → is_free is_enabled max_lcore per_lcore q.rx_port_list j ≡ true
      → IsAssigned m q
      → IsAssigned (add_port m p) (add_queue is_enabled max_lcore per_lcore p j q)
  unfolding is_free add_queue add_port
  add_queue-IsAssigned m p j q e a = record {
    bounded = λ i. ground (arith, a.bounded i, length-append (q.rx_port_list i) (p ∷ []));
    on_enabled = λ i h. ground (arith, a.on_enabled i);
    has_core = λ k h. elim (Bool-cases (k == p)) [
      | inl s ↦ (j, ground (arith, has-append (q.rx_port_list j) p k))
      | inr o ↦
          let (i, hi) = a.has_core k (ground (arith, h, o)) in
          (i, ground (arith, hi, has-append (q.rx_port_list i) p k))
    ];
  }

  -- the ports that have a core, in other words
  widen :
      (r : Run Queues) (m m' : Mask)
      → ((i : ℕ) → m' i ≡ true → m i ≡ true)
      → (r ≡ exits) ⊎ ((q : Queues) × (r ≡ returns q) × IsAssigned m q)
      → (r ≡ exits) ⊎ ((q : Queues) × (r ≡ returns q) × IsAssigned m' q)
  widen r m m' f (inl e) = inl e
  widen r m m' f (inr (q, e, a)) = inr (
    q,
    e,
    record {
      bounded = a.bounded;
      on_enabled = a.on_enabled;
      has_core = λ k h. a.has_core k (f k h);
    },
  )

  -- The loop over the ports ends within the fuel of RTE_MAX_LCORE for each search, from a core below that:
  -- the process exits ("Not enough cores"), or no core has more ports than the limit, only enabled
  -- cores have ports, and every port of `m`, which had a core before, and every enabled port of
  -- the list has a core.
  pub assign_ports-IsAssigned :
      (enabled : Mask) (ports : List ℕ) (m : Mask) (q : Queues)
      → q.rx_lcore_id < max_lcore
      → IsAssigned m q
      → (assign_ports is_enabled max_lcore per_lcore enabled ports q ≡ exits)
        ⊎ ((q' : Queues) × (assign_ports is_enabled max_lcore per_lcore enabled ports q
              ≡ returns q')
            × IsAssigned (λ i. m i || (enabled i && has ports i)) q')
  unfolding assign_ports has
  assign_ports-IsAssigned enabled [] m q b a = inr (
    q,
    refl,
    record {
      bounded = a.bounded;
      on_enabled = a.on_enabled;
      has_core = λ k h. a.has_core k (ground arith);
    },
  )
  assign_ports-IsAssigned enabled (p ∷ ps) m q b a =
      let all : Mask = λ i. m i || (enabled i && has (p ∷ ps) i) in
      elim (Bool-cases (enabled p)) [
        | inl on ↦ elim (find_lcore-ends max_lcore q.rx_port_list q.rx_lcore_id (omega arith) b) [
          | inl e ↦
              let e' : assign_port is_enabled max_lcore per_lcore p q ≡ exits =
                unfold assign_port in rw e refl in
              rw (on, e') (inl refl)
          | inr (j, e, f, l) ↦
              let q1 = add_queue is_enabled max_lcore per_lcore p j q in
              let e' : assign_port is_enabled max_lcore per_lcore p q ≡ returns q1 =
                unfold assign_port in rw e refl in
              let l1 : q1.rx_lcore_id < max_lcore = unfold add_queue in l in
              rw (on, e')
                (widen (assign_ports is_enabled max_lcore per_lcore enabled ps q1)
                  (λ i. add_port m p i || (enabled i && has ps i)) all
                  (λ k h. unfold add_port in ground arith)
                  (assign_ports-IsAssigned enabled ps (add_port m p) q1 l1
                    (add_queue-IsAssigned m p j q f a)))
        ]
        | inr off ↦ rw off (
            widen (assign_ports is_enabled max_lcore per_lcore enabled ps q)
              (λ i. m i || (enabled i && has ps i)) all (λ k h. ground arith)
              (assign_ports-IsAssigned enabled ps m q b a))
      ]
