-- ===== src/Dpdk/Queues.antt =====
-- dpdk/main.c: the loop of `main` that gives each enabled port to a logical core.
pub mod Assigned
use userspace_xdp.Prelude.{
  ℕ, zero, suc, ◌+◌, ◌-◌, ◌≤◌, ◌<◌, ◌≡◌, ◌≢◌, refl, sym, ◌∙◌, ap, subst, arith, Bool, true, false,
  Bool-cases, inl, inr, not, ◌||◌, ◌&&◌, List, [], ◌∷◌, ◌++◌, length, length-append, Option, none,
  some, leb, ◌==◌, if◌then◌else◌, if-eq,
}
use userspace_xdp.Afxdp.{Run, returns, exits, waits, ◌>>=◌}
use userspace_xdp.Afxdp.Forward.Order.{>>=-eq-returns, returns_inj}
use userspace_xdp.Dpdk.Ports.{Mask}
use userspace_xdp.Dpdk.Ports.Alternate.{has}

-- `lcore_queue_conf` as the lists of its ports, with `rx_lcore_id`, `qconf` and `nb_lcores`
pub record Queues : Type 0 where
  pub rx_lcore_id : ℕ
  pub rx_port_list : ℕ → List ℕ
  pub qconf : Option ℕ
  pub nb_lcores : ℕ

abbrev pub is_at : Option ℕ → ℕ → Bool
is_at none i = false
is_at (some j) i = j == i

-- `rte_lcore_is_enabled`, RTE_MAX_LCORE and `l2fwd_rx_queue_per_lcore`
module _ (is_enabled : ℕ → Bool) (max_lcore per_lcore : ℕ) where
  unfoldable pub is_free : (ℕ → List ℕ) → ℕ → Bool
  is_free lists i = is_enabled i && not (length (lists i) == per_lcore)

  -- the inner loop: the next core with room for a port
  unfoldable pub find_lcore : ℕ → (ℕ → List ℕ) → ℕ → Run ℕ
  unfolding is_free
  find_lcore zero lists i = waits
  find_lcore (suc fuel) lists i =
      let rest = find_lcore fuel lists (i + 1) in
      if is_free lists i then returns i else if leb max_lcore (i + 1) then exits else rest

  -- the port joins the list of that core
  unfoldable pub add_queue : ℕ → ℕ → Queues → Queues
  add_queue portid i q = record {
    rx_lcore_id = i;
    rx_port_list = λ j. if j == i then q.rx_port_list j ++ (portid ∷ []) else q.rx_port_list j;
    qconf = some i;
    nb_lcores = if is_at q.qconf i then q.nb_lcores else q.nb_lcores + 1;
  }

  unfoldable pub assign_port : ℕ → Queues → Run Queues
  unfolding find_lcore add_queue
  assign_port portid q =
      find_lcore max_lcore q.rx_port_list q.rx_lcore_id >>= λ i. returns (add_queue portid i q)

  unfoldable pub assign_ports : Mask → List ℕ → Queues → Run Queues
  unfolding assign_port
  assign_ports enabled [] q = returns q
  assign_ports enabled (portid ∷ ports) q =
      (if enabled portid then assign_port portid q else returns q) >>= assign_ports enabled ports
