-- ===== src/Dpdk/Loop.antt =====
-- dpdk/main.c: `l2fwd_simple_forward` and the rounds of `l2fwd_main_loop`. The ports and their queues
-- belong to DPDK: a record `Ethdev` of its calls, which the loop takes as a parameter.
pub mod Accounts
use userspace_xdp.Prelude.{
  ℕ, ◌+◌, ◌-◌, ◌%◌, ◌^◌, ◌≤◌, Bool, List, [], ◌∷◌, ◌++◌, length, Option, none, some, ltb, leb, ◌==◌,
  if◌then◌else◌, Mem, ◌&&◌, not,
}
use userspace_xdp.Afxdp.{XdpMdUserspace, Handler, u64}

-- `struct rte_mbuf`: where its payload stands (`rte_pktmbuf_mtod`), and its buffer
pub record Mbuf : Type 0 where
  pub payload : ℕ
  pub data_len : ℕ
  pub buf_addr : ℕ
  pub buf_len : ℕ

-- MAX_PKT_BURST
abbrev pub max_pkt_burst : ℕ
max_pkt_burst = 32

-- RTE_MAX_ETHPORTS, the length of `port_statistics` and of `tx_buffer`
abbrev pub rte_max_ethports : ℕ
rte_max_ethports = 32

-- DPDK's calls: `rte_eth_tx_buffer` and `rte_eth_tx_buffer_flush` return the packets sent, and
-- `rte_eth_rx_burst` the received ones, none of which is a null pointer (the loop reads each one before
-- `l2fwd_simple_forward` tests it).
pub record Ethdev (K : Type 0) : Type 0 where
  pub tx_buffer : K → ℕ → Mbuf → ℕ × K
  pub tx_buffer_flush : K → ℕ → ℕ × K
  pub rx_burst : K → ℕ → ℕ → List Mbuf × K
  pub length-rx_burst : (k : K) (portid n : ℕ) → length (rx_burst k portid n).0 ≤ n

-- `struct l2fwd_port_statistics` (`dropped` is never changed)
pub record PortStatistics : Type 0 where
  pub tx : ℕ
  pub rx : ℕ
  pub xdp_pass : ℕ
  pub xdp_drop : ℕ

-- The driver, the memory and the counters of each port. `handed` is not kept by the code: the packets
-- given to `rte_eth_tx_buffer`, each with its port, in order; nor `calls`, how often `l2fwd_simple_forward`
-- was called.
pub record Lcore (K : Type 0) : Type 0 where
  pub driver : K
  pub mem : Mem
  pub stats : ℕ → PortStatistics
  pub handed : List (ℕ × Mbuf)
  pub calls : ℕ

unfoldable pub set_stats : (ℕ → PortStatistics) → ℕ → PortStatistics → ℕ → PortStatistics
set_stats stats portid v i = if i == portid then v else stats i

module _ {K : Type 0} (dev : Ethdev K) where
  -- buffer = tx_buffer[dst_port]; sent = rte_eth_tx_buffer(...); if (sent) ... += sent;
  unfoldable pub send : ℕ → Mbuf → Lcore K → Lcore K
  unfolding set_stats
  send dst_port m s =
      let (sent, k) = dev.tx_buffer s.driver dst_port m in
      let st = s.stats dst_port in
      record s {
        driver = k;
        stats =
            if sent == 0
            then s.stats
            else set_stats s.stats dst_port (record st { tx = u64 (st.tx + sent) });
        handed = s.handed ++ ((dst_port, m) ∷ []);
      }

  -- the switch on the program's return value
  unfoldable pub act : ℕ → Mbuf → ℕ → Lcore K → Lcore K
  unfolding send
  act dst_port m bpf_ret s =
      let st = s.stats dst_port in
      if bpf_ret == 1
      then record s {
        stats = set_stats s.stats dst_port (record st { xdp_drop = u64 (st.xdp_drop + 1) });
      }
      else if bpf_ret == 2
      then record s {
        stats = set_stats s.stats dst_port (record st { xdp_pass = u64 (st.xdp_pass + 1) });
      }
      else if bpf_ret == 3
      then send dst_port m s
      else if bpf_ret == 4
      then send dst_port m s
      else s

  -- the loop that drains the queues of the destination ports
  unfoldable pub flush_ports : (ℕ → ℕ) → List ℕ → Lcore K → Lcore K
  unfolding set_stats
  flush_ports l2fwd_dst_ports [] s = s
  flush_ports l2fwd_dst_ports (rx_port ∷ ports) s =
      let portid = l2fwd_dst_ports rx_port in
      let (sent, k) = dev.tx_buffer_flush s.driver portid in
      let st = s.stats portid in
      let stats =
        if sent == 0
        then s.stats
        else set_stats s.stats portid (record st { tx = u64 (st.tx + sent) }) in
      flush_ports l2fwd_dst_ports ports (record s { driver = k; stats = stats })

-- the results for which `l2fwd_simple_forward` uses `dst_port`
unfoldable pub is_handled : ℕ → Bool
is_handled bpf_ret = leb 1 bpf_ret && leb bpf_ret 4

-- the context that the program sees: the buffer's end is not the packet's end
unfoldable pub context : Mbuf → XdpMdUserspace
context m = record {
  data_start = m.payload;
  data_end = m.payload + m.data_len;
  buffer_start = m.payload;
  buffer_end = m.buf_addr + m.buf_len;
}

module _ {K : Type 0} (dev : Ethdev K) (run : Handler) where
  -- The code declares `dst_port` and never assigns it: `uninit n` is what it holds in the call after `n`
  -- calls. An index outside of the arrays is a fault (`none`).
  unfoldable pub l2fwd_simple_forward : (ℕ → ℕ) → Option Mbuf → Lcore K → Option (Lcore K)
  unfolding act context is_handled
  l2fwd_simple_forward uninit none s = some (record s { calls = s.calls + 1 })
  l2fwd_simple_forward uninit (some m) s =
      let dst_port = uninit s.calls in
      let (mem', bpf_ret) = run (context m) s.mem in
      if is_handled bpf_ret && not (ltb dst_port rte_max_ethports)
      then none
      else some (act dev dst_port m bpf_ret (record s { mem = mem'; calls = s.calls + 1 }))

  -- the loop over the packets of a burst
  unfoldable pub forward_burst : (ℕ → ℕ) → List Mbuf → Lcore K → Option (Lcore K)
  unfolding l2fwd_simple_forward
  forward_burst uninit [] s = some s
  forward_burst uninit (m ∷ ms) s = elim (l2fwd_simple_forward uninit (some m) s) [
    | none ↦ none
    | some t ↦ forward_burst uninit ms t
  ]

  -- what a port's queue gave: the counter and the packets
  unfoldable pub read_burst : (ℕ → ℕ) → ℕ → List Mbuf → Lcore K → Option (Lcore K)
  unfolding set_stats forward_burst
  read_burst uninit portid pkts_burst s =
      let nb_rx = length pkts_burst in
      let st = s.stats portid in
      let counted = record s {
        stats = set_stats s.stats portid (record st { rx = u64 (st.rx + nb_rx) });
      } in
      if nb_rx == 0 then some s else forward_burst uninit pkts_burst counted

  -- one port of the loop that reads the receive queues
  unfoldable pub read_port : (ℕ → ℕ) → ℕ → Lcore K → Option (Lcore K)
  unfolding read_burst
  read_port uninit portid s =
      let (pkts_burst, k) = dev.rx_burst s.driver portid max_pkt_burst in
      read_burst uninit portid pkts_burst (record s { driver = k })

  unfoldable pub read_ports : (ℕ → ℕ) → List ℕ → Lcore K → Option (Lcore K)
  unfolding read_port
  read_ports uninit [] s = some s
  read_ports uninit (portid ∷ ports) s = elim (read_port uninit portid s) [
    | none ↦ none
    | some t ↦ read_ports uninit ports t
  ]

-- the clock of the main loop: `prev_tsc`, `timer_tsc`, and how often the statistics were printed
pub record Clock : Type 0 where
  pub prev_tsc : ℕ
  pub timer_tsc : ℕ
  pub printed : ℕ

-- what does not change while the loop runs
pub record Conf : Type 0 where
  pub drain_tsc : ℕ
  pub timer_period : ℕ
  pub is_main : Bool
  pub rx_port_list : List ℕ

-- the timer, advanced by `diff_tsc` cycles
unfoldable pub advance_timer : Conf → ℕ → Clock → Clock
advance_timer c diff_tsc t =
    let timer_tsc = u64 (t.timer_tsc + diff_tsc) in
    if ltb 0 c.timer_period
    then if leb c.timer_period timer_tsc
      then if c.is_main
        then record t { timer_tsc = 0; printed = t.printed + 1 }
        else record t { timer_tsc = timer_tsc }
      else record t { timer_tsc = timer_tsc }
    else t

module _ {K : Type 0} (dev : Ethdev K) (run : Handler) (c : Conf) (l2fwd_dst_ports : ℕ → ℕ) where
  -- One round of the loop at the time `cur_tsc`.
  unfoldable pub main_round : (ℕ → ℕ) → ℕ → Clock × Lcore K → Option (Clock × Lcore K)
  unfolding advance_timer flush_ports read_ports
  main_round uninit cur_tsc (t, s) =
      let diff_tsc = (cur_tsc + 2 ^ 64 - t.prev_tsc) % 2 ^ 64 in
      let drains = ltb c.drain_tsc diff_tsc in
      let clock =
        if drains then record (advance_timer c diff_tsc t) { prev_tsc = cur_tsc } else t in
      let flushed = if drains then flush_ports dev l2fwd_dst_ports c.rx_port_list s else s in
      elim (read_ports dev run uninit c.rx_port_list flushed) [
        | none ↦ none
        | some s' ↦ some (clock, s')
      ]
