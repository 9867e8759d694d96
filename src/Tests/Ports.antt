-- ===== src/Tests/Ports.antt =====
-- dpdk/main.c at concrete ports.
use userspace_xdp.Prelude.{
  ◌%◌, ◌<◌, ℕ, suc, ◌≤◌, ◌≡◌, ◌⊎◌, refl, arith, ◌&&◌, ◌||◌, List, [], ◌∷◌, length, none, some, leb,
  ltb, if◌then◌else◌, put8,
}
use userspace_xdp.Afxdp.{Handler, exits, returns}
use userspace_xdp.Dpdk.Ports.{
  Mask, PortPair, no_ports, check_port_pair_config, populate_pairs, populate_alternate, add_port,
}
use userspace_xdp.Dpdk.Ports.Pairs.{Matched, check_port_pair_config-Matched}
use userspace_xdp.Dpdk.Ports.Alternate.{
  has, any_port, IsDistinct, Paired, populate_alternate-Paired,
}
use userspace_xdp.Dpdk.Loop.{Mbuf, max_pkt_burst, rte_max_ethports, Ethdev, Lcore, read_port}
use userspace_xdp.Dpdk.Loop.Accounts.{Read, results, read_port-Read}
use userspace_xdp.Dpdk.Queues.{Queues, assign_ports}
use userspace_xdp.Dpdk.Queues.Assigned.{IsAssigned, assign_ports-IsAssigned}

abbrev first_four : Mask
first_four i = ltb i 4

abbrev pairs : List PortPair
pairs = record { port0 = 0; port1 = 3 } ∷ record { port0 = 2; port1 = 1 } ∷ []

abbrev config : Mask
config = add_port (add_port (add_port (add_port no_ports 0) 3) 2) 1

abbrev checked : Mask
checked i = first_four i && config i

passes : check_port_pair_config first_four any_port pairs ≡ some checked
unfolding check_port_pair_config add_port
passes = refl

check_port_pair_config-Matched_example :
    Matched first_four any_port (populate_pairs pairs (λ _. 0)) checked
check_port_pair_config-Matched_example =
    check_port_pair_config-Matched first_four any_port pairs checked passes

distinct : IsDistinct (1 ∷ 7 ∷ 2 ∷ [])
unfolding has
distinct = (refl, (refl, (refl, tt)))

populate_alternate-Paired_example :
    Paired first_four
      (populate_alternate first_four (1 ∷ 7 ∷ 2 ∷ []))
      (λ i. first_four i && has (1 ∷ 7 ∷ 2 ∷ []) i)
populate_alternate-Paired_example = populate_alternate-Paired first_four (1 ∷ 7 ∷ 2 ∷ []) distinct

abbrev frame : Mbuf
frame = record { payload = 128; data_len = 60; buf_addr = 0; buf_len = 2048 }

abbrev burst : ℕ → List Mbuf
burst n = if leb 2 n then frame ∷ frame ∷ [] else []

burst_few : (k portid n : ℕ) → length (burst n) ≤ n
burst_few k portid n = ground arith

abbrev device : Ethdev ℕ
device = record {
  tx_buffer = λ k p m. (1, suc k);
  tx_buffer_flush = λ k p. (k, 0);
  rx_burst = λ k p n. (burst n, k);
  length-rx_burst = burst_few;
}

abbrev bounce : Handler
bounce c m = (put8 m c.data_start 7, 3)

abbrev idle : Lcore ℕ
idle = record {
  driver = 0;
  mem = λ _. 0;
  stats = λ _. record { tx = 0; rx = 0; xdp_pass = 0; xdp_drop = 0 };
  handed = [];
  calls = 0;
}

-- `dst_port` is 0 and 1 in turn
abbrev uninit : ℕ → ℕ
uninit n = n % 2

in_array : (n : ℕ) → uninit n < rte_max_ethports
in_array n = omega arith

read_port-Read_example :
    let p = device.rx_burst 0 1 max_pkt_burst in
    (length p.0 ≤ max_pkt_burst)
    × ((t : Lcore ℕ) × (read_port device bounce uninit 1 idle ≡ some t)
        × Read device 1 (length p.0) (results bounce uninit 0 p.0 idle.mem) p.1 idle t)
read_port-Read_example = read_port-Read device bounce uninit in_array 1 idle

abbrev no_queues : Queues
no_queues = record { rx_lcore_id = 0; rx_port_list = λ _. []; qconf = none; nb_lcores = 0 }

unassigned : IsAssigned any_port 4 1 no_ports no_queues
unfolding has
unassigned = record { bounded = λ i. omega arith; on_enabled = λ i h. refl; has_core = λ p h. cc }

assign_ports-IsAssigned_example :
    (assign_ports any_port 4 1 first_four (0 ∷ 1 ∷ 9 ∷ []) no_queues ≡ exits)
    ⊎ ((q : Queues) × (assign_ports any_port 4 1 first_four (0 ∷ 1 ∷ 9 ∷ []) no_queues ≡ returns q)
        × IsAssigned any_port 4 1 (λ i. no_ports i || (first_four i && has (0 ∷ 1 ∷ 9 ∷ []) i)) q)
assign_ports-IsAssigned_example =
    assign_ports-IsAssigned any_port 4 1 first_four (0 ∷ 1 ∷ 9 ∷ []) no_ports no_queues
      (omega arith) unassigned
