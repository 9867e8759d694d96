-- ===== src/Lib.antt =====
-- Verification of userspace-xdp: the runtime that runs XDP programs in user space, and the programs.
--
-- The program. An XDP program (xdp_progs/*.bpf.c) is called with a frame in memory and returns a
-- verdict; it may rewrite the frame, move its head or tail, and use maps. module/ gives it the
-- helper functions (helpers.c) and maps (maps.cpp over lpm_trie.h) outside of the kernel, and
-- xdp_progs/includes/hash_map.h is the hash table that is compiled into programs.
--
-- The model. Memory is a function from addresses to bytes, and a w-bit integer is a natural number
-- with its wrap-around (% 2 ^ w) written out. Hosts are little-endian. A program is a command on a
-- `World`: the frame's two addresses, the memory and the maps' state. A read or a write outside of
-- the frame is a fault, `none`, so an equation with `some` also says that the program is safe.
--
--   Prelude        names of the libraries, Boolean tests, lists, words in memory
--   Xdp            World and the commands (struct xdp_md, enum xdp_action of xdp_progs/def.bpf.h);
--                  Xdp/Mac: swap_src_dst_mac; Xdp/Maps: the interface of maps; Xdp/Helpers: the
--                  helpers bpftime_*_runtime of module/helpers.c; Xdp/Steps: one command at a time
--   Runtime        Runtime/Csum: do_csum, csum_partial and bpftime_csum_diff_runtime of
--                  module/helpers.c, with what a checksum is (ByteSum), the proof (Fold, Diff) and
--                  checksum fields (Field); Runtime/LpmTrie: module/lpm_trie.h and the LPM map of
--                  module/maps.cpp, with Search, Put and Rules; Runtime/DevMap: the device map of
--                  module/maps.cpp (Finite: as a finite map); Runtime/LruMap: its LRU map (Updated)
--   HashMap        xdp_progs/includes/hash_map.h: the operations; Scan: a probe as a search; Slots:
--                  the bytes of a slot; Update: probes after a write; Contract: what is promised
--   Programs       one module for each of xdp_tx (Tx), xdp_drop (Drop), xdping (Ping), xdp_hash_sum
--                  (Hash; Stored: against the definition of XXH32), xdp_lb (Balancer, with the new headers,
--                  Rewrite, what is in memory, Marked, and the whole program, Balanced; Segment:
--                  compute_tcp_csum), xdp_fw (Redirect; Frames: a frame and its
--                  answer), xdp_firewall (Firewall, with the
--                  parser, Parse, and the verdicts, Filter), xdp-firewall/xdpfwadm (Fwadm: what the
--                  tool makes the firewall do, Blocks, the counters that it lists, Stats,
--                  and the rules, Rules),
--                  xdp_tx_iptunnel (Tunnel, with the outer
--                  header, Header, and the whole program, Sent), xdp_adjust_tail (AdjustTail, with its
--                  headers, Headers, the answer, Reply, and the whole program, Answers), xdp-acl/standard_acl
--                  (Acl) and load_standard_acl (Loader; Loaded: both on the runtime's LPM map),
--                  xdp-maps and xdp_map_access (Counters), xdp_csum (Csum),
--                  xdp-tcpclassify (Classify), xdp-observer (Observer), xdp-dump (Dump)
--   Afxdp          afxdp/l2fwd/xdpsock.c: what a socket's rounds share (struct xsk_socket_info,
--                  ebpf_process_packet); Complete: kick_tx, complete_tx_l2fwd, complete_tx_only;
--                  Forward: l2fwd, with its loop (Batches), the accounts (Order, Rounds) and that it
--                  ends (Returns); Receive: rx_drop, and rx_drop_all over several sockets (Sockets,
--                  Kept); Transmit: tx_only, get_batch_size and
--                  tx_only_all, with how packets are split (Split) and counted (Rounds); Sums: the
--                  checksums; Generate: gen_eth_hdr_data (Verifies) and gen_eth_frame (Frames)
--   Dpdk           dpdk/main.c: Ports: check_port_pair_config and l2fwd_dst_ports, from pairs (Pairs)
--                  or not (Alternate); PortMap: the text of --portmap, its parser (Ends, RoundTrip);
--                  Options: l2fwd_parse_args; Loop: l2fwd_simple_forward and l2fwd_main_loop (Accounts);
--                  Args: the numeric arguments; Queues: which core reads which port (Assigned)
--   Tests          the theorems at concrete inputs
--
-- Bounds and fuel. The probe of the hash table runs on as much fuel as there are buckets, which is
-- enough (`HashMap.Contract.probe-ne-out_of_fuel`); the loops that wait
-- for room in a ring run on fuel, which is enough if the kernel refuses only so often
-- (`Afxdp.Forward.Returns.l2fwd-Ends`); the search for a core runs on RTE_MAX_LCORE,
-- xdpfw_rule_list on one round more than there are rules, the parser of --portmap on the text's length
-- (`Dpdk.PortMap.Ends.parse-IsAnswer`), and the loops of
-- `tx_only` on the packet's length and the batch (`Afxdp.Transmit.Rounds.write_batch-Fills`); every
-- other loop is structural. The table's
-- theorems ask that its buffer is smaller than 2^32 bytes, since offsets are `unsigned int`.
--
-- Not under these files and taken as parameters: the cache of flows (`Runtime.LruMap.Cache`), maps
-- (`Xdp.Maps.BpfMap`, with the laws that a lookup after a successful store finds the stored value),
-- the redirect callback, the ring buffer, `bpf_strncmp`, the end of a frame's buffer and the port a
-- frame came in by. Calls of bpf_printk and printf are left out. The two forwarders take libxdp's
-- ring calls (`Afxdp.Xsk`), `poll` (`Afxdp.Receive.Sockets.Poller`), DPDK's calls
-- (`Dpdk.Loop.Ethdev`) and the loaded program (`Afxdp.Handler`) as parameters. A socket's `Trace`
-- and a core's `handed` and `calls` record what passed over these calls; the code does not keep them.
--
-- xdpfwadm takes the calls on maps (`Programs.Fwadm.Fd`), the addresses' and numbers' readers and the
-- loading of programs as parameters, and `Programs.Fwadm.Blocks.Seen` says how its maps are those of the
-- program; the parser of --portmap takes `rte_strsplit` and `strtoul`.
--
-- Not modelled: the set-up and printing of the forwarders, the options of xdpsock, its runs of
-- l2fwd and tx_only over several sockets, loading and registration (module/xdp-runtime.cpp,
-- xdpfw_load), the copies of other projects (katran, bpf_standalone.c) and the programs' loaders,
-- the cache of the LRU map, module/LRUCache11.hpp (a vendored container), `trie_destroy`, and
-- copies of the same programs.
pub mod Prelude
pub mod Xdp
pub mod Runtime
pub mod HashMap
pub mod Programs
pub mod Afxdp
pub mod Dpdk
pub mod Tests
