-- ===== src/Afxdp.antt =====
-- afxdp/l2fwd/xdpsock.c: what its rounds share. The rings of an AF_XDP socket belong to libxdp and
-- the kernel: a record `Xsk` of its calls, which every round takes as a parameter. A round returns,
-- or exits the process, or still waits for room in a ring when its fuel has run out.
pub mod Complete
pub mod Forward
pub mod Receive
pub mod Transmit
pub mod Sums
pub mod Generate
use userspace_xdp.Prelude.{
  ℕ, ◌+◌, ◌%◌, ◌^◌, ◌≤◌, Bool, true, false, List, ◌++◌, length, ◌==◌, if◌then◌else◌, Mem,
}

-- `struct xdp_desc`; of its options the code reads and writes the flag XDP_PKT_CONTD only.
pub record Desc : Type 0 where
  pub addr : ℕ
  pub len : ℕ
  pub contd : Bool

-- libxdp's calls on the four rings of a socket. A peek comes with the entries that it makes
-- readable, in order; a submit with the entries that were written since the reservation.
pub record Xsk (K : Type 0) : Type 0 where
  pub peek_cq : K → ℕ → List ℕ × K
  pub peek_rx : K → ℕ → List Desc × K
  pub reserve_fq : K → ℕ → ℕ × K
  pub reserve_tx : K → ℕ → ℕ × K
  pub submit_fq : K → List ℕ → K
  pub submit_tx : K → List Desc → ℕ → K
  pub release_cq : K → ℕ → K
  pub release_rx : K → ℕ → K
  pub fq_needs_wakeup : K → Bool
  pub tx_needs_wakeup : K → Bool
  -- `recvfrom`, and `sendto` with whether it failed for good
  pub recvfrom : K → K
  pub sendto : K → Bool × K
  -- whether a signal has set the flag that ends the run
  pub benchmark_done : K → Bool
  -- `xsk_umem__extract_addr`, `xsk_umem__get_data` as an offset in the buffer, and the latter after
  -- `xsk_umem__add_offset_to_addr`
  pub extract_addr : ℕ → ℕ
  pub get_data : ℕ → ℕ
  pub packet_at : ℕ → ℕ
  -- a peek gives at most as many entries as it was asked for
  pub length-peek_cq : (k : K) (n : ℕ) → length (peek_cq k n).0 ≤ n
  pub length-peek_rx : (k : K) (n : ℕ) → length (peek_rx k n).0 ≤ n

-- the options that the rounds read
pub record Options : Type 0 where
  pub batch_size : ℕ
  pub copy_mode : Bool
  pub busy_poll : Bool
  pub need_wakeup : Bool

-- The counters of `struct xsk_ring_stats` and `struct xsk_app_stats` that the rounds change.
pub record Stats : Type 0 where
  pub rx_frags : ℕ
  pub rx_npkts : ℕ
  pub tx_frags : ℕ
  pub tx_npkts : ℕ
  pub rx_empty_polls : ℕ
  pub fill_fail_polls : ℕ
  pub copy_tx_sendtos : ℕ
  pub tx_wakeup_sendtos : ℕ
  pub opt_polls : ℕ

-- What has passed over the rings, which the code does not keep: the received entries that a round
-- read and how many of them were released, the entries written to the send ring and how many of them
-- were submitted, the addresses given to the fill ring, and the packets that the program ran on.
pub record Trace : Type 0 where
  pub received : List Desc
  pub released : ℕ
  pub written : List Desc
  pub submitted : ℕ
  pub completed : List ℕ
  pub cq_released : ℕ
  pub filled : List ℕ
  pub ran : List Desc

-- `struct xsk_socket_info` with its rings and its buffer. `nb_frags` is the static variable of
-- `l2fwd`, which the sockets of a process share: the rounds of `l2fwd` are modelled for one socket.
pub record Socket (K : Type 0) : Type 0 where
  pub kernel : K
  pub mem : Mem
  pub outstanding_tx : ℕ
  pub nb_frags : ℕ
  pub stats : Stats
  pub trace : Trace

pub data Run (A : Type 0) : Type 0 where
  returns : A → Run A
  exits waits : Run A

infixl 5 ◌>>=◌
abbrev pub ◌>>=◌ : {A B : Type 0} → Run A → (A → Run B) → Run B
returns a >>= f = f a
exits >>= f = exits
waits >>= f = waits

-- the wrap-around of `u32` and of `unsigned long`
abbrev pub u32 : ℕ → ℕ
u32 x = x % 2 ^ 32

abbrev pub u64 : ℕ → ℕ
u64 x = x % 2 ^ 64

-- The calls that hand entries on, each with its line in the trace.
module _ {K : Type 0} (x : Xsk K) where
  abbrev pub submit_fq : List ℕ → Socket K → Socket K
  submit_fq addrs s = record s {
    kernel = x.submit_fq s.kernel addrs;
    trace = record s.trace { filled = s.trace.filled ++ addrs };
  }

  abbrev pub release_cq : List ℕ → Socket K → Socket K
  release_cq addrs s = record s {
    kernel = x.release_cq s.kernel (length addrs);
    trace = record s.trace {
      completed = s.trace.completed ++ addrs;
      cq_released = s.trace.cq_released + length addrs;
    };
  }

  abbrev pub submit_tx : List Desc → ℕ → Socket K → Socket K
  submit_tx descs n s = record s {
    kernel = x.submit_tx s.kernel descs n;
    trace = record s.trace {
      written = s.trace.written ++ descs;
      submitted = s.trace.submitted + n;
    };
  }

  abbrev pub release_rx : List Desc → ℕ → Socket K → Socket K
  release_rx descs n s = record s {
    kernel = x.release_rx s.kernel n;
    trace = record s.trace {
      received = s.trace.received ++ descs;
      released = s.trace.released + n;
    };
  }

-- `struct xdp_md_userspace`
pub record XdpMdUserspace : Type 0 where
  pub data_start : ℕ
  pub data_end : ℕ
  pub buffer_start : ℕ
  pub buffer_end : ℕ

-- `ebpf_module_run_at_handler`: the memory after the program's run and its return value
abbrev pub Handler : Type 0
Handler = XdpMdUserspace → Mem → Mem × ℕ

-- XDP_PASS, XDP_TX and XDP_REDIRECT are 2, 3 and 4; XDP_DROP is 1.
abbrev pub verdict : ℕ → Bool
verdict r = if r == 1 then false else if r == 2 then true else if r == 3 then true else r == 4

unfoldable pub ebpf_process_packet : Handler → ℕ → ℕ → Mem → Mem × Bool
ebpf_process_packet run pkt len m =
    let context : XdpMdUserspace = record {
      data_start = pkt;
      data_end = pkt + len;
      buffer_start = pkt;
      buffer_end = pkt + len;
    } in
    let (m', bpf_ret) = run context m in (m', verdict bpf_ret)
