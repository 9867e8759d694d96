-- ===== src/Tests/Socket.antt =====
-- afxdp/l2fwd/xdpsock.c at a concrete socket. The kernel is a number, how often it still refuses a
-- reservation; its queues have the same entries at every peek.
use userspace_xdp.Prelude.{
  ◌%◌, ◌-◌, ◌==◌, ◌≢◌, Bool-cases, ℕ, zero, suc, ◌+◌, ◌*◌, ◌/◌, ◌^◌, ◌≤◌, ◌<◌, ◌≡◌, refl, arith,
  Bool, true, false, List, [], ◌∷◌, length, leb, if◌then◌else◌, inl, inr, ◌⊎◌, Mem, IsBytes, get32,
  put8, some,
}
use userspace_xdp.Runtime.Csum.ByteSum.{◌≅◌, byte_sum}
use userspace_xdp.Afxdp.{Desc, Xsk, Options, Socket, Run, returns, exits, waits, Handler}
use userspace_xdp.Afxdp.Complete.{complete_tx_l2fwd, wake_tx}
use userspace_xdp.Afxdp.Forward.{l2fwd}
use userspace_xdp.Afxdp.Forward.Order.{Inv}
use userspace_xdp.Afxdp.Forward.Rounds.{start, Round, round, here, next, Reach-Inv}
use userspace_xdp.Afxdp.Forward.Returns.{IsPatient, l2fwd-Ends}
use userspace_xdp.Afxdp.Receive.Sockets.{Poller, drop_round}
use userspace_xdp.Afxdp.Receive.Sockets.Kept.{AllKept, drop_round-returns}
use userspace_xdp.Afxdp.Sums.{pseudo}
use userspace_xdp.Afxdp.Transmit.{Sending, Written, write_packet, write_batch}
use userspace_xdp.Afxdp.Transmit.Split.{Splits, write_packet-Splits}
use userspace_xdp.Afxdp.Transmit.Rounds.{Fills, write_batch-Fills}
use userspace_xdp.Afxdp.Generate.{Headers, gen_eth_hdr_data, gen_frames}
use userspace_xdp.Afxdp.Generate.Verifies.{gen_eth_hdr_data-verifies}
use userspace_xdp.Afxdp.Generate.Frames.{gen_frames_packet}

-- a packet in two frames, and the first frame of another one
abbrev entries : List Desc
entries =
    record { addr = 0; len = 4096; contd = true }
    ∷ record { addr = 4096; len = 100; contd = false }
    ∷ record { addr = 8192; len = 4096; contd = true }
    ∷ []

abbrev reserve : ℕ → ℕ → ℕ × ℕ
reserve zero n = (n, zero)
reserve (suc k) n = (0, k)

abbrev peek_completed : ℕ → List ℕ
peek_completed n = if leb 1 n then 4096 ∷ [] else []

abbrev peek_received : ℕ → List Desc
peek_received n = if leb 3 n then entries else []

completed_few : (k n : ℕ) → length (peek_completed n) ≤ n
completed_few k n = ground arith

received_few : (k n : ℕ) → length (peek_received n) ≤ n
received_few k n = ground arith

abbrev kernel : Xsk ℕ
kernel = record {
  peek_cq = λ k n. (peek_completed n, k);
  peek_rx = λ k n. (peek_received n, k);
  reserve_fq = reserve;
  reserve_tx = reserve;
  submit_fq = λ k l. k;
  submit_tx = λ k l n. k;
  release_cq = λ k n. k;
  release_rx = λ k n. k;
  fq_needs_wakeup = λ k. true;
  tx_needs_wakeup = λ k. true;
  recvfrom = λ k. k;
  sendto = λ k. (false, k);
  benchmark_done = λ k. false;
  extract_addr = λ a. a;
  get_data = λ a. a;
  packet_at = λ a. a;
  length-peek_cq = completed_few;
  length-peek_rx = received_few;
}

abbrev opt : Options
opt = record { batch_size = 64; copy_mode = true; busy_poll = false; need_wakeup = true }

-- two programs that write a byte; one drops the packet, one sends it
abbrev dropping : Handler
dropping c m = (put8 m c.data_start 7, 1)

abbrev sending : Handler
sending c m = (put8 m c.data_start 7, 3)

abbrev blank : Mem
blank i = 0

blank-IsBytes : IsBytes blank
blank-IsBytes i = omega arith

-- the socket after a round, and another one
abbrev after : Run (Socket ℕ) → Socket ℕ
after (returns s) = s
after exits = start 0 blank
after waits = start 0 blank

abbrev once : Socket ℕ
once = after (l2fwd kernel opt dropping 9 (start 2 blank))

abbrev twice : Socket ℕ
twice = after (l2fwd kernel opt dropping 9 once)

once-Round : Round kernel opt dropping (start 2 blank) once
unfolding l2fwd complete_tx_l2fwd wake_tx
once-Round = round 9 refl (omega arith)

twice-Round : Round kernel opt dropping once twice
unfolding l2fwd complete_tx_l2fwd wake_tx
twice-Round = round 9 refl (omega arith)

Reach-Inv_example : Inv 64 twice
Reach-Inv_example =
    Reach-Inv kernel opt dropping 2 blank twice (omega arith)
      (next (next here once-Round) twice-Round)

granted : (k n : ℕ) → let r = reserve k n in ((r.0 ≡ n) × (r.1 ≤ k)) ⊎ ((r.0 < 2 ^ 31) × (r.1 < k))
granted zero n = inl (refl, omega arith)
granted (suc k) n = inr (omega arith, omega arith)

patient : IsPatient kernel (λ k. k)
patient = record {
  fq_granted = λ k n. granted k n;
  tx_granted = λ k n. granted k n;
  peek_cq_keeps = λ k n. omega arith;
  peek_rx_keeps = λ k n. omega arith;
  refill_keeps = λ k l n. omega arith;
  recvfrom_keeps = λ k. omega arith;
  sendto_works = λ k. (refl, omega arith);
}

l2fwd-Ends_example : (t : Socket ℕ) × (l2fwd kernel opt dropping 9 (start 2 blank) ≡ returns t)
l2fwd-Ends_example = l2fwd-Ends kernel opt dropping (λ k. k) patient 9 (start 2 blank) (omega arith)

-- the kernel of two sockets, of which a third of the states grants a reservation
abbrev share : ℕ → ℕ → ℕ × ℕ
share k n = if k % 3 == 0 then (n, k) else (0, k - 1)

abbrev shared : ℕ → Xsk ℕ
shared i = record {
  peek_cq = λ k n. (peek_completed n, k);
  peek_rx = λ k n. (peek_received n, k);
  reserve_fq = share;
  reserve_tx = share;
  submit_fq = λ k l. k + 2;
  submit_tx = λ k l n. k;
  release_cq = λ k n. k - 2;
  release_rx = λ k n. k;
  fq_needs_wakeup = λ k. true;
  tx_needs_wakeup = λ k. true;
  recvfrom = λ k. k;
  sendto = λ k. (false, k);
  benchmark_done = λ k. false;
  extract_addr = λ a. a;
  get_data = λ a. a;
  packet_at = λ a. a;
  length-peek_cq = completed_few;
  length-peek_rx = received_few;
}

shared_grants :
    (k n : ℕ)
    → let r = share k n in ((r.0 ≡ n) × (r.1 % 3 ≤ k % 3)) ⊎ ((r.0 < 2 ^ 31) × (r.1 % 3 < k % 3))
shared_grants k n = elim (Bool-cases (k % 3 == 0)) [
  | inl e ↦ rw e (inl (refl, omega arith))
  | inr e ↦ let nz : k % 3 ≢ 0 = ground (arith, e) in rw e (inr (omega arith, omega (arith, nz)))
]

shared_keeps : (k : ℕ) → (k + 2 - 2) % 3 ≤ k % 3
shared_keeps k = omega arith

shared-IsPatient : (i : ℕ) → IsPatient (shared i) (λ k. k % 3)
shared-IsPatient i = record {
  fq_granted = shared_grants;
  tx_granted = shared_grants;
  peek_cq_keeps = λ k n. omega arith;
  peek_rx_keeps = λ k n. omega arith;
  refill_keeps = λ k l n. shared_keeps k;
  recvfrom_keeps = λ k. omega arith;
  sendto_works = λ k. (refl, omega arith);
}

abbrev poller : Poller ℕ
poller = record {
  opt_poll = true;
  wait = λ k. k + 1;
  is_ready = λ k. true;
  benchmark_done = λ k. false;
}

abbrev sockets : List (Socket ℕ)
sockets = start 0 blank ∷ start 0 blank ∷ []

sockets-AllKept : AllKept shared opt poller 0 sockets
unfolding AllKept
sockets-AllKept =
    (record { released = refl; filled = refl }, (record { released = refl; filled = refl }, tt))

patient_bound : (k : ℕ) → k % 3 < 9
patient_bound k = omega arith

drop_round-returns_example :
    (r : (ℕ × List (Socket ℕ)) × Bool) × (drop_round shared opt poller 9 4 sockets ≡ returns r)
    × AllKept shared opt poller 0 r.0.1
drop_round-returns_example =
    drop_round-returns shared opt poller (λ k. k % 3) shared-IsPatient 9 4 sockets patient_bound
      sockets-AllKept

abbrev large_packets : Sending
large_packets = record {
  pkt_size = 9004;
  frame_size = 4096;
  pkt_count = 10;
  vlan_tag = false;
  tstamp = false;
}

abbrev nothing : Written
nothing = record { frame_nb = 4095; i = 0; npkts = 0; descs = []; mem = blank; sequence = 0 }

write_packet-Splits_example :
    (w : Written) × (write_packet (λ a. a) large_packets 0 9000 9000 nothing ≡ some w)
    × Splits 4096 9000 nothing w
write_packet-Splits_example =
    write_packet-Splits (λ a. a) large_packets 0 9000 9000 nothing (omega arith) (omega arith)
      (omega arith) (omega arith) (omega arith)

write_batch-Fills_example :
    (w : Written) × (write_batch (λ a. a) large_packets 0 7 6 nothing ≡ some w)
    × Fills large_packets 2 6 nothing w
write_batch-Fills_example =
    write_batch-Fills (λ a. a) large_packets 0 2 7 6 nothing (omega arith) refl (omega arith)
      (omega arith) (omega arith) (omega arith) (omega arith)

abbrev headers : Headers
headers = record {
  txdmac = λ i. i;
  txsmac = λ i. 2 * i;
  vlan_id = 1;
  vlan_pri = 0;
  fill_pattern = 0x12345678;
}

abbrev small_packets : Sending
small_packets = record large_packets { pkt_size = 64 }

gen_eth_hdr_data-verifies_example :
    let p = gen_eth_hdr_data headers small_packets blank in
    (byte_sum p 14 20 ≅ 0)
    × (byte_sum p 34 (2 * ((26 + 1) / 2)) + pseudo (get32 p 26) (get32 p 30) 26 17 ≅ 0)
gen_eth_hdr_data-verifies_example =
    gen_eth_hdr_data-verifies headers small_packets blank blank-IsBytes (omega arith) (omega arith)

gen_frames_packet_example :
    let st = gen_frames large_packets (λ a. a) blank 3 3 (0, blank) in
    (st.0 ≡ 0)
    × ((j : ℕ) → j < 9000 → st.1 (3 * 4096 + j) ≡ blank j)
    × ((a : ℕ) → a < 3 * 4096 → st.1 a ≡ blank a)
gen_frames_packet_example =
    gen_frames_packet large_packets (λ a. a) blank blank-IsBytes (λ a. refl) 3 blank (omega arith)
      (omega arith)
