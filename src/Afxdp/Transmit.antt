-- ===== src/Afxdp/Transmit.antt =====
-- afxdp/l2fwd/xdpsock.c: `tx_only`, which sends a generated packet again and again, split over the
-- frames of the buffer, and `get_batch_size`.
pub mod Split
pub mod Rounds
use userspace_xdp.Prelude.{
  ℕ, zero, suc, ◌+◌, ◌-◌, ◌*◌, ◌/◌, ◌%◌, ◌^◌, Bool, true, false, ◌||◌, not, List, [], ◌∷◌, ◌++◌,
  length, Option, none, some, ltb, leb, ◌==◌, if◌then◌else◌, Mem, put32, swab32,
}
use userspace_xdp.Afxdp.{
  Desc, Xsk, Options, Socket, Run, returns, waits, ◌>>=◌, u32, u64, submit_tx,
}
use userspace_xdp.Afxdp.Complete.{complete_tx_only}

abbrev pub num_frames : ℕ
num_frames = 4096

-- `XSK_UMEM__DEFAULT_FRAME_SIZE`
abbrev pub default_frame_size : ℕ
default_frame_size = 4096

-- The options of the generated packets. (`opt_pkt_count` 0 stands for no limit.)
pub record Sending : Type 0 where
  pub pkt_size : ℕ
  pub frame_size : ℕ
  pub pkt_count : ℕ
  pub vlan_tag : Bool
  pub tstamp : Bool

-- (opt_pkt_size - ETH_FCS_SIZE)
abbrev pub packet_len : Sending → ℕ
packet_len o = o.pkt_size - 4

-- frames_per_pkt = (opt_pkt_size - 1) / XSK_UMEM__DEFAULT_FRAME_SIZE + 1
unfoldable pub frames_per_pkt : Sending → ℕ
frames_per_pkt o = (o.pkt_size - 1) / default_frame_size + 1

-- PKTGEN_HDR_OFFSET
abbrev pub pktgen_hdr_offset : Sending → ℕ
pktgen_hdr_offset o = (if o.vlan_tag then 18 else 14) + 20 + 8

-- what the loop of `tx_only` has written so far
pub record Written : Type 0 where
  pub frame_nb : ℕ
  pub i : ℕ
  pub npkts : ℕ
  pub descs : List Desc
  pub mem : Mem
  pub sequence : ℕ

-- the loop goes on with what one packet has left
abbrev pub then_go : {A B : Type 0} → Option A → (A → Option B) → Option B
then_go none f = none
then_go (some a) f = f a

module _ (get_data : ℕ → ℕ) (o : Sending) (tx_ns : ℕ) where
  -- if (opt_tstamp) { ... }: the sequence number and the time
  unfoldable pub stamp : ℕ → Written → Written
  stamp addr w =
      let p = get_data addr + pktgen_hdr_offset o in
      let tv_sec = u32 (tx_ns / 1000000000) in
      let tv_usec = u32 (tx_ns % 1000000000 / 1000) in
      if o.tstamp
      then record w {
        mem =
            put32 (put32 (put32 w.mem (p + 4) (swab32 w.sequence)) (p + 8) (swab32 tv_sec)) (p + 12)
              (swab32 tv_usec);
        sequence = u32 (w.sequence + 1);
      }
      else w

  -- one round of the inner loop, with `len` bytes of the packet left
  unfoldable pub write_frag : ℕ → Written → Written
  unfolding stamp
  write_frag len w =
      let more = ltb o.frame_size len in
      let addr = u32 (w.frame_nb * o.frame_size) in
      let desc : Desc = record {
        addr = addr;
        len = if more then o.frame_size else len;
        contd = more;
      } in
      stamp addr (record w {
        frame_nb = (w.frame_nb + 1) % num_frames;
        i = u32 (w.i + 1);
        npkts = if more then w.npkts else w.npkts + 1;
        descs = w.descs ++ (desc ∷ []);
      })

  -- the inner loop
  unfoldable pub write_packet : ℕ → ℕ → Written → Option Written
  unfolding write_frag
  write_packet zero len w = none
  write_packet (suc fuel) len w =
      let w' = write_frag len w in
      let left = len - (if ltb o.frame_size len then o.frame_size else len) in
      let rest = write_packet fuel left w' in if left == 0 then some w' else rest

  -- the outer loop
  unfoldable pub write_batch : ℕ → ℕ → Written → Option Written
  unfolding write_packet
  write_batch zero n w = none
  write_batch (suc fuel) n w =
      let rest = then_go (write_packet (packet_len o) (packet_len o) w) (write_batch fuel n) in
      if ltb w.i n then rest else some w

-- a socket with its `frame_nb`, and the static `sequence`
pub record Sender (K : Type 0) : Type 0 where
  pub socket : Socket K
  pub frame_nb : ℕ
  pub sequence : ℕ

unfoldable pub get_batch_size : Options → Sending → ℕ → ℕ
unfolding frames_per_pkt
get_batch_size opt o pkt_cnt =
    if o.pkt_count == 0
    then opt.batch_size * frames_per_pkt o
    else if leb (pkt_cnt + opt.batch_size) o.pkt_count
    then opt.batch_size * frames_per_pkt o
    else (o.pkt_count - pkt_cnt) * frames_per_pkt o

module _ {K : Type 0} (x : Xsk K) (opt : Options) where
  -- The reservation of `n` entries; `none` stands for the end of the run in between.
  unfoldable pub reserve_send : ℕ → ℕ → Socket K → Run (Socket K × Bool)
  reserve_send zero n s = waits
  reserve_send (suc fuel) n s =
      let (ret, k) = x.reserve_tx s.kernel n in
      let s' = record s { kernel = k } in
      let again = complete_tx_only x opt n s' >>= λ s1.
      let more = reserve_send fuel n s1 in
      if x.benchmark_done s1.kernel then returns (s1, true) else more in
      if ltb ret n then again else returns (s', false)

module _ {K : Type 0} (x : Xsk K) (opt : Options) (o : Sending) where
  -- the loop's start
  unfoldable pub open_written : Sender K → Written
  open_written t = record {
    frame_nb = t.frame_nb;
    i = 0;
    npkts = 0;
    descs = [];
    mem = t.socket.mem;
    sequence = t.sequence;
  }

  -- the submit and the counters after the loop
  unfoldable pub submit_written : ℕ → Written → Socket K → Socket K
  submit_written n w s = record (submit_tx x w.descs n s) {
    mem = w.mem;
    outstanding_tx = u32 (s.outstanding_tx + n);
    stats = record s.stats {
      tx_npkts = u64 (s.stats.tx_npkts + w.npkts);
      tx_frags = u64 (s.stats.tx_frags + n);
    };
  }

  -- The sender's state and the number of packets that it returns.
  unfoldable pub tx_only : ℕ → ℕ → ℕ → Sender K → Run (Sender K × ℕ)
  unfolding reserve_send write_batch open_written submit_written frames_per_pkt
  tx_only fuel n tx_ns t = do
    (s1, done) ← reserve_send x opt fuel n t.socket
    if done
        then returns (record t { socket = s1 }, 0)
        else elim (write_batch x.get_data o tx_ns (suc n) n
            (open_written (record t { socket = s1 }))) [
              | none ↦ waits
              | some w ↦ complete_tx_only x opt n (submit_written n w s1) >>= λ s2. returns (
                record { socket = s2; frame_nb = w.frame_nb; sequence = w.sequence },
                n / frames_per_pkt o,
              )
            ]

  -- The loop of `tx_only_all` with one socket and neither --poll nor --tx-cycles; `tx_ns` is the time
  -- of each round. Without a packet limit it ends by `benchmark_done` only.
  unfoldable pub send_packets : ℕ → (ℕ → ℕ) → ℕ → Sender K → Run (Sender K × ℕ)
  unfolding get_batch_size tx_only
  send_packets zero tx_ns pkt_cnt t = waits
  send_packets (suc fuel) tx_ns pkt_cnt t =
      let again = tx_only (suc fuel) (get_batch_size opt o pkt_cnt) (tx_ns fuel) t >>= λ r.
      let rest = send_packets fuel tx_ns (pkt_cnt + r.1) r.0 in
      if x.benchmark_done r.0.socket.kernel then returns (r.0, pkt_cnt + r.1) else rest in
      if (o.pkt_count == 0) || ltb pkt_cnt o.pkt_count then again else returns (t, pkt_cnt)

  -- `complete_tx_only_all` with one socket, by the retries left
  unfoldable pub complete_tx_only_all : ℕ → Socket K → Run (Socket K)
  complete_tx_only_all zero s = complete_tx_only x opt opt.batch_size s
  complete_tx_only_all (suc retries) s = complete_tx_only x opt opt.batch_size s >>= λ s1.
      let again = complete_tx_only_all retries s1 in
      if s1.outstanding_tx == 0 then returns s1 else again

  -- `tx_only_all` under the same conditions, with `opt_retries`
  unfoldable pub tx_only_all : ℕ → (ℕ → ℕ) → ℕ → Sender K → Run (Sender K × ℕ)
  unfolding send_packets complete_tx_only_all
  tx_only_all fuel tx_ns retries t = send_packets fuel tx_ns 0 t >>= λ r.
      let finished =
        complete_tx_only_all retries r.0.socket >>= λ s. returns (record r.0 { socket = s }, r.1) in
      if o.pkt_count == 0 then returns r else finished
