-- ===== src/Programs/Observer.antt =====
-- xdp_progs/xdp-observer/main.bpf.c: report TCP frames to a ring buffer and send them back.
use userspace_xdp.Prelude.{
  ℕ, ◌+◌, ◌≡◌, ◌≤◌, IsBytes, arith, ltb, ◌==◌, Bool, ◌&&◌, not, some, if◌then◌else◌, swab16, get16,
  get32, Mem, leb,
}
use userspace_xdp.Xdp.{
  Action, tx, pass, World, M, pure, ◌>>=◌, ◌>>◌, load8, load16, load32, get_maps, put_maps,
}
use userspace_xdp.Xdp.Mac.{swap_mem, swap_src_dst_mac, swap_src_dst_mac-eq}
use userspace_xdp.Programs.Classify.{flag}

-- `struct event`
pub record Event : Type 0 where
  pub sport : ℕ
  pub dport : ℕ
  pub sip : ℕ
  pub dip : ℕ
  pub syn : ℕ
  pub fin : ℕ
  pub rst : ℕ
  pub psh : ℕ
  pub ack : ℕ

-- a whole Ethernet, IPv4 and TCP header, the types read as the program reads them
unfoldable pub is_tcp : {S : Type 0} → World S → Bool
is_tcp w =
    leb (w.data_start + 54) w.data_end
    && (get16 w.mem (w.data_start + 12) == 8)
    && (w.mem (w.data_start + 23) == 6)

-- the event of the frame at `start`
unfoldable pub event_of : Mem → ℕ → Event
event_of m start =
    let flags = m (start + 47) in
    record {
      sport = swab16 (get16 m (start + 34));
      dport = swab16 (get16 m (start + 36));
      sip = get32 m (start + 26);
      dip = get32 m (start + 30);
      syn = flag flags 1;
      fin = flag flags 0;
      rst = flag flags 2;
      psh = flag flags 3;
      ack = flag flags 4;
    }

-- `ringbuf_output` is the state after the call.
module _ {S : Type 0} (ringbuf_output : S → Event → S) where
  unfoldable pub read_event : ℕ → ℕ → M S Event
  read_event iph tcph = do
    sip ← load32 (iph + 12)
    dip ← load32 (iph + 16)
    source ← load16 tcph
    dest ← load16 (tcph + 2)
    flags ← load8 (tcph + 13)
    pure (record {
      sport = swab16 source;
      dport = swab16 dest;
      sip = sip;
      dip = dip;
      syn = flag flags 1;
      fin = flag flags 0;
      rst = flag flags 2;
      psh = flag flags 3;
      ack = flag flags 4;
    })

  unfoldable pub report : M S Action
  report w =
      (do
        e ← read_event (w.data_start + 14) (w.data_start + 14 + 20)
        maps ← get_maps
        put_maps (ringbuf_output maps e)
        swap_src_dst_mac w.data_start
        pure tx)
        w

  unfoldable pub xdp_pass : M S Action
  xdp_pass w =
      let start = w.data_start in
      (if ltb w.data_end (start + 14) then pure pass else do
        h_proto ← load16 (start + 12)
        if not (swab16 h_proto == 0x0800)
            then pure pass
            else if ltb w.data_end (start + 14 + 20)
            then pure pass
            else do
              protocol ← load8 (start + 14 + 9)
              if not (protocol == 6)
                  then pure pass
                  else if ltb w.data_end (start + 14 + 20 + 20)
                  then pure pass
                  else report)
        w

  report-eq :
      (w : World S)
      → w.data_start + 54 ≤ w.data_end
      → report w
        ≡ some (
          tx,
          record w {
            mem = swap_mem w.mem w.data_start;
            maps = ringbuf_output w.maps (event_of w.mem w.data_start);
          },
        )
  unfolding report read_event event_of load8 load16 load32 get_maps put_maps pure ◌>>=◌ ◌>>◌
  report-eq w h =
      let w' = record w { maps = ringbuf_output w.maps (event_of w.mem w.data_start) } in
      ground (arith, h, swap_src_dst_mac-eq w')

  ipv4-eq : (m : Mem) (a : ℕ) → IsBytes m → (swab16 (get16 m a) == 0x0800) ≡ (get16 m a == 8)
  unfolding swab16 get16
  ipv4-eq m a b = ground (arith, b a, b (a + 1))

  -- The program never faults. A frame with whole Ethernet, IPv4 and TCP headers is reported once, with
  -- its addresses, ports and flags, and goes back with its MAC addresses exchanged; every other frame
  -- passes as it is, without a report.
  pub observed :
      (w : World S)
      → IsBytes w.mem
      → xdp_pass w ≡ (
          if is_tcp w
          then some (
            tx,
            record w {
              mem = swap_mem w.mem w.data_start;
              maps = ringbuf_output w.maps (event_of w.mem w.data_start);
            },
          )
          else some (pass, w))
  unfolding xdp_pass is_tcp load8 load16 pure ◌>>=◌
  observed w b = ground (arith, report-eq w, ipv4-eq w.mem (w.data_start + 12) b)
