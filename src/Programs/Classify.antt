-- ===== src/Programs/Classify.antt =====
-- xdp_progs/xdp-tcpclassify.bpf.c: report TCP frames to a ring buffer and send them back.
use userspace_xdp.Prelude.{
  ℕ, ◌+◌, ◌-◌, ◌*◌, ◌/◌, ◌%◌, ◌^◌, ltb, ◌==◌, Bool, not, some, none, Option, if◌then◌else◌, swab16,
  Mem,
}
use userspace_xdp.Xdp.{
  Action, tx, pass, M, pure, ◌>>=◌, ◌>>◌, load8, load16, load32, get_maps, put_maps,
}
use userspace_xdp.Xdp.Mac.{swap_src_dst_mac}
use userspace_xdp.Xdp.Helpers.{load_bytes}

-- `struct event`; `bytes` is its field `data`
pub record Event : Type 0 where
  pub sport : ℕ
  pub dport : ℕ
  pub sip : ℕ
  pub dip : ℕ
  pub syn : ℕ
  pub fin : ℕ
  pub rst : ℕ
  pub psh : ℕ
  pub ack : ℕ
  pub http : ℕ
  pub len : ℕ
  pub bytes : Mem

-- one bit of the flags' byte, from the lowest on
unfoldable pub flag : ℕ → ℕ → ℕ
flag flags i = flags / 2 ^ i % 2

-- `n` bytes copied into the field `data`, where the helper copies them
unfoldable pub loaded : Event → ℕ → Option Mem → Event
loaded e n none = e
loaded e n (some b) = record e { bytes = λ i. if ltb i n then b i else e.bytes i }

-- `stack` is what the event's memory holds before the program sets its fields. `is_http bytes` is
-- whether `bpf_strncmp(e.data, 4, "HTTP")` is 0, and `ringbuf_output` the state after the call.
module _ {S : Type 0} (stack : Event) (is_http : Mem → Bool) (ringbuf_output : S → Event → S) where
  unfoldable pub check_http : ℕ → Event → M S Event
  check_http tcp_payload e w =
      (if not (ltb (tcp_payload + 4) w.data_end) then pure e else do
        b ← load_bytes 0 4
        let e' = loaded e 4 b
        pure (record e' { http = if is_http e'.bytes then 1 else 0 }))
        w

  unfoldable pub copy_frame : Event → M S Event
  copy_frame e w =
      (if not (ltb (w.data_start + 60) w.data_end)
          then pure e
          else do b ← load_bytes 0 60; pure (loaded e 60 b))
        w

  unfoldable pub read_event : ℕ → ℕ → ℕ → M S Event
  read_event iph tcph len = do
    sip ← load32 (iph + 12)
    dip ← load32 (iph + 16)
    source ← load16 tcph
    dest ← load16 (tcph + 2)
    flags ← load8 (tcph + 13)
    pure (record stack {
      sport = swab16 source;
      dport = swab16 dest;
      sip = sip;
      dip = dip;
      syn = flag flags 1;
      fin = flag flags 0;
      rst = flag flags 2;
      psh = flag flags 3;
      ack = flag flags 4;
      len = len;
    })

  unfoldable pub report : M S Action
  report w =
      let iph = w.data_start + 14 in
      let tcph = w.data_start + 14 + 20 in
      (do
        e ← read_event iph tcph (w.data_end - w.data_start)
        offset ← load8 (tcph + 12)
        tested ← check_http (tcph + offset / 16 * 4) e
        copied ← copy_frame tested
        maps ← get_maps
        put_maps (ringbuf_output maps copied)
        swap_src_dst_mac w.data_start
        pure tx)
        w

  unfoldable pub xdp_pass : M S Action
  xdp_pass w =
      let start = w.data_start in
      (if ltb w.data_end (start + 14) then pure pass else do
        h_proto ← load16 (start + 12)
        if not (swab16 h_proto == 0x0800)
            then pure pass
            else if ltb w.data_end (start + 14 + 20)
            then pure pass
            else do
              protocol ← load8 (start + 14 + 9)
              if not (protocol == 6)
                  then pure pass
                  else if ltb w.data_end (start + 14 + 20 + 20)
                  then pure pass
                  else report)
        w
