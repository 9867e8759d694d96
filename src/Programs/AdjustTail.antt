-- ===== src/Programs/AdjustTail.antt =====
-- xdp_progs/xdp_adjust_tail.bpf.c: answer a frame that is too big with an ICMP error.
pub mod Headers
pub mod Reply
pub mod Answers
use userspace_xdp.Prelude.{
  not16, ℕ, ◌+◌, ◌-◌, ◌*◌, ◌%◌, ◌^◌, ◌≤◌, ◌<◌, ◌≡◌, arith, ltb, leb, ◌==◌, Bool, true, false, not,
  some, if◌then◌else◌, swab16, Mem, IsBytes,
}
use userspace_xdp.Xdp.{
  Action, tx, pass, drop, M, World, pure, ◌>>=◌, ◌>>◌, load16, load32, store8, store16, store32,
  move,
}
use userspace_xdp.Xdp.Maps.{BpfMap, count}
use userspace_xdp.Xdp.Helpers.{bpf_csum_diff, grow_head, adjust_tail}
use userspace_xdp.Runtime.Csum.{fold_once}

-- MAX_PCKT_SIZE, what the variable `max_pcktsz` is before xdp_adjust_tail.c stores another size in it
abbrev pub max_pckt_size : ℕ
max_pckt_size = 128

abbrev pub icmp_toobig_size : ℕ
icmp_toobig_size = 98

abbrev pub headroom : ℕ
headroom = 28

unfoldable pub max : ℕ → ℕ → ℕ
max x y = if ltb y x then x else y

-- `~((csum & 0xffff) + (csum >> 16))`, as a `__u16`
unfoldable pub csum_fold_helper : ℕ → ℕ
csum_fold_helper csum = not16 (fold_once csum % 65536)

module _ {S : Type 0} where
  -- with the sum 0 to begin with, as both calls have it
  unfoldable pub ipv4_csum : ℕ → ℕ → M S ℕ
  ipv4_csum data_start data_size = do
    csum ← bpf_csum_diff data_start data_size 0
    pure (csum_fold_helper csum)

  unfoldable pub swap_mac : ℕ → ℕ → M S (Unit {0})
  swap_mac start orig_eth = do
    move (start + 6) orig_eth 6
    move start (orig_eth + 6) 6
    h_proto ← load16 (orig_eth + 12)
    store16 (start + 12) h_proto

  -- `icmp_hdr`, up to and with its checksum
  unfoldable pub set_icmphdr : ℕ → ℕ → M S (Unit {0})
  set_icmphdr max_pcktsz icmp_hdr = do
    store8 icmp_hdr 3
    store8 (icmp_hdr + 1) 4
    store16 (icmp_hdr + 6) (swab16 ((max_pcktsz + 2 ^ 32 - 14) % 2 ^ 32))
    store16 (icmp_hdr + 2) 0
    csum ← ipv4_csum icmp_hdr 92
    store16 (icmp_hdr + 2) csum

  unfoldable pub set_iphdr : ℕ → ℕ → M S (Unit {0})
  set_iphdr iph orig_iph = do
    store8 (iph + 8) 64
    saddr ← load32 (orig_iph + 12)
    store32 (iph + 16) saddr
    daddr ← load32 (orig_iph + 16)
    store32 (iph + 12) daddr
    store8 iph 0x45
    store8 (iph + 9) 1
    store8 (iph + 1) 0
    store16 (iph + 2) (swab16 (icmp_toobig_size + headroom - 14))
    store16 (iph + 10) 0
    csum ← ipv4_csum iph 20
    store16 (iph + 10) csum

-- `max_pcktsz` is the variable of that name, which a run of the program does not change.
module _ {S : Type 0} (icmpcnt : BpfMap S ℕ ℕ) (max_pcktsz : ℕ) where
  -- after the head has grown
  unfoldable pub fill_icmp4_too_big : M S Action
  fill_icmp4_too_big w =
      let start = w.data_start in
      (if ltb w.data_end (start + (icmp_toobig_size + headroom)) then pure drop else do
        swap_mac start (start + headroom)
        set_icmphdr max_pcktsz (start + 34)
        set_iphdr (start + 14) (start + 42)
        count icmpcnt 0
        pure tx)
        w

  unfoldable pub send_icmp4_too_big : M S Action
  send_icmp4_too_big = do
    err ← grow_head headroom
    if not (err == 0) then pure drop else fill_icmp4_too_big

  -- `hard_end` is the end of the frame's buffer
  unfoldable pub handle_ipv4 : ℕ → M S Action
  handle_ipv4 hard_end w =
      (if not (ltb (max max_pcktsz icmp_toobig_size) (w.data_end - w.data_start))
          then pure pass
          else do
            err ← adjust_tail hard_end 0
            if not (err == 0) then pure pass else send_icmp4_too_big)
        w

  unfoldable pub xdp_pass : ℕ → M S Action
  xdp_pass hard_end w =
      (if ltb w.data_end (w.data_start + 14) then pure drop else do
        h_proto ← load16 (w.data_start + 12)
        if h_proto == swab16 0x0800 then handle_ipv4 hard_end else pure pass)
        w
