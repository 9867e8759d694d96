-- ===== src/Afxdp/Transmit/Rounds.antt =====
-- A batch of `tx_only`, and how the rounds of `tx_only_all` reach the number of packets to send.
use userspace_xdp.Prelude.{
  ℕ, true, false, zero, suc, ◌+◌, ◌-◌, ◌*◌, ◌/◌, ◌^◌, ◌≤◌, ◌<◌, ◌≡◌, ◌≢◌, refl, ap, arith, length,
  length-append, some, ltb, leb, ◌==◌, if◌then◌else◌, Bool-cases, inl, inr, min,
}
use native.Mathlib.Nat.{suc-mul, zero-mul, mul-div_cancel}
use userspace_xdp.Afxdp.{Options}
use userspace_xdp.Afxdp.Transmit.{
  num_frames, Sending, Written, packet_len, frames_per_pkt, write_batch, get_batch_size,
}
use userspace_xdp.Afxdp.Transmit.Split.{write_packet-Splits}

-- the entries that a packet takes
abbrev pub frags_of : Sending → ℕ
frags_of o = (packet_len o - 1) / o.frame_size + 1

-- What a batch of `k` packets in `n` entries adds to `w`.
pub record Fills (o : Sending) (k n : ℕ) (w w' : Written) : Type 0 where
  pub full : w'.i ≡ n
  pub wrote : length w'.descs ≡ length w.descs + k * frags_of o
  pub sent : w'.npkts ≡ w.npkts + k

module _ (get_data : ℕ → ℕ) (o : Sending) (tx_ns : ℕ) where
  -- The loop of `tx_only` over a batch of `n` entries, `n` the entries of `k` more packets, writes these
  -- `n` and no more, and `k` packets, for packets that are not empty and frames of at least a byte in
  -- a buffer below 2 ^ 32 bytes; it ends within `k + 1` rounds.
  pub write_batch-Fills :
      (k fuel n : ℕ) (w : Written)
      → k < fuel
      → w.i + k * frags_of o ≡ n
      → n < 2 ^ 32
      → 0 < packet_len o
      → 0 < o.frame_size
      → num_frames * o.frame_size ≤ 2 ^ 32
      → w.frame_nb < num_frames
      → (w' : Written) × (write_batch get_data o tx_ns fuel n w ≡ some w') × Fills o k n w w'
  unfolding write_batch
  write_batch-Fills k zero n w l e b p q f v = absurd (omega (arith, l))
  write_batch-Fills zero (suc fuel) n w l e b p q f v =
      let z = zero-mul (frags_of o) in
      let stop : ltb w.i n ≡ false = ground (arith, z, e) in
      (
        w,
        rw stop refl,
        record { full = omega (arith, z, e); wrote = omega (arith, z); sent = omega arith },
      )
  write_batch-Fills (suc k) (suc fuel) n w l e b p q f v =
      let m = suc-mul k (frags_of o) in
      let go : ltb w.i n ≡ true = ground (arith, m, e) in
      let (w1, r1, s) =
        write_packet-Splits get_data o tx_ns (packet_len o) (packet_len o) w p (omega arith) q f
          v in
      let i1 : w1.i + k * frags_of o ≡ n = omega (arith, m, e, s.counted, s.frags, b) in
      let (w2, r2, t) = write_batch-Fills k fuel n w1 (omega (arith, l)) i1 b p q f s.valid in
      (
        w2,
        rw (go, r1) r2,
        record {
          full = t.full;
          wrote =
              omega (arith, t.wrote, ap length s.added, length-append w.descs s.new, s.frags, m);
          sent = omega (arith, t.sent, s.one_more);
        },
      )

-- `pkt_cnt` after `n` rounds of `tx_only_all` with one socket
unfoldable pub pkt_cnt_after : Options → Sending → ℕ → ℕ
unfolding get_batch_size frames_per_pkt
pkt_cnt_after opt o zero = 0
pkt_cnt_after opt o (suc n) =
    let pkt_cnt = pkt_cnt_after opt o n in
    if ltb pkt_cnt o.pkt_count
    then pkt_cnt + get_batch_size opt o pkt_cnt / frames_per_pkt o
    else pkt_cnt

batch_packets : (m : ℕ) (o : Sending) → m * frames_per_pkt o / frames_per_pkt o ≡ m
unfolding frames_per_pkt
batch_packets m o = mul-div_cancel m (omega arith)

-- the packets of a round
round_packets :
    (opt : Options) (o : Sending) (c : ℕ)
    → o.pkt_count ≢ 0
    → get_batch_size opt o c / frames_per_pkt o
      ≡ (if leb (c + opt.batch_size) o.pkt_count then opt.batch_size else o.pkt_count - c)
unfolding get_batch_size
round_packets opt o c h =
    let nz : (o.pkt_count == 0) ≡ false = ground (arith, h) in
    elim (Bool-cases (leb (c + opt.batch_size) o.pkt_count)) [
      | inl e ↦ rw (nz, e) (batch_packets opt.batch_size o)
      | inr e ↦ rw (nz, e) (batch_packets (o.pkt_count - c) o)
    ]

-- With a limit, each round sends a full batch of packets until the limit cuts the last one short:
-- after `n` rounds `pkt_cnt` is `n * opt_batch_size` or the limit, whichever is less.
pub pkt_cnt_after-eq :
    (opt : Options) (o : Sending) (n : ℕ)
    → o.pkt_count ≢ 0
    → pkt_cnt_after opt o n ≡ min (n * opt.batch_size) o.pkt_count
unfolding pkt_cnt_after
pkt_cnt_after-eq opt o zero h = let z = zero-mul opt.batch_size in ground (arith, z)
pkt_cnt_after-eq opt o (suc n) h =
    let m = suc-mul n opt.batch_size in
    let e = pkt_cnt_after-eq opt o n h in
    rw (round_packets opt o (pkt_cnt_after opt o n) h) (ground (arith, m, e))
