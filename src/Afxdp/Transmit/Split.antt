-- ===== src/Afxdp/Transmit/Split.antt =====
-- The loops of `tx_only`: how a packet is split over the frames of the buffer.
use userspace_xdp.Prelude.{
  subst, ℕ, zero, suc, ◌+◌, ◌-◌, ◌*◌, ◌/◌, ◌%◌, ◌^◌, ◌≤◌, ◌<◌, ◌≡◌, refl, ◌∙◌, ap, arith, Bool,
  true, false, ◌&&◌, not, List, [], ◌∷◌, ◌++◌, length, some, ltb, ◌==◌, if◌then◌else◌, Bool-cases,
  inl, inr, ltb→lt, ltb-false→le,
}
use native.Mathlib.Nat.{mul-le-mul_right, suc-mul, div-eq-sub-div, div-eq_of_lt}
use userspace_xdp.Afxdp.{Desc, u32}
use userspace_xdp.Afxdp.Forward.Batches.{append_assoc}
use userspace_xdp.Afxdp.Transmit.{num_frames, Sending, Written, stamp, write_frag, write_packet}

unfoldable pub sum_len : List Desc → ℕ
sum_len [] = 0
sum_len (d ∷ ds) = d.len + sum_len ds

-- a packet's entries: the last one, and no other, is without the flag
unfoldable pub is_packet : List Desc → Bool
is_packet [] = false
is_packet (d ∷ []) = not d.contd
is_packet (d ∷ e ∷ ds) = d.contd && is_packet (e ∷ ds)

-- Each entry begins where a frame of the buffer begins and is no longer than a frame: the first one is in
-- the frame `n`, each further one in the frame after it, and the buffer's first frame follows its last.
abbrev pub InFrames : ℕ → ℕ → List Desc → Type 0
InFrames f n [] = Unit {0}
InFrames f n (d ∷ ds) =
    (n < num_frames) × (d.addr ≡ n * f) × (d.len ≤ f) × InFrames f ((n + 1) % num_frames) ds

-- What a packet of `len` bytes adds to the entries of `w`.
pub record Splits (f len : ℕ) (w w' : Written) : Type 0 where
  pub new : List Desc
  pub added : w'.descs ≡ w.descs ++ new
  pub total : sum_len new ≡ len
  pub frags : length new ≡ (len - 1) / f + 1
  pub packet : is_packet new ≡ true
  pub inside : InFrames f w.frame_nb new
  pub counted : w'.i ≡ u32 (w.i + length new)
  pub one_more : w'.npkts ≡ w.npkts + 1
  pub valid : w'.frame_nb < num_frames

pub sub_swap : (a b : ℕ) → a - b - 1 ≡ a - 1 - b
sub_swap a b = omega arith

pub le_pred : {a b : ℕ} → a < b → a ≤ b - 1
le_pred h = omega arith

pub pred_lt : {a b : ℕ} → 0 < a → a ≤ b → a - 1 < b
pred_lt h l = omega arith

is_packet-cons :
    (d : Desc) (ds : List Desc) → d.contd ≡ true → is_packet ds ≡ true → is_packet (d ∷ ds) ≡ true
unfolding is_packet
is_packet-cons d [] e p = cc
is_packet-cons d (x ∷ ds) e p = rw (e, p) refl

module _ (get_data : ℕ → ℕ) (o : Sending) (tx_ns : ℕ) where
  stamp_keeps :
      (addr : ℕ) (w : Written)
      → let w' = stamp get_data o tx_ns addr w in
        (w'.frame_nb ≡ w.frame_nb) × (w'.i ≡ w.i) × (w'.npkts ≡ w.npkts) × (w'.descs ≡ w.descs)
  unfolding stamp
  stamp_keeps addr w = elim (Bool-cases o.tstamp) [
    | inl e ↦ rw e (refl, refl, refl, refl)
    | inr e ↦ rw e (refl, refl, refl, refl)
  ]

  -- the entry that a round writes, and its place
  write_frag-eq :
      (len : ℕ) (w : Written)
      → w.frame_nb < num_frames
      → num_frames * o.frame_size ≤ 2 ^ 32
      → 0 < o.frame_size
      → let w' = write_frag get_data o tx_ns len w in
        let more = ltb o.frame_size len in
        (w'.frame_nb ≡ (w.frame_nb + 1) % num_frames)
        × (w'.i ≡ u32 (w.i + 1))
        × (w'.npkts ≡ (if more then w.npkts else w.npkts + 1))
        × ((d : Desc) × (w'.descs ≡ w.descs ++ (d ∷ []))
            × (d.len ≡ (if more then o.frame_size else len))
            × (d.contd ≡ more)
            × (d.addr ≡ w.frame_nb * o.frame_size))
  unfolding write_frag
  write_frag-eq len w v fits pos =
      let s = stamp_keeps (u32 (w.frame_nb * o.frame_size)) _ in
      let l = rw suc-mul at (mul-le-mul_right o.frame_size v) in
      let place : u32 (w.frame_nb * o.frame_size) ≡ w.frame_nb * o.frame_size =
        omega (arith, l, fits, pos) in
      (s.0, s.1, s.2, (_, s.3, refl, refl, place))

  packet_more :
      (fuel len : ℕ) (w : Written)
      → ltb o.frame_size len ≡ true
      → write_packet get_data o tx_ns (suc fuel) len w
        ≡ write_packet get_data o tx_ns fuel
            (len - o.frame_size)
            (write_frag get_data o tx_ns len w)
  unfolding write_packet
  packet_more fuel len w e =
      let gt = ltb→lt o.frame_size len e in
      let nz : (len - o.frame_size == 0) ≡ false = ground (arith, gt) in rw (e, nz) refl

  packet_last :
      (fuel len : ℕ) (w : Written)
      → ltb o.frame_size len ≡ false
      → write_packet get_data o tx_ns (suc fuel) len w ≡ some (write_frag get_data o tx_ns len w)
  unfolding write_packet
  packet_last fuel len w e = let z : (len - len == 0) ≡ true = ground arith in rw (e, z) refl

  -- A packet of `len` bytes, 0 < len, is written within `len` rounds, for frames of at least a byte in
  -- a buffer below 2 ^ 32 bytes and from a frame of the buffer on: as entries whose lengths add up to
  -- `len`, each at the beginning of a frame of the buffer and within that frame, in consecutive
  -- frames from `frame_nb` on, the last of them and no other without
  -- XDP_PKT_CONTD; `i` counts the entries and `tx_npkts` one packet.
  pub write_packet-Splits :
      (fuel len : ℕ) (w : Written)
      → 0 < len
      → len ≤ fuel
      → 0 < o.frame_size
      → num_frames * o.frame_size ≤ 2 ^ 32
      → w.frame_nb < num_frames
      → (w' : Written) × (write_packet get_data o tx_ns fuel len w ≡ some w')
        × Splits o.frame_size len w w'
  unfolding sum_len is_packet
  write_packet-Splits zero len w p l q b v = absurd (omega (arith, p, l))
  write_packet-Splits (suc fuel) len w p l q b v =
      let f = o.frame_size in
      let w1 = write_frag get_data o tx_ns len w in
      let s = write_frag-eq len w v b q in
      let rest = write_packet-Splits fuel (len - f) w1 in
      elim (Bool-cases (ltb f len)) [
        | inl e ↦
            let gt : f < len = ltb→lt f len e in
            let (w2, r1, r2) =
              rest (omega (arith, gt)) (omega (arith, gt, l, q)) q b (rw s.0 (omega arith)) in
            let (d, e1, e2, e3, e4) = s.3 in
            let e2' = rw e at e2 in
            let e3' = rw e at e3 in
            let e5 = rw e at s.2 in
            (
              w2,
              packet_more fuel len w e ∙ r1,
              record {
                new = d ∷ r2.new;
                added = r2.added ∙ ap (λ l. l ++ r2.new) e1 ∙ append_assoc w.descs (d ∷ []) r2.new;
                total = omega (arith, r2.total, e2', gt);
                frags = omega (
                  arith,
                  r2.frags,
                  div-eq-sub-div q (le_pred gt),
                  ap (λ n. n / f) (sub_swap len f),
                );
                packet = is_packet-cons d r2.new e3' r2.packet;
                inside =
                    (v, e4, omega (arith, e2'), subst (λ n. InFrames f n r2.new) s.0 r2.inside);
                counted = omega (arith, r2.counted, s.1);
                one_more = omega (arith, r2.one_more, e5);
                valid = r2.valid;
              },
            )
        | inr e ↦
            let le : len ≤ f = ltb-false→le f len e in
            let (d, e1, e2, e3, e4) = s.3 in
            let e2' = rw e at e2 in
            let e3' = rw e at e3 in
            let e5 = rw e at s.2 in
            (
              w1,
              packet_last fuel len w e,
              record {
                new = d ∷ [];
                added = e1;
                total = omega (arith, e2');
                frags = omega (arith, div-eq_of_lt (pred_lt p le));
                packet = rw e3' refl;
                inside = (v, e4, omega (arith, e2', le), tt);
                counted = s.1;
                one_more = e5;
                valid = rw s.0 (omega arith);
              },
            )
      ]
