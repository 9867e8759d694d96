-- ===== src/Afxdp/Generate/Frames.antt =====
-- The frames that a packet is copied to.
use userspace_xdp.Prelude.{
  ℕ, zero, suc, ◌+◌, ◌-◌, ◌*◌, ◌/◌, ◌≤◌, ◌<◌, ◌≡◌, refl, sym, ◌∙◌, ap, subst, arith, true, false,
  Bool-cases, inl, inr, if◌then◌else◌, ◌==◌, ltb, ltb→lt, ltb-false→le, Mem, IsBytes, within,
}
use native.Mathlib.Nat.{add-mul, one-mul, zero-add, div-eq-sub-div, div-eq_of_lt}
use userspace_xdp.Afxdp.Transmit.{Sending, packet_len}
use userspace_xdp.Afxdp.Transmit.Split.{sub_swap, le_pred, pred_lt}
use userspace_xdp.Afxdp.Transmit.Rounds.{frags_of}
use userspace_xdp.Afxdp.Generate.{memcpy, gen_eth_frame, gen_frames}

memcpy_in :
    (m : Mem) (dst : ℕ) (other : Mem) (src n j : ℕ)
    → IsBytes other
    → j < n
    → memcpy m dst other src n (dst + j) ≡ other (src + j)
unfolding memcpy
memcpy_in m dst other src n j b h =
    let e : dst + j - dst ≡ j = omega arith in
    let w : within dst n (dst + j) ≡ true = ground (arith, h) in
    rw (w, e) (omega (arith, b (src + j)))

memcpy_below :
    (m : Mem) (dst : ℕ) (other : Mem) (src n i : ℕ) → i < dst → memcpy m dst other src n i ≡ m i
unfolding memcpy
memcpy_below m dst other src n i h = let w : within dst n i ≡ false = ground (arith, h) in rw w refl

-- `left` bytes of the packet are copied to the frames from `i` on, and no cell before them is changed.
pub record Copied (o : Sending) (pkt : Mem) (i left : ℕ) (before : Mem) (st : ℕ × Mem)
    : Type 0 where
  pub finished : st.0 ≡ 0
  pub copied : (j : ℕ) → j < left → st.1 (i * o.frame_size + j) ≡ pkt (packet_len o - left + j)
  pub kept : (a : ℕ) → a < i * o.frame_size → st.1 a ≡ before a

module _ (o : Sending) (get_data : ℕ → ℕ) (pkt : Mem) (bytes : IsBytes pkt)
    (at_offset : (a : ℕ) → get_data a ≡ a) where
  -- one frame, with `left` bytes to copy
  frame_eq :
      (left addr : ℕ) (m : Mem)
      → 0 < left
      → let c = if ltb left o.frame_size then left else o.frame_size in
        gen_eth_frame o get_data pkt addr (left, m)
        ≡ (left - c, memcpy m addr pkt (packet_len o - left) c)
  unfolding gen_eth_frame
  frame_eq left addr m h =
      let nz : (left == 0) ≡ false = ground (arith, h) in rw (nz, at_offset addr) refl

  frames_step :
      (k left i c : ℕ) (m : Mem)
      → 0 < left
      → (if ltb left o.frame_size then left else o.frame_size) ≡ c
      → gen_frames o get_data pkt i (suc k) (left, m)
        ≡ gen_frames o get_data pkt
            (i + 1)
            k
            (left - c, memcpy m (i * o.frame_size) pkt (packet_len o - left) c)
  unfolding gen_frames
  frames_step k left i c m p ce = ap (gen_frames o get_data pkt (i + 1) k) (
      frame_eq left (i * o.frame_size) m p
      ∙ ap (λ c. (left - c, memcpy m (i * o.frame_size) pkt (packet_len o - left) c)) ce)

  gen_frames-Copied :
      (n left i : ℕ) (m : Mem)
      → 0 < left
      → left ≤ packet_len o
      → 0 < o.frame_size
      → (left - 1) / o.frame_size ≡ n
      → Copied o pkt i left m (gen_frames o get_data pkt i (suc n) (left, m))
  unfolding gen_frames
  gen_frames-Copied zero left i m p l q e =
      let f = o.frame_size in
      let le : left ≤ f = elim (Bool-cases (ltb f left)) [
        | inl c ↦ absurd (omega (arith, div-eq-sub-div q (le_pred (ltb→lt f left c)), e))
        | inr c ↦ ltb-false→le f left c
      ] in
      let ce : (if ltb left f then left else f) ≡ left = ground (arith, le) in
      subst (Copied o pkt i left m) (sym (frames_step zero left i left m p ce)) (record {
        finished = omega arith;
        copied = λ j h. memcpy_in m (i * f) pkt (packet_len o - left) left j bytes h;
        kept = λ a h. memcpy_below m (i * f) pkt (packet_len o - left) left a h;
      })
  gen_frames-Copied (suc n) left i m p l q e =
      let f = o.frame_size in
      let gt : f < left = elim (Bool-cases (ltb f left)) [
        | inl c ↦ ltb→lt f left c
        | inr c ↦ absurd (omega (arith, div-eq_of_lt (pred_lt p (ltb-false→le f left c)), e))
      ] in
      let ce : (if ltb left f then left else f) ≡ f = ground (arith, gt) in
      let src = packet_len o - left in
      let m1 = memcpy m (i * f) pkt src f in
      let e1 : (left - f - 1) / f ≡ n =
        omega (arith, div-eq-sub-div q (le_pred gt), e, ap (λ k. k / f) (sub_swap left f)) in
      let rest =
        gen_frames-Copied n (left - f) (i + 1) m1 (omega (arith, gt)) (omega (arith, l)) q e1 in
      let r = gen_frames o get_data pkt (i + 1) (suc n) (left - f, m1) in
      let step : (i + 1) * f ≡ i * f + f = omega (arith, add-mul i 1 f, one-mul f) in
      subst (Copied o pkt i left m) (sym (frames_step (suc n) left i f m p ce)) (record {
        finished = rest.finished;
        copied = λ j h. elim (Bool-cases (ltb j f)) [
          | inl c ↦
              let jf = ltb→lt j f c in
              rest.kept (i * f + j) (omega (arith, step, jf))
              ∙ memcpy_in m (i * f) pkt src f j bytes jf
          | inr c ↦
              let jf = ltb-false→le j f c in
              let to : i * f + j ≡ (i + 1) * f + (j - f) = omega (arith, step, jf) in
              let at_src : packet_len o - (left - f) + (j - f) ≡ src + j =
                omega (arith, l, gt, jf) in
              ap r.1 to ∙ rest.copied (j - f) (omega (arith, h, jf, gt)) ∙ ap pkt at_src
        ];
        kept = λ a h. rest.kept a (omega (arith, step, h)) ∙ memcpy_below m (i * f) pkt src f a h;
      })

  from_start :
      (k i : ℕ) (m : Mem)
      → 0 < packet_len o
      → gen_frames o get_data pkt i (suc k) (0, m)
        ≡ gen_frames o get_data pkt i (suc k) (packet_len o, m)
  unfolding gen_frames gen_eth_frame
  from_start k i m p = let nz : (packet_len o == 0) ≡ false = ground (arith, p) in rw nz refl

  -- With frames of at least a byte that stand in the buffer at their offsets, and a packet that is not
  -- empty: from the static `len` 0 on, the frames of one packet from frame `i` on hold the packet, byte
  -- by byte, one frame behind the other; no cell before frame `i` is changed; and `len` is 0 again.
  pub gen_frames_packet :
      (i : ℕ) (m : Mem)
      → 0 < packet_len o
      → 0 < o.frame_size
      → let st = gen_frames o get_data pkt i (frags_of o) (0, m) in
        (st.0 ≡ 0)
        × ((j : ℕ) → j < packet_len o → st.1 (i * o.frame_size + j) ≡ pkt j)
        × ((a : ℕ) → a < i * o.frame_size → st.1 a ≡ m a)
  gen_frames_packet i m p q =
      let n = (packet_len o - 1) / o.frame_size in
      let r = gen_frames-Copied n (packet_len o) i m p (omega arith) q refl in
      let s : frags_of o ≡ suc n = omega arith in
      let z : packet_len o - packet_len o ≡ 0 = omega arith in
      rw (s, from_start n i m p)
        (r.finished, λ j h. r.copied j h ∙ ap (λ k. pkt (k + j)) z ∙ ap pkt (zero-add j), r.kept)
