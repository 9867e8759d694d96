-- ===== src/Xdp/Mac.antt =====
-- `swap_src_dst_mac`, as xdp_progs/xdp_tx.bpf.c has it (the other programs have the same text).
use userspace_xdp.Prelude.{
  ℕ, ◌+◌, ◌-◌, ◌≤◌, ◌≡◌, arith, if◌then◌else◌, some, Mem, IsBytes, get16, put16, within,
  put16-get16, get16-put16_ne, fun_ext,
}
use userspace_xdp.Xdp.{M, World, ◌>>=◌, ◌>>◌, load16, store16}

-- the memory after the exchange at `p`
unfoldable pub swap_mem : Mem → ℕ → Mem
swap_mem m p =
    let m1 = put16 m p (get16 m (p + 6)) in
    let m2 = put16 m1 (p + 2) (get16 m1 (p + 8)) in
    let m3 = put16 m2 (p + 4) (get16 m2 (p + 10)) in
    put16 (put16 (put16 m3 (p + 6) (get16 m p)) (p + 8) (get16 m (p + 2))) (p + 10)
      (get16 m (p + 4))

pub swap_mem-eq :
    (m : Mem) (p i : ℕ)
    → IsBytes m
    → swap_mem m p i
      ≡ (if within p 6 i then m (i + 6) else if within (p + 6) 6 i then m (i - 6) else m i)
unfolding swap_mem
swap_mem-eq m p i b =
    let m1 = put16 m p (get16 m (p + 6)) in
    rw
      (
        get16-put16_ne m p (get16 m (p + 6)) (p + 8) (omega arith),
        get16-put16_ne m1 (p + 2) (get16 m (p + 8)) (p + 10) (omega arith),
        get16-put16_ne m p (get16 m (p + 6)) (p + 10) (omega arith),
      )
      (simp (put16-get16, b) (ground arith))

pub swap_mem-IsBytes : (m : Mem) (p : ℕ) → IsBytes m → IsBytes (swap_mem m p)
swap_mem-IsBytes m p b i = ground (arith, swap_mem-eq m p i b, b i, b (i + 6), b (i - 6))

pub swap_mem-swap_mem : (m : Mem) (p : ℕ) → IsBytes m → swap_mem (swap_mem m p) p ≡ m
swap_mem-swap_mem m p b = fun_ext λ i.
    rw
      (
        swap_mem-eq (swap_mem m p) p i (swap_mem-IsBytes m p b),
        swap_mem-eq m p i b,
        swap_mem-eq m p (i + 6) b,
        swap_mem-eq m p (i - 6) b,
      )
      (ground arith)

module _ {S : Type 0} where
  unfoldable pub swap_src_dst_mac : ℕ → M S (Unit {0})
  swap_src_dst_mac p = do
    dst0 ← load16 p
    dst1 ← load16 (p + 2)
    dst2 ← load16 (p + 4)
    p3 ← load16 (p + 6)
    store16 p p3
    p4 ← load16 (p + 8)
    store16 (p + 2) p4
    p5 ← load16 (p + 10)
    store16 (p + 4) p5
    store16 (p + 6) dst0
    store16 (p + 8) dst1
    store16 (p + 10) dst2

  pub swap_src_dst_mac-eq :
      (w : World S)
      → w.data_start + 12 ≤ w.data_end
      → swap_src_dst_mac w.data_start w ≡ some (tt, record w { mem = swap_mem w.mem w.data_start })
  unfolding swap_src_dst_mac load16 store16 swap_mem ◌>>=◌ ◌>>◌
  swap_src_dst_mac-eq w h = ground arith
