-- ===== src/Xdp/Helpers.antt =====
-- The helpers that the programs call, as the runtime implements them (module/helpers.c).
use userspace_xdp.Prelude.{
  Mem, IsBytes, ltb, leb, ◌&&◌, ◌^◌, ◌%◌, ◌||◌, Option, ℕ, ◌+◌, ◌-◌, ◌≤◌, ◌≡◌, ◌<◌, refl, arith,
  some, none, if◌then◌else◌,
}
use userspace_xdp.Xdp.{Action, drop, tx, M, World, in_packet, pure, ◌>>◌}
use userspace_xdp.Runtime.Csum.{csum_diff, einval}

-- `n` bytes of `f` at `a`
unfoldable pub put_bytes : Mem → ℕ → Mem → ℕ → Mem
put_bytes m a f n i = if leb a i && ltb i (a + n) then f (i - a) else m i

pub put_bytes-IsBytes :
    (m : Mem) (a : ℕ) (f : Mem) (n : ℕ) → IsBytes m → IsBytes f → IsBytes (put_bytes m a f n)
unfolding put_bytes
put_bytes-IsBytes m a f n b bf i = ground (arith, b i, bf (i - a))

module _ {S : Type 0} where
  -- `bpf_csum_diff(0, 0, a, size, seed)`
  unfoldable pub bpf_csum_diff : ℕ → ℕ → ℕ → M S ℕ
  bpf_csum_diff a size seed w =
      if in_packet w a size then some (csum_diff w.mem 0 0 a size seed, w) else none

  -- `bpf_xdp_adjust_head(xdp, 0 - n)`: `bpftime_xdp_adjust_head_runtime` moves `data` without a
  -- test and returns 0.
  unfoldable pub grow_head : ℕ → M S ℕ
  grow_head n w = some (0, record w { data_start = w.data_start - n })

  -- `bpftime_xdp_adjust_tail_runtime`: `offset` is a `uint64_t`, and addresses wrap at 2^64.
  -- `hard_end` is `xdp_data_hard_end(xdp)`, the end of the buffer, which the runtime is given.
  unfoldable pub adjust_tail : ℕ → ℕ → M S ℕ
  adjust_tail hard_end offset w =
      let new_end = (w.data_end + offset) % 2 ^ 64 in
      if ltb hard_end new_end || ltb new_end (w.data_start + 14)
      then some (einval, w)
      else some
          (0, record w { data_end = new_end; mem = put_bytes w.mem w.data_end (λ _. 0) offset })

  -- `bpftime_xdp_load_bytes_runtime`: the bytes read, or `none` for `-EINVAL`
  unfoldable pub load_bytes : ℕ → ℕ → M S (Option Mem)
  load_bytes offset len w =
      let a = w.data_start + offset in
      if ltb w.data_end (a + len) then some (none, w) else some (some (λ i. w.mem (a + i)), w)

  -- `bpftime_redirect_map_runtime`: `redirect_map_callback`, once it is registered, is given the
  -- map and the key, and the frame goes out.
  unfoldable pub redirect_map : Option (ℕ → ℕ → M S (Unit {0})) → ℕ → ℕ → M S Action
  redirect_map none map key = pure drop
  redirect_map (some callback) map key = do callback map key; pure tx

  -- `__builtin_memcpy(a, mac, 6)` from outside of the packet
  unfoldable pub store_mac : ℕ → Mem → M S (Unit {0})
  store_mac a mac w =
      if in_packet w a 6 then some (tt, record w { mem = put_bytes w.mem a mac 6 }) else none

  pub store_mac-eq :
      (a : ℕ) (mac : Mem) (w : World S)
      → w.data_start ≤ a
      → a + 6 ≤ w.data_end
      → store_mac a mac w ≡ some (tt, record w { mem = put_bytes w.mem a mac 6 })
  unfolding store_mac
  store_mac-eq a mac w l u = ground arith

  pub bpf_csum_diff-eq :
      (a size seed : ℕ) (w : World S)
      → w.data_start ≤ a
      → a + size ≤ w.data_end
      → bpf_csum_diff a size seed w ≡ some (csum_diff w.mem 0 0 a size seed, w)
  unfolding bpf_csum_diff
  bpf_csum_diff-eq a size seed w l u = ground arith

  -- The tail moves exactly if the new end leaves room for an Ethernet header and lies within the
  -- buffer; then the frame's bytes stay, and those it has grown by are 0.
  pub adjust_tail-grows :
      (hard_end offset : ℕ) (w : World S)
      → hard_end < 2 ^ 64
      → w.data_end + offset ≤ hard_end
      → w.data_start + 14 ≤ w.data_end + offset
      → (w' : World S) × (adjust_tail hard_end offset w ≡ some (0, w'))
        × (w'.data_end ≡ w.data_end + offset)
        × ((i : ℕ) → i < w'.data_end → w'.mem i ≡ (if ltb i w.data_end then w.mem i else 0))
  unfolding adjust_tail put_bytes
  adjust_tail-grows hard_end offset w h u l =
      let e : (w.data_end + offset) % 2 ^ 64 ≡ w.data_end + offset = omega arith in
      (
        record w {
          data_end = w.data_end + offset;
          mem = put_bytes w.mem w.data_end (λ _. 0) offset;
        },
        rw e (ground arith),
        refl,
        λ i p. ground arith,
      )

  -- The test for growth is on an unsigned number: where a program takes `n` bytes off the frame, the
  -- tail moves, and all 2^64 - n bytes from the old end on are cleared, past the end of any buffer.
  pub adjust_tail_shrink :
      (hard_end n : ℕ) (w : World S)
      → w.data_end ≤ hard_end
      → hard_end < 2 ^ 64
      → 1 ≤ n
      → w.data_start + 14 + n ≤ w.data_end
      → (w' : World S) × (adjust_tail hard_end (2 ^ 64 - n) w ≡ some (0, w'))
        × (w'.data_end + n ≡ w.data_end)
        × ((i : ℕ) → w.data_end ≤ i → i < w.data_end + (2 ^ 64 - n) → w'.mem i ≡ 0)
  unfolding adjust_tail put_bytes
  adjust_tail_shrink hard_end n w u h p l =
      let e : (w.data_end + (2 ^ 64 - n)) % 2 ^ 64 ≡ w.data_end - n = omega arith in
      (
        record w {
          data_end = w.data_end - n;
          mem = put_bytes w.mem w.data_end (λ _. 0) (2 ^ 64 - n);
        },
        rw e (ground arith),
        omega arith,
        λ i a b. ground arith,
      )
