-- ===== src/Programs/Dump.antt =====
-- xdp_progs/xdp-dump/main.bpf.c: copy the start of each frame to a ring buffer.
use userspace_xdp.Prelude.{
  ℕ, ◌+◌, ◌-◌, ◌%◌, ◌^◌, ◌≤◌, ◌<◌, ◌≡◌, refl, ap, fun_ext, false, Bool-cases, inl, inr, arith, ltb,
  Option, none, some, if◌then◌else◌, Mem,
}
use userspace_xdp.Xdp.{Action, pass, World, M, pure, ◌>>=◌, ◌>>◌, get_maps, put_maps}
use userspace_xdp.Xdp.Steps.{bind_step}
use userspace_xdp.Xdp.Helpers.{load_bytes}

-- `struct event`; `bytes` is its field `data`
pub record Event : Type 0 where
  pub len : ℕ
  pub bytes : Mem

-- `n` bytes copied into the field `data` of a zeroed event, where the helper copies them
unfoldable pub event_data : ℕ → Option Mem → Mem
event_data n none = λ i. 0
event_data n (some b) = λ i. if ltb i n then b i else 0

-- `e.len`: the difference of two pointers as an `unsigned int`
unfoldable pub frame_len : {S : Type 0} → World S → ℕ
frame_len w = (w.data_end + 2 ^ 64 - w.data_start) % 2 ^ 32

frame_len-eq :
    {S : Type 0} (w : World S) (len : ℕ)
    → w.data_end ≡ w.data_start + len
    → len < 2 ^ 32
    → frame_len w ≡ len
unfolding frame_len
frame_len-eq w len e l = omega (arith, e, l)

-- `ringbuf_output` is the state after the call.
module _ {S : Type 0} (ringbuf_output : S → Event → S) where
  unfoldable pub emit : ℕ → ℕ → Option Mem → M S Action
  emit len load_size b = do
    maps ← get_maps
    put_maps (ringbuf_output maps (record { len = len; bytes = event_data load_size b }))
    pure pass

  unfoldable pub xdp_pass : M S Action
  xdp_pass w =
      let len = frame_len w in
      let load_size = if ltb 256 len then 256 else len in
      (if ltb load_size 14 then pure pass else (load_bytes 0 load_size >>= emit len load_size)) w

  loads :
      (w : World S) (n : ℕ)
      → w.data_start + n ≤ w.data_end
      → load_bytes 0 n w ≡ some (some (λ i. w.mem (w.data_start + 0 + i)), w)
  unfolding load_bytes
  loads w n h =
      let fits : ltb w.data_end (w.data_start + 0 + n) ≡ false = ground (arith, h) in rw fits refl

  -- A frame of `len` bytes always passes and stays as it is. One with a whole Ethernet header adds one
  -- event to the ring buffer: the frame's length, its first bytes, at most 256, and then zeros.
  dumped :
      (w : World S) (len : ℕ)
      → w.data_end ≡ w.data_start + len
      → len < 2 ^ 32
      → xdp_pass w
        ≡ some (
          pass,
          (if ltb len 14 then w else record w {
            maps = ringbuf_output w.maps (record {
              len = len;
              bytes =
                  λ i. if ltb i len then (if ltb i 256 then w.mem (w.data_start + i) else 0) else 0;
            });
          }),
        )
  unfolding xdp_pass emit get_maps put_maps pure ◌>>=◌ ◌>>◌ event_data
  dumped w len e l =
      let size = if ltb 256 len then 256 else len in
      let small : ltb size 14 ≡ ltb len 14 = ground arith in
      let copied = event_data size (some (λ i. w.mem (w.data_start + 0 + i))) in
      let bytes : Mem =
        λ i. if ltb i len then (if ltb i 256 then w.mem (w.data_start + i) else 0) else 0 in
      let same : copied ≡ bytes = fun_ext λ i. ground arith in
      let added : Mem → World S =
        λ b. record w { maps = ringbuf_output w.maps (record { len = len; bytes = b }) } in
      elim (Bool-cases (ltb len 14)) [
        | inl c ↦ rw (frame_len-eq w len e l, small, c) refl
        | inr c ↦
            rw (frame_len-eq w len e l, small, c)
              (bind_step (load_bytes 0 size) (emit len size) (loads w size (ground (arith, e)))
                (ap (λ b. some (pass, added b)) same))
      ]
