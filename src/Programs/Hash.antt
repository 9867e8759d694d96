-- ===== src/Programs/Hash.antt =====
-- xdp_progs/xdp_hash_sum.bpf.c: store a byte sum and an xxhash32 of the frame in the frame. The same
-- functions stand in xdp_progs/xdp_lb.bpf.c.
pub mod Stored
use userspace_xdp.Prelude.{
  ℕ, zero, suc, ◌+◌, ◌-◌, ◌*◌, ◌/◌, ◌%◌, ◌^◌, ◌≤◌, ◌<◌, ◌≡◌, arith, ltb, leb, ◌==◌, not, some,
  if◌then◌else◌, swab16, bit_xor, bit_or, Mem, IsBytes, get16, get32, put32, false,
}
use userspace_xdp.Xdp.{Action, tx, pass, M, World, pure, ◌>>=◌, ◌>>◌, load16, store32, region}
use userspace_xdp.Xdp.Mac.{swap_mem, swap_src_dst_mac, swap_src_dst_mac-eq}
use userspace_xdp.Xdp.Steps.{
  bind_step, region_step, then_step, load16_step, store32_step, pure_step,
}

-- from `data[i]` on, with `n` bytes left
unfoldable pub checksum_from : Mem → ℕ → ℕ → ℕ → ℕ
checksum_from m a zero sum = sum
checksum_from m a (suc n) sum = checksum_from m (a + 1) n ((sum + m a) % 2 ^ 32)

unfoldable pub calculate_checksum : Mem → ℕ → ℕ → ℕ
calculate_checksum m a len = checksum_from m a len 0

abbrev pub prime1 : ℕ
prime1 = 0x9E3779B1

abbrev pub prime2 : ℕ
prime2 = 0x85EBCA77

abbrev pub prime3 : ℕ
prime3 = 0xC2B2AE3D

abbrev pub prime4 : ℕ
prime4 = 0x27D4EB2F

abbrev pub prime5 : ℕ
prime5 = 0x165667B1

unfoldable pub rotl : ℕ → ℕ → ℕ
rotl x r = bit_or (x * 2 ^ r % 2 ^ 32) (x / 2 ^ (32 - r))

unfoldable pub round_xxhash : ℕ → ℕ → ℕ
round_xxhash acc input = rotl ((acc + input * prime2) % 2 ^ 32) 13 * prime1 % 2 ^ 32

unfoldable pub avalanche_step : ℕ → ℕ → ℕ → ℕ
avalanche_step h rshift prime = bit_xor h (h / 2 ^ rshift) * prime % 2 ^ 32

unfoldable pub avalanche : ℕ → ℕ
avalanche h = avalanche_step (avalanche_step (avalanche_step h 15 prime2) 13 prime3) 16 1

-- `fetch32(p, v)`; `endian32(p)` is the little-endian word at `p`
unfoldable pub fetch32 : Mem → ℕ → ℕ → ℕ
fetch32 m p v = round_xxhash v (get32 m p)

-- one step of `finalize` on four bytes, and one on a byte
unfoldable pub finalize_word : Mem → ℕ → ℕ → ℕ
finalize_word m p h = rotl ((h + get32 m p * prime3) % 2 ^ 32) 17 * prime4 % 2 ^ 32

unfoldable pub finalize_byte : Mem → ℕ → ℕ → ℕ
finalize_byte m p h = rotl ((h + m p * prime5) % 2 ^ 32) 11 * prime1 % 2 ^ 32

-- the last `len` bytes: words while there are four bytes, then single bytes
unfoldable pub finalize : ℕ → Mem → ℕ → ℕ → ℕ
finalize h m p zero = avalanche h
finalize h m p (suc zero) = finalize (finalize_byte m p h) m (p + 1) zero
finalize h m p (suc (suc zero)) = finalize (finalize_byte m p h) m (p + 1) (suc zero)
finalize h m p (suc (suc (suc zero))) = finalize (finalize_byte m p h) m (p + 1) (suc (suc zero))
finalize h m p (suc (suc (suc (suc len)))) = finalize (finalize_word m p h) m (p + 4) len

-- `stripes` blocks of 16 bytes: the test `len >= 16` holds `len / 16` times
unfoldable pub h16bytes_4 : Mem → ℕ → ℕ → ℕ → ℕ → ℕ → ℕ → ℕ
h16bytes_4 m p zero v1 v2 v3 v4 = (rotl v1 1 + rotl v2 7 + rotl v3 12 + rotl v4 18) % 2 ^ 32
h16bytes_4 m p (suc stripes) v1 v2 v3 v4 =
    h16bytes_4 m (p + 16) stripes (fetch32 m p v1) (fetch32 m (p + 4) v2) (fetch32 m (p + 8) v3)
      (fetch32 m (p + 12) v4)

unfoldable pub h16bytes_3 : Mem → ℕ → ℕ → ℕ → ℕ
h16bytes_3 m p len seed =
    h16bytes_4 m p (len / 16) ((seed + prime1 + prime2) % 2 ^ 32) ((seed + prime2) % 2 ^ 32) seed
      ((seed + 2 ^ 32 - prime1) % 2 ^ 32)

unfoldable pub xxhash32 : Mem → ℕ → ℕ → ℕ → ℕ
xxhash32 m input len seed =
    let acc = if leb 16 len then h16bytes_3 m input len seed else (seed + prime5) % 2 ^ 32 in
    finalize ((acc + len) % 2 ^ 32) m (input + 16 * (len / 16)) (len % 16)

-- `struct hash_and_sum`
pub record HashAndSum : Type 0 where
  pub sum : ℕ
  pub xxhash64_res : ℕ

-- of the first 60 bytes at `start`
unfoldable pub hash_and_sum : Mem → ℕ → HashAndSum
hash_and_sum m start =
    let s = calculate_checksum m start 60 in
    record { sum = s; xxhash64_res = xxhash32 m start 60 s }

module _ {S : Type 0} where
  unfoldable pub store_result : ℕ → HashAndSum → M S (Unit {0})
  store_result a r = do store32 a r.sum; store32 (a + 4) r.xxhash64_res

  unfoldable pub xdp_pass : M S Action
  xdp_pass w =
      let start = w.data_start in
      (if ltb w.data_end (start + 14) then pure pass else do
        h_proto ← load16 (start + 12)
        if not (h_proto == swab16 0x0800)
            then pure pass
            else if ltb w.data_end (start + 14 + 20)
            then pure pass
            else if ltb (start + 1200) w.data_end
            then pure pass
            else if ltb w.data_end (start + 60)
            then pure pass
            else if ltb w.data_end (start + 14 + 20 + 8)
            then pure pass
            else do
              mem ← region start 60
              store_result (start + 14 + 20) (hash_and_sum mem start)
              swap_src_dst_mac start
              pure tx)
        w

-- the sum of `n` bytes, as a number without a bound
unfoldable pub total : Mem → ℕ → ℕ → ℕ
total m a zero = 0
total m a (suc n) = m a + total m (a + 1) n

checksum_from-eq :
    (m : Mem) (a n sum : ℕ)
    → IsBytes m
    → sum + 255 * n < 2 ^ 32
    → checksum_from m a n sum ≡ sum + total m a n
unfolding checksum_from total
checksum_from-eq m a zero sum b h = omega arith
checksum_from-eq m a (suc n) sum b h =
    let e : (sum + m a) % 2 ^ 32 ≡ sum + m a = omega (arith, b a) in
    rw e (omega (arith, checksum_from-eq m (a + 1) n (sum + m a) b (omega (arith, b a))))

-- The checksum of up to 16843009 bytes is their sum: it does not wrap around.
pub calculate_checksum-eq :
    (m : Mem) (a len : ℕ) → IsBytes m → len ≤ 16843009 → calculate_checksum m a len ≡ total m a len
unfolding calculate_checksum
calculate_checksum-eq m a len b h = omega (arith, checksum_from-eq m a len 0 b (omega arith))

module _ {S : Type 0} where
  pub store_result_step :
      (a : ℕ) (r : HashAndSum) (w : World S)
      → w.data_start ≤ a
      → a + 8 ≤ w.data_end
      → store_result a r w
        ≡ some (tt, record w { mem = put32 (put32 w.mem a r.sum) (a + 4) r.xxhash64_res })
  unfolding store_result
  store_result_step a r w l u =
      then_step _ _ (store32_step _ _ _ (omega arith) (omega arith))
        (store32_step _ _ _ (omega arith) (omega arith))

  -- An IPv4 frame of 60 to 1200 bytes is sent back without a fault, with its addresses exchanged,
  -- and with the sum and the hash of its first 60 bytes behind its IPv4 header.
  pub hashed :
      (w : World S)
      → w.data_start + 60 ≤ w.data_end
      → w.data_end ≤ w.data_start + 1200
      → get16 w.mem (w.data_start + 12) ≡ swab16 0x0800
      → xdp_pass w ≡ (
          let r = hash_and_sum w.mem w.data_start in
          let stored =
            put32
              (put32 w.mem (w.data_start + 14 + 20) r.sum)
              (w.data_start + 14 + 20 + 4)
              r.xxhash64_res in
          some (tx, record w { mem = swap_mem stored w.data_start }))
  unfolding xdp_pass
  hashed w l u e =
      let d = w.data_start in
      let t1 : ltb w.data_end (d + 14) ≡ false = ground arith in
      let t2 : ltb w.data_end (d + 14 + 20) ≡ false = ground arith in
      let t3 : ltb (d + 1200) w.data_end ≡ false = ground arith in
      let t4 : ltb w.data_end (d + 60) ≡ false = ground arith in
      let t5 : ltb w.data_end (d + 14 + 20 + 8) ≡ false = ground arith in
      let t6 : not (get16 w.mem (d + 12) == swab16 0x0800) ≡ false = ground arith in
      rw t1 (
        bind_step _ _ (load16_step _ _ (omega arith) (omega arith)) (
          rw (t6, t2, t3, t4, t5)
            (bind_step _ _ (region_step _ _ _ (omega arith) (omega arith)) (
              then_step _ _ (store_result_step _ _ _ (omega arith) (omega arith))
                (then_step _ _ (swap_src_dst_mac-eq _ (omega arith)) (pure_step _ _))))))
