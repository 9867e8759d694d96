-- ===== src/Runtime/Csum/Fold.antt =====
-- `do_csum` and `csum_partial` compute the one's complement sum, at every address and length.
use userspace_xdp.Prelude.{
  ℕ, zero, suc, ◌+◌, ◌-◌, ◌*◌, ◌/◌, ◌%◌, ◌^◌, ◌≤◌, ◌<◌, ◌≡◌, refl, arith, Mem, IsBytes, get16,
  get32, get16-lt, inl, inr, Bool-cases, leb→le, suc-eqb-zero, leb, ◌==◌,
}
use userspace_xdp.Runtime.Csum.{
  add32, from32to16, add_words, Progress, align4, add_long, add_short, add_byte, add_aligned,
  swap_bytes, carry_of, do_csum, csum_partial,
}
use userspace_xdp.Runtime.Csum.ByteSum.{
  ◌≅◌, byte_sum, byte_sum-suc, byte_sum-add, byte_sum_two, byte_sum_four,
}

pub from32to16-eq : (x : ℕ) → x < 2 ^ 32 → (from32to16 x ≅ x) × (from32to16 x < 65536)
unfolding from32to16
from32to16-eq x h = omega arith

get32-lt : (m : Mem) (a : ℕ) → IsBytes m → get32 m a < 2 ^ 32
unfolding get32
get32-lt m a b = omega (arith, get16-lt m a b, get16-lt m (a + 2) b)

-- One round: the wrapped sum and the carry that the next round adds make up the true sum.
carry_step :
    (r w : ℕ)
    → r < 2 ^ 32
    → w < 2 ^ 32
    → (add32 r w + carry_of (add32 r w) w * 2 ^ 32 ≡ r + w)
      × (add32 r w + carry_of (add32 r w) w < 2 ^ 32)
carry_step r w h k = ground arith

add_words-eq :
    (m : Mem) (rounds buff result carry : ℕ)
    → IsBytes m
    → result + carry < 2 ^ 32
    → (add_words m rounds buff result carry ≅ result + carry + byte_sum m buff (4 * rounds))
      × (add_words m rounds buff result carry < 2 ^ 32)
unfolding add_words
add_words-eq m zero buff result carry b h =
    let e : 4 * 0 ≡ 0 = omega arith in rw e (unfold byte_sum in omega arith)
add_words-eq m (suc k) buff result carry b h =
    let w = get32 m buff in
    let r = add32 result carry in
    let step = carry_step r w (omega arith) (get32-lt m buff b) in
    let rest = add_words-eq m k (buff + 4) (add32 r w) (carry_of (add32 r w) w) b step.1 in
    let e : 4 * suc k ≡ 2 * 2 + 4 * k = omega arith in
    let split : byte_sum m buff (4 * suc k) ≡ byte_sum m buff 4 + byte_sum m (buff + 4) (4 * k) =
      rw e (byte_sum-add m buff 2 (4 * k)) in
    omega (arith, rest, split, step, byte_sum_four m buff)

-- `n` bytes at `p.buff` are left to add to make up `total`, and the sum is at most `room`.
record Sums (m : Mem) (total room n : ℕ) (p : Progress) : Type 0 where
  sums : p.result + byte_sum m p.buff n ≅ total
  small : p.result ≤ room

module _ (m : Mem) (bytes : IsBytes m) (total : ℕ) (p : Progress) where
  first_two :
      (n : ℕ) → 2 ≤ n → byte_sum m p.buff n ≡ get16 m p.buff + byte_sum m (p.buff + 2) (n - 2)
  first_two n l =
      let e : 2 * 1 + (n - 2) ≡ n = omega arith in
      let split : byte_sum m p.buff n ≡ byte_sum m p.buff 2 + byte_sum m (p.buff + 2) (n - 2) =
        rw e at (byte_sum-add m p.buff 1 (n - 2)) in
      omega (arith, split, byte_sum_two m p.buff)

  align4-Sums :
      2 ≤ p.len → Sums m total 65535 p.len p → Sums m total 131070 (align4 m p).len (align4 m p)
  unfolding align4
  align4-Sums l s = ground (arith, s.sums, s.small, first_two p.len l, get16-lt m p.buff bytes)

  add_long-Sums : Sums m total 131070 p.len p → Sums m total 131070 (p.len % 4) (add_long m p)
  unfolding add_long
  add_long-Sums s =
      let k = p.len / 4 in
      let e : 2 * (2 * k) + p.len % 4 ≡ p.len = omega arith in
      let e' : 2 * (2 * k) ≡ 4 * k = omega arith in
      let e'' : p.buff + 4 * k ≡ p.buff + k * 4 = omega arith in
      let split : byte_sum m p.buff p.len
          ≡ byte_sum m p.buff (4 * k) + byte_sum m (p.buff + k * 4) (p.len % 4) =
        rw (e, e', e'') at (byte_sum-add m p.buff (2 * k) (p.len % 4)) in
      let loop = add_words-eq m k p.buff p.result 0 bytes (omega (arith, s.small)) in
      elim (Bool-cases (leb 4 p.len)) [
        | inl long ↦
            rw long
              (record { sums = omega (arith, loop, split, s.sums); small = omega (arith, loop) })
        | inr short ↦ let e3 : p.len % 4 ≡ p.len = ground arith in rw (short, e3) s
      ]

  add_short-Sums :
      Sums m total 131070 (p.len % 4) p → Sums m total 196605 (p.len % 2) (add_short m p)
  unfolding add_short
  add_short-Sums s = elim (Bool-cases (p.len / 2 % 2 == 1)) [
    | inl odd ↦
        let e : p.len % 4 - 2 ≡ p.len % 2 = ground arith in
        let l : 2 ≤ p.len % 4 = ground arith in
        let f : byte_sum m p.buff (p.len % 4)
            ≡ get16 m p.buff + byte_sum m (p.buff + 2) (p.len % 2) =
          rw e at (first_two (p.len % 4) l) in
        rw odd (record {
          sums = omega (arith, s.sums, s.small, get16-lt m p.buff bytes, f);
          small = omega (arith, s.small, get16-lt m p.buff bytes);
        })
    | inr even ↦
        let e : p.len % 4 ≡ p.len % 2 = ground arith in
        rw even (record { sums = rw e at s.sums; small = omega (arith, s.small) })
  ]

  add_byte-Sums :
      Sums m total 196605 (p.len % 2) p → (add_byte m p ≅ total) × (add_byte m p ≤ 196860)
  unfolding add_byte byte_sum
  add_byte-Sums s = elim (Bool-cases (p.len % 2 == 1)) [
    | inl odd ↦
        let e : p.len % 2 ≡ 1 = ground arith in
        let sums = rw e at s.sums in rw odd (omega (arith, s.small, bytes p.buff))
    | inr even ↦
        let e : p.len % 2 ≡ 0 = ground arith in
        let sums = rw e at s.sums in rw even (omega (arith, s.small))
  ]

  len-add_long : (add_long m p).len ≡ p.len
  unfolding add_long
  len-add_long = ground arith

  len-add_short : (add_short m p).len ≡ p.len
  unfolding add_short
  len-add_short = ground arith

add_aligned-eq :
    (m : Mem) (total : ℕ) (p : Progress)
    → IsBytes m
    → Sums m total 65535 p.len p
    → (add_aligned m p ≅ total) × (add_aligned m p < 65536)
unfolding add_aligned add_long add_short
add_aligned-eq m total p b s = elim (Bool-cases (leb 2 p.len)) [
  | inl two ↦
      let q = align4 m p in
      let r = add_long m q in
      let l = len-add_long m b total q in
      let l' = len-add_short m b total r in
      let s2 = add_long-Sums m b total q (align4-Sums m b total p (leb→le _ _ two) s) in
      let s3 = add_short-Sums m b total r (rw l s2) in
      let s4 = add_byte-Sums m b total (add_short m r) (rw l' s3) in
      rw two (omega (arith, s4, from32to16-eq (add_byte m (add_short m r))))
  | inr one ↦
      let e : p.len ≡ p.len % 2 = ground arith in
      let s4 =
        add_byte-Sums m b total p
          (record { sums = rw e at s.sums; small = omega (arith, s.small) }) in
      rw one (omega (arith, s4, from32to16-eq (add_byte m p)))
]

swap_bytes-eq : (r : ℕ) → r < 65536 → (swap_bytes r ≅ 256 * r) × (swap_bytes r < 65536)
swap_bytes-eq r h = omega arith

-- At an even and at an odd address the checksum of a region is below 2 ^ 16 and, as a one's
-- complement number, the sum of the region's bytes, those at odd offsets times 256.
pub do_csum-eq :
    (m : Mem) (buff len : ℕ)
    → IsBytes m
    → (do_csum m buff len ≅ byte_sum m buff len) × (do_csum m buff len < 65536)
unfolding do_csum
do_csum-eq m buff zero b = unfold byte_sum in omega arith
do_csum-eq m buff (suc n) b = elim (Bool-cases (buff % 2 == 1)) [
  | inl odd ↦
      let p : Progress = record { result = m buff * 256; buff = buff + 1; len = n } in
      let a =
        add_aligned-eq m (m buff * 256 + byte_sum m (buff + 1) n) p b
          (record { sums = refl; small = omega (arith, b buff) }) in
      let e : suc n - 1 ≡ n = omega arith in
      rw (suc-eqb-zero n, odd, e)
        (omega (arith, a, swap_bytes-eq (add_aligned m p), byte_sum-suc m buff n))
  | inr even ↦
      rw (suc-eqb-zero n, even)
        (add_aligned-eq m (byte_sum m buff (suc n)) _ b
          (record { sums = omega arith; small = omega arith }))
]

-- With a 32-bit seed the result is a 32-bit number and, as a one's complement number, the region's sum
-- and the seed; with a zero seed it is below 2 ^ 16.
pub csum_partial-eq :
    (m : Mem) (buff len wsum : ℕ)
    → IsBytes m
    → wsum < 2 ^ 32
    → (csum_partial m buff len wsum ≅ byte_sum m buff len + wsum)
      × (csum_partial m buff len wsum < 2 ^ 32)
      × (wsum ≡ 0 → csum_partial m buff len wsum < 65536)
unfolding csum_partial
csum_partial-eq m buff len wsum b h = ground (arith, do_csum-eq m buff len b)
