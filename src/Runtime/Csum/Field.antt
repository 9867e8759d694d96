-- ===== src/Runtime/Csum/Field.antt =====
-- A checksum field inside the region that it covers.
use userspace_xdp.Prelude.{
  ap, ℕ, zero, suc, ◌+◌, ◌*◌, ◌^◌, ◌≤◌, ◌<◌, ◌≡◌, refl, arith, Mem, IsBytes, get16, put16,
  get16-put16_self, not16,
}
use userspace_xdp.Runtime.Csum.{csum_diff, fold_once}
use userspace_xdp.Runtime.Csum.ByteSum.{◌≅◌, byte_sum, byte_sum-add, byte_sum_two}
use userspace_xdp.Runtime.Csum.Diff.{csum_diff-eq}

pub byte_sum_congr :
    (m m' : Mem) (a n : ℕ)
    → ((i : ℕ) → a ≤ i → i < a + n → m i ≡ m' i)
    → byte_sum m a n ≡ byte_sum m' a n
unfolding byte_sum
byte_sum_congr m m' a zero h = refl
byte_sum_congr m m' a (suc zero) h = h a (omega arith) (omega arith)
byte_sum_congr m m' a (suc (suc n)) h = rw (
  h a (omega arith) (omega arith),
  h (a + 1) (omega arith) (omega arith),
  byte_sum_congr m m' (a + 2) n (λ i l u. h i (omega arith) (omega arith)),
)

put16_other :
    (m : Mem) (a v i : ℕ) → (i < a → put16 m a v i ≡ m i) × (a + 2 ≤ i → put16 m a v i ≡ m i)
unfolding put16
put16_other m a v i = (λ h. ground arith, λ h. ground arith)

-- Writing the word at an even offset of a region changes its sum by that word.
pub byte_sum-put16 :
    (m : Mem) (a j n v : ℕ)
    → v < 65536
    → byte_sum (put16 m (a + 2 * j) v) a (2 * j + (2 + n)) + get16 m (a + 2 * j)
      ≡ byte_sum m a (2 * j + (2 + n)) + v
byte_sum-put16 m a j n v h =
    let f = a + 2 * j in
    let k = put16 m f v in
    let before : byte_sum k a (2 * j) ≡ byte_sum m a (2 * j) =
      byte_sum_congr k m a (2 * j) (λ i l u. (put16_other m f v i).0 u) in
    let after : byte_sum k (f + 2) n ≡ byte_sum m (f + 2) n =
      byte_sum_congr k m (f + 2) n (λ i l u. (put16_other m f v i).1 l) in
    let e : f + 2 * 1 ≡ f + 2 = omega arith in
    let s1 = rw e at (byte_sum-add k f 1 n) in
    let s2 = rw e at (byte_sum-add m f 1 n) in
    omega (
      arith,
      byte_sum-add k a j (2 + n),
      byte_sum-add m a j (2 + n),
      s1,
      s2,
      before,
      after,
      byte_sum_two k f,
      byte_sum_two m f,
      get16-put16_self m f v h,
    )

-- A field that is zero, filled with the complement of the sum, makes the region's sum zero.
pub field_verifies :
    (m : Mem) (a j n x c : ℕ)
    → get16 m (a + 2 * j) ≡ 0
    → x ≅ byte_sum m a (2 * j + (2 + n))
    → c < 65536
    → x + c ≅ 0
    → byte_sum (put16 m (a + 2 * j) c) a (2 * j + (2 + n)) ≅ 0
field_verifies m a j n x c z e l h = omega (arith, byte_sum-put16 m a j n c l)

-- the result of `bpf_csum_diff(0, 0, a, 4 * k, 0)`
pub pushed :
    (m : Mem) (a k : ℕ)
    → IsBytes m
    → k ≤ 128
    → (csum_diff m 0 0 a (4 * k) 0 ≅ byte_sum m a (4 * k)) × (csum_diff m 0 0 a (4 * k) 0 < 65536)
unfolding byte_sum
pushed m a k b h =
    let e : 4 * 0 ≡ 0 = omega arith in
    let p = rw e at (csum_diff-eq m b 0 0 a k 0 (omega arith) (omega arith)) in
    (omega (arith, p.0), p.2 refl)

-- Two folds reduce any 32-bit sum to 16 bits, and the complement adds up to zero with it.
pub fold_twice :
    (x : ℕ)
    → x < 2 ^ 32
    → (x + not16 (fold_once (fold_once x)) ≅ 0) × (fold_once (fold_once x) < 65536)
fold_twice x h = omega arith

-- One fold does so only if it does not carry out of 16 bits.
pub fold_once_lem : (x : ℕ) → fold_once x < 65536 → x + not16 (fold_once x) ≅ 0
fold_once_lem x h = omega arith

-- The checksum that a program computes over a region whose checksum field is zero, with
-- `bpf_csum_diff` and two folds, makes the region's sum zero once it stands in the field.
pub sealed :
    (m : Mem) (a j n k : ℕ)
    → IsBytes m
    → 4 * k ≡ 2 * j + (2 + n)
    → k ≤ 128
    → get16 m (a + 2 * j) ≡ 0
    → byte_sum
        (put16 m (a + 2 * j) (not16 (fold_once (fold_once (csum_diff m 0 0 a (4 * k) 0)))))
        a
        (4 * k)
      ≅ 0
sealed m a j n k b e h z =
    let p = pushed m a k b h in
    let x = csum_diff m 0 0 a (4 * k) 0 in
    let f = fold_twice x (omega (arith, p.1)) in
    let c = not16 (fold_once (fold_once x)) in
    let s : byte_sum m a (4 * k) ≡ byte_sum m a (2 * j + (2 + n)) = ap (byte_sum m a) e in
    let s' = ap (byte_sum (put16 m (a + 2 * j) c) a) e in
    omega (arith, s', field_verifies m a j n x c z (omega (arith, p.0, s)) (omega arith) f.0)
