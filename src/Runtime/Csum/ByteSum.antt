-- ===== src/Runtime/Csum/ByteSum.antt =====
-- What a checksum is to be: the sum of a region's bytes, those at odd offsets times 256. Modulo
-- 65535 it is the one's complement sum of the region's 16-bit words (RFC 1071).
use userspace_xdp.Prelude.{ℕ, zero, suc, ◌+◌, ◌*◌, ◌%◌, ◌≡◌, arith, Mem, get16, get32}

-- equality of one's complement numbers
infix 4 ◌≅◌
abbrev pub ◌≅◌ : ℕ → ℕ → Type 0
a ≅ b = a % 65535 ≡ b % 65535

unfoldable pub byte_sum : Mem → ℕ → ℕ → ℕ
byte_sum m a zero = 0
byte_sum m a (suc zero) = m a
byte_sum m a (suc (suc n)) = m a + 256 * m (a + 1) + byte_sum m (a + 2) n

-- Moving a region by one byte multiplies its sum by 256.
pub byte_sum-suc : (m : Mem) (a n : ℕ) → byte_sum m a (suc n) ≅ m a + 256 * byte_sum m (a + 1) n
unfolding byte_sum
byte_sum-suc m a zero = omega arith
byte_sum-suc m a (suc zero) = omega arith
byte_sum-suc m a (suc (suc n)) =
    let e : a + 1 + 2 ≡ a + 2 + 1 = omega arith in
    let e' : a + 1 + 1 ≡ a + 2 = omega arith in rw (e, e') (omega (arith, byte_sum-suc m (a + 2) n))

-- A region of an even length and the region that follows it.
pub byte_sum-add :
    (m : Mem) (a k n : ℕ)
    → byte_sum m a (2 * k + n) ≡ byte_sum m a (2 * k) + byte_sum m (a + 2 * k) n
unfolding byte_sum
byte_sum-add m a zero n =
    let e : 2 * 0 + n ≡ n = omega arith in
    let e' : a + 2 * 0 ≡ a = omega arith in rw (e, e') (omega arith)
byte_sum-add m a (suc k) n =
    let e : 2 * suc k + n ≡ suc (suc (2 * k + n)) = omega arith in
    let e' : 2 * suc k ≡ suc (suc (2 * k)) = omega arith in
    let e'' : a + suc (suc (2 * k)) ≡ a + 2 + 2 * k = omega arith in
    rw (e, e', e'') (omega (arith, byte_sum-add m (a + 2) k n))

pub byte_sum_two : (m : Mem) (a : ℕ) → byte_sum m a 2 ≡ get16 m a
unfolding byte_sum get16
byte_sum_two m a = omega arith

pub byte_sum_four : (m : Mem) (a : ℕ) → byte_sum m a 4 ≅ get32 m a
unfolding byte_sum get32
byte_sum_four m a = let e : a + 2 + 1 ≡ a + 3 = omega arith in rw e (omega arith)
