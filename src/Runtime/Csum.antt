-- ===== src/Runtime/Csum.antt =====
-- The Internet checksum of module/helpers.c: `from32to16`, `do_csum`, `csum_partial` and the
-- helper `bpftime_csum_diff_runtime`. Sums are of `unsigned int` and wrap at 2 ^ 32.
pub mod ByteSum
pub mod Fold
pub mod Diff
pub mod Field
use userspace_xdp.Prelude.{
  ℕ, zero, suc, ◌+◌, ◌-◌, ◌*◌, ◌/◌, ◌%◌, ◌^◌, Bool, ◌&&◌, not, List, [], ◌∷◌, ◌++◌, map, ltb, leb,
  ◌==◌, if◌then◌else◌, Mem, get16, get32, not32,
}

abbrev pub add32 : ℕ → ℕ → ℕ
add32 a b = (a + b) % 2 ^ 32

-- add the high half of `x` to its low half
abbrev pub fold_once : ℕ → ℕ
fold_once x = x % 65536 + x / 65536

unfoldable pub from32to16 : ℕ → ℕ
from32to16 x = fold_once (fold_once x) % 65536

-- the carry out of a wrapped sum `r` of which `w` is a part
abbrev pub carry_of : ℕ → ℕ → ℕ
carry_of r w = if ltb r w then 1 else 0

-- The `do ... while (buff < end)` loop, by the rounds left, and the `result += carry` after it.
unfoldable pub add_words : Mem → ℕ → ℕ → ℕ → ℕ → ℕ
add_words m zero buff result carry = add32 result carry
add_words m (suc rounds) buff result carry =
    let w = get32 m buff in
    let r = add32 (add32 result carry) w in add_words m rounds (buff + 4) r (carry_of r w)

-- what `do_csum` has read and added so far
pub record Progress : Type 0 where
  pub result : ℕ
  pub buff : ℕ
  pub len : ℕ

-- if (2 & (unsigned long)buff) { ... }
unfoldable pub align4 : Mem → Progress → Progress
align4 m p =
    if p.buff / 2 % 2 == 1
    then record { result = add32 p.result (get16 m p.buff); buff = p.buff + 2; len = p.len - 2 }
    else p

-- if (len >= 4) { ... }
unfoldable pub add_long : Mem → Progress → Progress
add_long m p =
    if leb 4 p.len
    then record p {
      result = fold_once (add_words m (p.len / 4) p.buff p.result 0);
      buff = p.buff + p.len / 4 * 4;
    }
    else p

-- if (len & 2) { ... }
unfoldable pub add_short : Mem → Progress → Progress
add_short m p =
    if p.len / 2 % 2 == 1
    then record p { result = add32 p.result (get16 m p.buff); buff = p.buff + 2 }
    else p

-- if (len & 1) result += *buff
unfoldable pub add_byte : Mem → Progress → ℕ
add_byte m p = if p.len % 2 == 1 then add32 p.result (m p.buff) else p.result

-- if (len >= 2) { ... }, the last byte, and the fold
unfoldable pub add_aligned : Mem → Progress → ℕ
add_aligned m p =
    from32to16 (add_byte m (if leb 2 p.len then add_short m (add_long m (align4 m p)) else p))

-- result = ((result >> 8) & 0xff) | ((result & 0xff) << 8)
abbrev pub swap_bytes : ℕ → ℕ
swap_bytes r = r / 256 % 256 + r % 256 * 256

-- A buffer at an odd address is summed from its second byte on, and the sum's bytes are exchanged.
unfoldable pub do_csum : Mem → ℕ → ℕ → ℕ
do_csum m buff len =
    let odd =
      swap_bytes
        (add_aligned m (record { result = m buff * 256; buff = buff + 1; len = len - 1 })) in
    if len == 0
    then 0
    else if buff % 2 == 1
    then odd
    else add_aligned m (record { result = 0; buff = buff; len = len })

unfoldable pub csum_partial : Mem → ℕ → ℕ → ℕ → ℕ
csum_partial m buff len wsum =
    let result = add32 (do_csum m buff len) wsum in
    if ltb result wsum then add32 result 1 else result

-- `n` words of an array
unfoldable pub read_words : Mem → ℕ → ℕ → List ℕ
read_words m a zero = []
read_words m a (suc n) = get32 m a ∷ read_words m (a + 4) n

-- The scratch array's bytes. It stands at an address that is a multiple of 4, taken to be 0:
-- `do_csum` looks at the address modulo 4 alone.
unfoldable pub words_mem : List ℕ → Mem
words_mem [] i = 0
words_mem (w ∷ ws) zero = w % 256
words_mem (w ∷ ws) (suc zero) = w / 256 % 256
words_mem (w ∷ ws) (suc (suc zero)) = w / 65536 % 256
words_mem (w ∷ ws) (suc (suc (suc zero))) = w / 16777216 % 256
words_mem (w ∷ ws) (suc (suc (suc (suc i)))) = words_mem ws i

-- `-EINVAL` as the helper's `uint64_t`
abbrev pub einval : ℕ
einval = 2 ^ 64 - 22

-- (from_size | to_size) & 3 is zero exactly if both sizes are multiples of 4.
unfoldable pub csum_diff : Mem → ℕ → ℕ → ℕ → ℕ → ℕ → ℕ
csum_diff m from from_size to to_size seed =
    let diff_size = (from_size + to_size) % 2 ^ 64 in
    if not (from_size % 4 == 0 && to_size % 4 == 0)
    then einval
    else if ltb 512 diff_size
    then einval
    else csum_partial
        (words_mem (map not32 (read_words m from (from_size / 4)) ++ read_words m to (to_size / 4)))
        0 diff_size (seed % 2 ^ 32)
