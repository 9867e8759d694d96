-- ===== src/Runtime/Csum/Diff.antt =====
-- `bpftime_csum_diff_runtime` adds the words of one region and takes away those of another.
use userspace_xdp.Prelude.{
  ℕ, zero, suc, ◌+◌, ◌*◌, ◌/◌, ◌%◌, ◌^◌, ◌≤◌, ◌<◌, ◌≡◌, refl, arith, Mem, IsBytes, get32, get16-lt,
  ◌⊎◌, ltb, ◌==◌, List, [], ◌∷◌, ◌++◌, map, not32, length, length-append, true, false, ◌≢◌,
}
use userspace_xdp.Runtime.Csum.{read_words, words_mem, csum_diff, einval}
use userspace_xdp.Runtime.Csum.ByteSum.{◌≅◌, byte_sum, byte_sum-add, byte_sum_four}
use userspace_xdp.Runtime.Csum.Fold.{csum_partial-eq}

words_sum : List ℕ → ℕ
words_sum [] = 0
words_sum (w ∷ ws) = w % 2 ^ 32 + words_sum ws

words_mem-IsBytes : (ws : List ℕ) → IsBytes (words_mem ws)
unfolding words_mem
words_mem-IsBytes [] i = omega arith
words_mem-IsBytes (w ∷ ws) zero = omega arith
words_mem-IsBytes (w ∷ ws) (suc zero) = omega arith
words_mem-IsBytes (w ∷ ws) (suc (suc zero)) = omega arith
words_mem-IsBytes (w ∷ ws) (suc (suc (suc zero))) = omega arith
words_mem-IsBytes (w ∷ ws) (suc (suc (suc (suc i)))) = words_mem-IsBytes ws i

-- the words behind the first one
words_mem-drop : (w : ℕ) (ws : List ℕ) (i : ℕ) → words_mem (w ∷ ws) (4 + i) ≡ words_mem ws i
unfolding words_mem
words_mem-drop w ws i = let e : 4 + i ≡ suc (suc (suc (suc i))) = omega arith in rw e

byte_sum_shift :
    (w : ℕ) (ws : List ℕ) (a n : ℕ)
    → byte_sum (words_mem (w ∷ ws)) (4 + a) n ≡ byte_sum (words_mem ws) a n
unfolding byte_sum
byte_sum_shift w ws a zero = refl
byte_sum_shift w ws a (suc zero) = words_mem-drop w ws a
byte_sum_shift w ws a (suc (suc n)) =
    let e : 4 + a + 1 ≡ 4 + (a + 1) = omega arith in
    let e' : 4 + a + 2 ≡ 4 + (a + 2) = omega arith in
    rw (e, e', words_mem-drop, words_mem-drop, byte_sum_shift w ws (a + 2) n)

-- The scratch array's checksum is the sum of its words.
byte_sum-words_mem : (ws : List ℕ) → byte_sum (words_mem ws) 0 (4 * length ws) ≅ words_sum ws
unfolding words_sum
byte_sum-words_mem [] = let e : 4 * 0 ≡ 0 = omega arith in rw e (unfold byte_sum in refl)
byte_sum-words_mem (w ∷ ws) =
    let k = length ws in
    let e : 4 * suc k ≡ 2 * 2 + 4 * k = omega arith in
    let split : byte_sum (words_mem (w ∷ ws)) 0 (4 * suc k)
        ≡ byte_sum (words_mem (w ∷ ws)) 0 4 + byte_sum (words_mem (w ∷ ws)) (4 + 0) (4 * k) =
      rw e (byte_sum-add (words_mem (w ∷ ws)) 0 2 (4 * k)) in
    let word : get32 (words_mem (w ∷ ws)) 0 ≡ w % 2 ^ 32 = unfold get32 words_mem in omega arith in
    omega (
      arith,
      split,
      byte_sum_four (words_mem (w ∷ ws)) 0,
      word,
      byte_sum_shift w ws 0 (4 * k),
      byte_sum-words_mem ws,
    )

words_sum-append : (xs ys : List ℕ) → words_sum (xs ++ ys) ≡ words_sum xs + words_sum ys
unfolding words_sum
words_sum-append [] ys = omega arith
words_sum-append (x ∷ xs) ys = omega (arith, words_sum-append xs ys)

module _ (m : Mem) (b : IsBytes m) where
  four : (a n : ℕ) → byte_sum m a (4 * suc n) ≅ get32 m a + byte_sum m (a + 4) (4 * n)
  four a n =
      let e : 4 * suc n ≡ 2 * 2 + 4 * n = omega arith in
      rw e (omega (arith, byte_sum-add m a 2 (4 * n), byte_sum_four m a))

  get32-lt : (a : ℕ) → get32 m a < 2 ^ 32
  unfolding get32
  get32-lt a = omega (arith, get16-lt m a b, get16-lt m (a + 2) b)

  words_sum-read : (a n : ℕ) → words_sum (read_words m a n) ≅ byte_sum m a (4 * n)
  unfolding words_sum read_words
  words_sum-read a zero = let e : 4 * 0 ≡ 0 = omega arith in rw e (unfold byte_sum in refl)
  words_sum-read a (suc n) = omega (arith, words_sum-read (a + 4) n, four a n, get32-lt a)

  words_sum-not : (a n : ℕ) → words_sum (map not32 (read_words m a n)) + byte_sum m a (4 * n) ≅ 0
  unfolding words_sum read_words
  words_sum-not a zero = let e : 4 * 0 ≡ 0 = omega arith in rw e (unfold byte_sum in refl)
  words_sum-not a (suc n) = omega (arith, words_sum-not (a + 4) n, four a n, get32-lt a)

  length-read : (a n : ℕ) → length (read_words m a n) ≡ n
  unfolding read_words
  length-read a zero = refl
  length-read a (suc n) = omega (arith, length-read (a + 4) n)

  length-not : (a n : ℕ) → length (map not32 (read_words m a n)) ≡ n
  unfolding read_words
  length-not a zero = refl
  length-not a (suc n) = omega (arith, length-not (a + 4) n)

  -- For regions of whole words, 512 bytes in all: the result and the first region's sum make up
  -- the second region's sum and the seed, and with a zero seed the result is below 2 ^ 16.
  pub csum_diff-eq :
      (from k to n seed : ℕ)
      → 4 * k + 4 * n ≤ 512
      → seed < 2 ^ 32
      → (csum_diff m from (4 * k) to (4 * n) seed + byte_sum m from (4 * k)
          ≅ byte_sum m to (4 * n) + seed)
        × (csum_diff m from (4 * k) to (4 * n) seed < 2 ^ 32)
        × (seed ≡ 0 → csum_diff m from (4 * k) to (4 * n) seed < 65536)
  unfolding csum_diff
  csum_diff-eq from k to n seed h s =
      let xs = map not32 (read_words m from k) in
      let ys = read_words m to n in
      let len : (4 * k + 4 * n) % 2 ^ 64 ≡ 4 * length (xs ++ ys) =
        omega (arith, length-append xs ys, length-not from k, length-read to n) in
      let e1 : (4 * k % 4 == 0) ≡ true = ground arith in
      let e2 : (4 * n % 4 == 0) ≡ true = ground arith in
      let e3 : ltb 512 (4 * length (xs ++ ys)) ≡ false = ground (arith, len) in
      let e4 : 4 * k / 4 ≡ k = omega arith in
      let e5 : 4 * n / 4 ≡ n = omega arith in
      let e6 : seed % 2 ^ 32 ≡ seed = omega arith in
      let p =
        csum_partial-eq (words_mem (xs ++ ys)) 0 (4 * length (xs ++ ys)) seed
          (words_mem-IsBytes (xs ++ ys)) s in
      rw (len, e1, e2, e3, e4, e5, e6)
        (omega (
          arith,
          p,
          byte_sum-words_mem (xs ++ ys),
          words_sum-append xs ys,
          words_sum-not from k,
          words_sum-read to n,
        ))

-- It refuses regions that are not of whole words, and more than 512 bytes.
pub csum_diff-einval :
    (m : Mem) (from from_size to to_size seed : ℕ)
    → (from_size % 4 ≢ 0) ⊎ (to_size % 4 ≢ 0) ⊎ (512 < (from_size + to_size) % 2 ^ 64)
    → csum_diff m from from_size to to_size seed ≡ einval
unfolding csum_diff
csum_diff-einval m from from_size to to_size seed h = ground arith
