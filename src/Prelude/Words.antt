-- ===== src/Prelude/Words.antt =====
-- Byte memories and the little-endian words that C reads from them and writes to them.
-- A memory is a function from addresses to bytes; a word of w bits is a number below 2 ^ w.
use Prim.Native.Nat.{ℕ, ◌+◌, ◌-◌, ◌*◌, ◌/◌, ◌%◌, ◌^◌, ◌<◌}
use mathlib.Core.Bool.{Bool, ◌&&◌}
use mathlib.Core.Path.{◌≡◌}
use mathlib.Core.Logic.{◌⊎◌}
use native.Mathlib.Omega.{arith}
use userspace_xdp.Prelude.Tests.{ltb, leb, ◌==◌, if◌then◌else◌}

abbrev pub Mem : Type 0
Mem = ℕ → ℕ

-- every cell holds a byte
abbrev pub IsBytes : Mem → Type 0
IsBytes m = (i : ℕ) → m i < 256

unfoldable pub get16 : Mem → ℕ → ℕ
get16 m a = m a + 256 * m (a + 1)

unfoldable pub get32 : Mem → ℕ → ℕ
unfolding get16
get32 m a = get16 m a + 65536 * get16 m (a + 2)

unfoldable pub put8 : Mem → ℕ → ℕ → Mem
put8 m a v i = if i == a then v % 256 else m i

unfoldable pub put16 : Mem → ℕ → ℕ → Mem
put16 m a v i = if i == a then v % 256 else if i == a + 1 then v / 256 % 256 else m i

unfoldable pub put32 : Mem → ℕ → ℕ → Mem
unfolding put16
put32 m a v = put16 (put16 m a v) (a + 2) (v / 65536)

-- whether `a` is one of the `n` addresses from `b` on
abbrev pub within : ℕ → ℕ → ℕ → Bool
within b n a = leb b a && ltb a (b + n)

-- `memcpy(dst, src, n)` of regions that do not overlap
unfoldable pub copy : Mem → ℕ → ℕ → ℕ → Mem
copy m dst src n i = if within dst n i then m (src + (i - dst)) else m i

-- `bpf_htons` and `bpf_ntohs` on a little-endian host
unfoldable pub swab16 : ℕ → ℕ
swab16 x = x % 256 * 256 + x / 256 % 256

-- `bpf_htonl`
unfoldable pub swab32 : ℕ → ℕ
swab32 x = swab16 (x % 65536) * 65536 + swab16 (x / 65536 % 65536)

pub swab16-swab16 : (x : ℕ) → x < 65536 → swab16 (swab16 x) ≡ x
unfolding swab16
swab16-swab16 x h = omega arith

pub swab16-lt : (x : ℕ) → swab16 x < 65536
unfolding swab16
swab16-lt x = omega arith

-- `~x` of a 16-bit and of a 32-bit word
abbrev pub not16 : ℕ → ℕ
not16 x = 65535 - x % 65536

abbrev pub not32 : ℕ → ℕ
not32 x = 2 ^ 32 - 1 - x % 2 ^ 32

pub get16-lt : (m : Mem) (a : ℕ) → IsBytes m → get16 m a < 65536
unfolding get16
get16-lt m a b = omega (arith, b a, b (a + 1))

-- A word that was read from `m` is written as the two bytes that it was read from.
pub put16-get16 :
    (k m : Mem) (a b i : ℕ)
    → IsBytes m
    → put16 k a (get16 m b) i ≡ (if within a 2 i then m (b + (i - a)) else k i)
unfolding get16 put16
put16-get16 k m a b i bytes = ground (arith, bytes b, bytes (b + 1))

pub get16-put16_ne :
    (m : Mem) (a v b : ℕ) → (b + 1 < a) ⊎ (a + 1 < b) → get16 (put16 m a v) b ≡ get16 m b
unfolding get16 put16
get16-put16_ne m a v b h = ground arith

pub get16-put16_self : (m : Mem) (a v : ℕ) → v < 65536 → get16 (put16 m a v) a ≡ v
unfolding get16 put16
get16-put16_self m a v h = ground arith

pub put16-IsBytes : (m : Mem) (a v : ℕ) → IsBytes m → IsBytes (put16 m a v)
unfolding put16
put16-IsBytes m a v b i = ground (arith, b i)

pub put8-IsBytes : (m : Mem) (a v : ℕ) → IsBytes m → IsBytes (put8 m a v)
unfolding put8
put8-IsBytes m a v b i = ground (arith, b i)

pub copy-IsBytes : (m : Mem) (dst src n : ℕ) → IsBytes m → IsBytes (copy m dst src n)
unfolding copy
copy-IsBytes m dst src n b i = ground (arith, b i, b (src + (i - dst)))

pub put32-IsBytes : (m : Mem) (a v : ℕ) → IsBytes m → IsBytes (put32 m a v)
unfolding put32
put32-IsBytes m a v b = put16-IsBytes _ _ _ (put16-IsBytes _ _ _ b)

-- The same of 32-bit words.
pub put32-get32 :
    (k m : Mem) (a b i : ℕ)
    → IsBytes m
    → put32 k a (get32 m b) i ≡ (if within a 4 i then m (b + (i - a)) else k i)
unfolding get32 get16 put32 put16
put32-get32 k m a b i bytes =
    ground (arith, bytes b, bytes (b + 1), bytes (b + 2), bytes (b + 2 + 1))
