-- ===== src/Programs/Balancer/Marked.antt =====
-- The memory that the balancer leaves: the addresses, then the hash behind the IPv4 header.
use userspace_xdp.Prelude.{
  ℕ, ◌+◌, ◌-◌, ◌/◌, ◌^◌, ◌≤◌, ◌<◌, ◌≡◌, ◌⊎◌, inl, inr, sym, ap, ◌∙◌, subst, arith, swab16, swab32,
  Mem, get16, get32, put16, put32,
}
use userspace_xdp.Xdp.Helpers.{put_bytes}
use userspace_xdp.Runtime.Csum.ByteSum.{◌≅◌, byte_sum}
use userspace_xdp.Runtime.Csum.Field.{byte_sum_congr}
use userspace_xdp.Programs.Hash.{hash_and_sum}
use userspace_xdp.Programs.Balancer.{IpMacPair}
use userspace_xdp.Programs.Balancer.Rewrite.{addressed, rewritten}

-- the frame with the hash of its first 60 bytes behind its IPv4 header
unfoldable pub marked : Mem → ℕ → Mem
marked m d =
    let r = hash_and_sum m d in put32 (put32 m (d + 14 + 20) r.sum) (d + 14 + 20 + 4) r.xxhash64_res

pub marked_other : (m : Mem) (d i : ℕ) → i < d + 34 → marked m d i ≡ m i
unfolding marked put32 put16
marked_other m d i h = ground (arith, h)

pub marked-verifies :
    (m : Mem) (d : ℕ) → byte_sum m (d + 14) 20 ≅ 0 → byte_sum (marked m d) (d + 14) 20 ≅ 0
marked-verifies m d h =
    let same =
      byte_sum_congr (marked m d) m (d + 14) 20 (λ i l u. marked_other m d i (omega (arith, u))) in
    subst (λ x. x ≅ 0) (sym same) h

swab32-lt : (x : ℕ) → swab32 x < 2 ^ 32
unfolding swab32 swab16
swab32-lt x = omega arith

get32-put16_ne :
    (m : Mem) (a b v : ℕ) → (a + 2 ≤ b) ⊎ (b + 4 ≤ a) → get32 (put16 m a v) b ≡ get32 m b
unfolding get32 get16 put16
get32-put16_ne m a b v h = ground (arith, h)

get32-put32_ne :
    (m : Mem) (a b v : ℕ) → (a + 4 ≤ b) ⊎ (b + 4 ≤ a) → get32 (put32 m a v) b ≡ get32 m b
unfolding put32
get32-put32_ne m a b v h =
    get32-put16_ne (put16 m a v) (a + 2) b (v / 65536) (ground (arith, h))
    ∙ get32-put16_ne m a b v (ground (arith, h))

get32-put32 : (m : Mem) (a v : ℕ) → v < 2 ^ 32 → get32 (put32 m a v) a ≡ v
unfolding get32 get16 put32 put16
get32-put32 m a v h = ground (arith, h)

-- both addresses are those of the targets
pub rewritten_ip :
    (m : Mem) (d : ℕ) (dst src : IpMacPair)
    → (get32 (rewritten m d dst src) (d + 14 + 16) ≡ swab32 dst.ip)
      × (get32 (rewritten m d dst src) (d + 14 + 12) ≡ swab32 src.ip)
unfolding rewritten addressed
rewritten_ip m d dst src =
    let k = put_bytes (put_bytes m d dst.mac 6) (d + 6) src.mac 6 in
    let k1 = put32 k (d + 14 + 16) (swab32 dst.ip) in
    let k2 = put32 k1 (d + 14 + 12) (swab32 src.ip) in
    let low : (d + 14 + 10) + 2 ≤ d + 14 + 12 = omega arith in
    let low' : (d + 14 + 10) + 2 ≤ d + 14 + 16 = omega arith in
    (
      get32-put16_ne (put16 k2 (d + 14 + 10) 0) (d + 14 + 10) (d + 14 + 16) _ (inl low')
          ∙ get32-put16_ne k2 (d + 14 + 10) (d + 14 + 16) 0 (inl low')
          ∙ get32-put32_ne k1 (d + 14 + 12) (d + 14 + 16) (swab32 src.ip) (inl (omega arith))
          ∙ get32-put32 k (d + 14 + 16) (swab32 dst.ip) (swab32-lt dst.ip),
      get32-put16_ne (put16 k2 (d + 14 + 10) 0) (d + 14 + 10) (d + 14 + 12) _ (inl low)
          ∙ get32-put16_ne k2 (d + 14 + 10) (d + 14 + 12) 0 (inl low)
          ∙ get32-put32 k1 (d + 14 + 12) (swab32 src.ip) (swab32-lt src.ip),
    )

pub marked_ip : (m : Mem) (d a : ℕ) → a + 4 ≤ d + 34 → get32 (marked m d) a ≡ get32 m a
unfolding marked
marked_ip m d a h =
    get32-put32_ne _ (d + 14 + 20 + 4) a _ (inr (omega (arith, h)))
    ∙ get32-put32_ne m (d + 14 + 20) a _ (inr (omega (arith, h)))

pub rewritten_mac :
    (m : Mem) (d : ℕ) (dst src : IpMacPair) (i : ℕ)
    → i < 6
    → (rewritten m d dst src (d + i) ≡ dst.mac i) × (rewritten m d dst src (d + 6 + i) ≡ src.mac i)
unfolding rewritten addressed put_bytes put32 put16
rewritten_mac m d dst src i l =
    let e : d + i - d ≡ i = omega arith in
    let e' : d + 6 + i - (d + 6) ≡ i = omega arith in
    (ground (arith, l, ap dst.mac e), ground (arith, l, ap src.mac e'))
