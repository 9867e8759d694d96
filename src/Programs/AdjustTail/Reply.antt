-- ===== src/Programs/AdjustTail/Reply.antt =====
-- The answer to a frame that is too big, in memory.
use userspace_xdp.Prelude.{
  ℕ, ◌+◌, ◌-◌, ◌≤◌, ◌<◌, ◌≡◌, ◌⊎◌, inl, inr, sym, ap, ◌∙◌, subst, arith, Mem, IsBytes, get16, get32,
  put8, put16, put32, copy, put8-IsBytes, put16-IsBytes, copy-IsBytes, put32-get32,
}
use userspace_xdp.Runtime.Csum.{csum_diff}
use userspace_xdp.Runtime.Csum.ByteSum.{◌≅◌, byte_sum}
use userspace_xdp.Runtime.Csum.Field.{byte_sum_congr}
use userspace_xdp.Programs.AdjustTail.{csum_fold_helper, headroom}
use userspace_xdp.Programs.AdjustTail.Headers.{
  sealed_once, icmp_unsummed, ip_unsummed, icmp_unsummed-IsBytes, icmp_unsummed-check,
  ip_unsummed-IsBytes, ip_unsummed-check,
}

-- the new Ethernet header at `s`, of the one at `o`
unfoldable pub macs : Mem → ℕ → ℕ → Mem
macs m s o = let k = copy (copy m (s + 6) o 6) s (o + 6) 6 in put16 k (s + 12) (get16 k (o + 12))

-- the ICMP header at `a`, and the IPv4 header at `a` for the one at `o`
unfoldable pub icmp_set : ℕ → Mem → ℕ → Mem
icmp_set p m a =
    let k = icmp_unsummed p m a in put16 k (a + 2) (csum_fold_helper (csum_diff k 0 0 a 92 0))

unfoldable pub ip_set : Mem → ℕ → ℕ → Mem
ip_set m a o =
    let k = ip_unsummed m a o in put16 k (a + 10) (csum_fold_helper (csum_diff k 0 0 a 20 0))

unfoldable pub reply : ℕ → Mem → ℕ → Mem
reply p m s = ip_set (icmp_set p (macs m s (s + headroom)) (s + 34)) (s + 14) (s + 42)

macs-IsBytes : (m : Mem) (s o : ℕ) → IsBytes m → IsBytes (macs m s o)
unfolding macs
macs-IsBytes m s o b = put16-IsBytes _ _ _ (copy-IsBytes _ _ _ _ (copy-IsBytes _ _ _ _ b))

icmp_set-IsBytes : (p : ℕ) (m : Mem) (a : ℕ) → IsBytes m → IsBytes (icmp_set p m a)
unfolding icmp_set
icmp_set-IsBytes p m a b = put16-IsBytes _ _ _ (icmp_unsummed-IsBytes p m a b)

macs_other : (m : Mem) (s o i : ℕ) → s + 14 ≤ i → macs m s o i ≡ m i
unfolding macs copy put16
macs_other m s o i h = ground (arith, h)

icmp_set_other : (p : ℕ) (m : Mem) (a i : ℕ) → (i < a) ⊎ (a + 8 ≤ i) → icmp_set p m a i ≡ m i
unfolding icmp_set icmp_unsummed put16 put8
icmp_set_other p m a i h = ground (arith, h)

ip_set_other : (m : Mem) (a o i : ℕ) → (i < a) ⊎ (a + 20 ≤ i) → ip_set m a o i ≡ m i
unfolding ip_set ip_unsummed put32 put16 put8
ip_set_other m a o i h = ground (arith, h)

icmp_sealed : (p : ℕ) (m : Mem) (a : ℕ) → IsBytes m → byte_sum (icmp_set p m a) a 92 ≅ 0
unfolding icmp_set
icmp_sealed p m a b =
    sealed_once (icmp_unsummed p m a) a 1 88 23 (icmp_unsummed-IsBytes p m a b) (omega arith)
      (omega arith) (icmp_unsummed-check p m a)

daddr_kept :
    (k : Mem) (a v x y i : ℕ)
    → i < 4
    → put16
        (put16
          (put16 (put8 (put8 (put8 (put32 k (a + 12) v) a 0x45) (a + 9) 1) (a + 1) 0) (a + 2) x)
          (a + 10)
          0)
        (a + 10)
        y
        (a + 16 + i)
      ≡ k (a + 16 + i)
unfolding put32 put16 put8
daddr_kept k a v x y i l = ground (arith, l)

put32-get32_at :
    (k : Mem) (a o i : ℕ) → IsBytes k → i < 4 → put32 k a (get32 k o) (a + i) ≡ k (o + i)
put32-get32_at k a o i b l =
    let e : a + i - a ≡ i = omega arith in
    put32-get32 k k a o (a + i) b ∙ ground (arith, l, e, ap (λ (x : ℕ). k (o + x)) e)

-- the destination of the new header is the source of the old one
ip_set_daddr :
    (m : Mem) (a o i : ℕ)
    → IsBytes m
    → a + 20 ≤ o
    → i < 4
    → ip_set m a o (a + 16 + i) ≡ m (o + 12 + i)
unfolding ip_set ip_unsummed
ip_set_daddr m a o i b h l =
    let k = put8 m (a + 8) 64 in
    daddr_kept (put32 k (a + 16) (get32 k (o + 12))) a _ _ _ i l
    ∙ put32-get32_at k (a + 16) (o + 12) i (put8-IsBytes m (a + 8) 64 b) l
    ∙ (unfold put8 in ground (arith, h, l))

-- the new Ethernet header is for the sender of the old one
macs_dest : (m : Mem) (s o i : ℕ) → s + 14 ≤ o → i < 6 → macs m s o (s + i) ≡ m (o + 6 + i)
unfolding macs copy put16
macs_dest m s o i h l =
    let e : o + 6 + (s + i - s) ≡ o + 6 + i = omega arith in ground (arith, h, l, ap m e)

-- The answer in memory: both checksums verify, and it is for the sender of the frame.
pub reply_ip : (p : ℕ) (m : Mem) (s : ℕ) → IsBytes m → byte_sum (reply p m s) (s + 14) 20 ≅ 0
unfolding reply ip_set
reply_ip p m s b =
    let k = icmp_set p (macs m s (s + headroom)) (s + 34) in
    let bk = icmp_set-IsBytes p _ (s + 34) (macs-IsBytes m s (s + headroom) b) in
    sealed_once (ip_unsummed k (s + 14) (s + 42)) (s + 14) 5 8 5
      (ip_unsummed-IsBytes k (s + 14) (s + 42) bk) (omega arith) (omega arith)
      (ip_unsummed-check k (s + 14) (s + 42))

pub reply_icmp : (p : ℕ) (m : Mem) (s : ℕ) → IsBytes m → byte_sum (reply p m s) (s + 34) 92 ≅ 0
unfolding reply
reply_icmp p m s b =
    let k0 = macs m s (s + headroom) in
    let k = icmp_set p k0 (s + 34) in
    let same =
      byte_sum_congr (ip_set k (s + 14) (s + 42)) k (s + 34) 92
        (λ i l u. ip_set_other k (s + 14) (s + 42) i (inr (omega (arith, l)))) in
    subst (λ x. x ≅ 0) (sym same) (icmp_sealed p k0 (s + 34) (macs-IsBytes m s (s + headroom) b))

pub reply_daddr :
    (p : ℕ) (m : Mem) (s i : ℕ) → IsBytes m → i < 4 → reply p m s (s + 30 + i) ≡ m (s + 54 + i)
unfolding reply
reply_daddr p m s i b l =
    let k0 = macs m s (s + headroom) in
    let k = icmp_set p k0 (s + 34) in
    let e : s + 30 + i ≡ s + 14 + 16 + i = omega arith in
    let e' : s + 42 + 12 + i ≡ s + 54 + i = omega arith in
    ap (ip_set k (s + 14) (s + 42)) e
    ∙ ip_set_daddr k (s + 14) (s + 42) i
        (icmp_set-IsBytes p k0 (s + 34) (macs-IsBytes m s (s + headroom) b)) (omega arith) l
    ∙ ap k e'
    ∙ icmp_set_other p k0 (s + 34) (s + 54 + i) (inr (omega arith))
    ∙ macs_other m s (s + headroom) (s + 54 + i) (omega arith)

pub reply_dest : (p : ℕ) (m : Mem) (s i : ℕ) → i < 6 → reply p m s (s + i) ≡ m (s + 34 + i)
unfolding reply
reply_dest p m s i l =
    let k0 = macs m s (s + headroom) in
    let k = icmp_set p k0 (s + 34) in
    let e : s + headroom + 6 + i ≡ s + 34 + i = omega arith in
    ip_set_other k (s + 14) (s + 42) (s + i) (inl (omega (arith, l)))
    ∙ icmp_set_other p k0 (s + 34) (s + i) (inl (omega (arith, l)))
    ∙ macs_dest m s (s + headroom) i (omega arith) l
    ∙ ap m e

pub later : (a i : ℕ) → a + 2 + i ≡ a + (2 + i)
later a i = omega arith

pub get16_same :
    (m m' : Mem) (a b n : ℕ)
    → ((i : ℕ) → i < n → m (a + i) ≡ m' (b + i))
    → 2 ≤ n
    → get16 m a ≡ get16 m' b
unfolding get16
get16_same m m' a b n h l =
    let z : a + 0 ≡ a = omega arith in
    let z' : b + 0 ≡ b = omega arith in
    omega (arith, sym (ap m z) ∙ h 0 (omega (arith, l)) ∙ ap m' z', h 1 (omega (arith, l)))

pub get32_same :
    (m m' : Mem) (a b n : ℕ)
    → ((i : ℕ) → i < n → m (a + i) ≡ m' (b + i))
    → 4 ≤ n
    → get32 m a ≡ get32 m' b
unfolding get32
get32_same m m' a b n h l = omega (
  arith,
  get16_same m m' a b n h (omega (arith, l)),
  get16_same m m' (a + 2) (b + 2) 2
      (λ i k. ap m (later a i) ∙ h (2 + i) (omega (arith, k, l)) ∙ sym (ap m' (later b i)))
      (omega arith),
)

pub reply_dest_end : (p : ℕ) (m : Mem) (s i : ℕ) → i < 2 → reply p m s (s + 4 + i) ≡ m (s + 38 + i)
reply_dest_end p m s i l =
    let e : s + 4 + i ≡ s + (4 + i) = omega arith in
    let e' : s + 34 + (4 + i) ≡ s + 38 + i = omega arith in
    ap (reply p m s) e ∙ reply_dest p m s (4 + i) (omega (arith, l)) ∙ ap m e'
