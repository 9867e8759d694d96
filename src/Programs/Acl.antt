-- ===== src/Programs/Acl.antt =====
-- xdp_progs/xdp-acl/standard_acl.bpf.c: forward frames whose source address the rules permit.
pub mod Loader
pub mod Loaded
use userspace_xdp.Prelude.{
  ℕ, zero, suc, ◌+◌, ◌<◌, ◌≡◌, ◌≢◌, ◌↔◌, refl, arith, ltb, ◌==◌, ◌&&◌, Bool, true, false, not, some,
  none, Option, if◌then◌else◌, swab16, Mem,
}
use userspace_xdp.Xdp.{Action, tx, pass, drop, M, pure, ◌>>=◌, ◌>>◌, load16, load32, region}
use userspace_xdp.Xdp.Helpers.{store_mac}

-- the addresses `90:e2:ba:f7:x:y`
unfoldable pub mac : ℕ → ℕ → Mem
mac x y zero = 0x90
mac x y (suc zero) = 0xe2
mac x y (suc (suc zero)) = 0xba
mac x y (suc (suc (suc zero))) = 0xf7
mac x y (suc (suc (suc (suc zero)))) = x
mac x y (suc (suc (suc (suc (suc n))))) = y

unfoldable pub my_mac : Mem
my_mac = mac 0x32 0x69

unfoldable pub source_mac : Mem
source_mac = mac 0x30 0x1d

unfoldable pub target_mac : Mem
target_mac = mac 0x31 0xcd

-- the results of `_strcmp`: -1, 0 and 1
pub data Order : Type 0 where
  less same more : Order

-- `n` bytes are left; equal bytes end the loop where they are 0
unfoldable pub strcmp : Mem → ℕ → Mem → ℕ → ℕ → Order
strcmp b1 i b2 j zero = same
strcmp b1 i b2 j (suc n) =
    let rest = strcmp b1 (i + 1) b2 (j + 1) n in
    if not (b1 i == b2 j)
    then (if ltb (b1 i) (b2 j) then less else more)
    else if b1 i == 0
    then same
    else rest

unfoldable pub is_same : Order → Bool
is_same less = false
is_same same = true
is_same more = false

-- `struct ipv4_lpm_key` and `struct ipv6_lpm_key`, whose address is 16 bytes
pub record Ipv4LpmKey : Type 0 where
  pub prefixlen : ℕ
  pub address : ℕ

pub record Ipv6LpmKey : Type 0 where
  pub prefixlen : ℕ
  pub low : ℕ × ℕ
  pub high : ℕ × ℕ

module _ {S : Type 0} where
  -- `bpf_map_lookup_elem`, and the value behind the pointer that it returns
  unfoldable pub find : {K : Type 0} → (S → K → Option Bool) → K → M S (Option Bool)
  find rules key w = some (rules w.maps key, w)

  unfoldable pub forward : ℕ → M S Action
  forward start = do
    mem ← region start 12
    if not
          (is_same (strcmp mem (start + 6) source_mac 0 6) && is_same (strcmp mem start my_mac 0 6))
        then pure pass
        else do store_mac (start + 6) my_mac; store_mac start target_mac; pure tx

  -- `if (permitted_src && *permitted_src)`
  unfoldable pub decide : ℕ → Option Bool → M S Action
  decide start none = pure drop
  decide start (some false) = pure drop
  decide start (some true) = forward start

-- The rules are maps that this program only looks keys up in.
module _ {S : Type 0} (ipv4_rules_trie : S → Ipv4LpmKey → Option Bool)
    (ipv6_rules_trie : S → Ipv6LpmKey → Option Bool) where
  unfoldable pub check_ipv4 : M S Action
  check_ipv4 w =
      let iph = w.data_start + 14 in
      (if ltb w.data_end (iph + 20) then pure drop else do
        src_ip ← load32 (iph + 12)
        permitted_src ← find ipv4_rules_trie (record { prefixlen = 32; address = src_ip })
        decide w.data_start permitted_src)
        w

  unfoldable pub check_ipv6 : M S Action
  check_ipv6 w =
      let ipv6h = w.data_start + 14 in
      (if ltb w.data_end (ipv6h + 40) then pure drop else do
        a ← load32 (ipv6h + 8)
        b ← load32 (ipv6h + 12)
        c ← load32 (ipv6h + 16)
        d ← load32 (ipv6h + 20)
        permitted_src ←
            find ipv6_rules_trie (record { prefixlen = 128; low = (a, b); high = (c, d) })
        decide w.data_start permitted_src)
        w

  unfoldable pub xdp_standard_acl : M S Action
  xdp_standard_acl w =
      (if ltb w.data_end (w.data_start + 14) then pure drop else do
        h_proto ← load16 (w.data_start + 12)
        if h_proto == swab16 0x0800
            then check_ipv4
            else if h_proto == swab16 0x86DD
            then check_ipv6
            else pure pass)
        w

strcmp_same :
    (b1 : Mem) (i : ℕ) (b2 : Mem) (j n : ℕ)
    → ((k : ℕ) → b2 k ≢ 0)
    → is_same (strcmp b1 i b2 j n) ≡ true
    → (k : ℕ) → k < n
    → b1 (i + k) ≡ b2 (j + k)
unfolding strcmp is_same
strcmp_same b1 i b2 j zero nz h k l = omega arith
strcmp_same b1 i b2 j (suc n) nz h zero l = ground (arith, nz j)
strcmp_same b1 i b2 j (suc n) nz h (suc k) l =
    let e : i + suc k ≡ i + 1 + k = omega arith in
    let e' : j + suc k ≡ j + 1 + k = omega arith in
    rw (e, e') (strcmp_same b1 (i + 1) b2 (j + 1) n nz (ground (arith, nz j)) k (omega arith))

same_strcmp :
    (b1 : Mem) (i : ℕ) (b2 : Mem) (j n : ℕ)
    → ((k : ℕ) → k < n → b1 (i + k) ≡ b2 (j + k))
    → is_same (strcmp b1 i b2 j n) ≡ true
unfolding strcmp is_same
same_strcmp b1 i b2 j zero h = refl
same_strcmp b1 i b2 j (suc n) h =
    let e : b1 i ≡ b2 j = ground (arith, h 0 (omega arith)) in
    let rest =
      same_strcmp b1 (i + 1) b2 (j + 1) n (λ k l. ground (arith, h (suc k) (omega arith))) in
    ground (arith, e, rest)

-- `_strcmp` with an address of this program, which has no byte 0, is 0 exactly if the bytes agree.
pub strcmp-same :
    (b1 : Mem) (i : ℕ) (b2 : Mem) (j n : ℕ)
    → ((k : ℕ) → b2 k ≢ 0)
    → (is_same (strcmp b1 i b2 j n) ≡ true) ↔ ((k : ℕ) → k < n → b1 (i + k) ≡ b2 (j + k))
strcmp-same b1 i b2 j n nz = (strcmp_same b1 i b2 j n nz, same_strcmp b1 i b2 j n)
