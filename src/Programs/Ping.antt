-- ===== src/Programs/Ping.antt =====
-- xdp_progs/xdping.bpf.c: answer ICMP echo requests.
use userspace_xdp.Prelude.{
  ap, ◌∙◌, Option, false, ◌*◌, ◌%◌, sym, subst, none, ℕ, within, put16-IsBytes, put8-IsBytes,
  put32-IsBytes, put32-get32, get16-put16_self, ◌⊎◌, inl, inr, Bool-cases, ◌<◌, ◌-◌, ◌+◌, ◌≤◌, ◌≡◌,
  arith, ltb, leb, ◌==◌, ◌&&◌, Bool, true, not, if◌then◌else◌, some, IsBytes, Mem, swab16, not16,
  get16, get32, put8, put16, put32,
}
use userspace_xdp.Xdp.{
  Action, tx, pass, M, World, pure, ◌>>=◌, ◌>>◌, load8, load16, load32, store8, store16, store32,
}
use userspace_xdp.Xdp.Mac.{
  swap_mem, swap_mem-eq, swap_mem-IsBytes, swap_src_dst_mac, swap_src_dst_mac-eq,
}
use userspace_xdp.Xdp.Helpers.{bpf_csum_diff}
use userspace_xdp.Xdp.Steps.{
  bind_fault, bind_step, then_step, load32_step, store32_step, store16_step, store8_step, pure_step,
}
use userspace_xdp.Runtime.Csum.{csum_diff, fold_once}
use userspace_xdp.Runtime.Csum.ByteSum.{◌≅◌, byte_sum}
use userspace_xdp.Runtime.Csum.Field.{sealed}

abbrev pub eth_p_ip : ℕ
eth_p_ip = 0x0800

abbrev pub ipproto_icmp : ℕ
ipproto_icmp = 1

abbrev pub icmp_echo_len : ℕ
icmp_echo_len = 64

-- `~((sum & 0xffff) + (sum >> 16))` of the sum folded once, as a `__u16`
unfoldable pub csum_fold_helper : ℕ → ℕ
csum_fold_helper sum = not16 (fold_once (fold_once sum))

module _ {S : Type 0} where
  unfoldable pub ipv4_csum : ℕ → ℕ → M S ℕ
  ipv4_csum data_start data_size = do
    sum ← bpf_csum_diff data_start data_size 0
    pure (csum_fold_helper sum)

  unfoldable pub icmp_check : M S Action
  icmp_check w =
      let start = w.data_start in
      (if ltb w.data_end (start + 14 + 20 + icmp_echo_len) then pure pass else do
        h_proto ← load16 (start + 12)
        if not (h_proto == swab16 eth_p_ip) then pure pass else do
          protocol ← load8 (start + 14 + 9)
          if not (protocol == ipproto_icmp)
              then pure pass
              else if ltb w.data_end (start + 34)
              then pure pass
              else pure tx)
        w

  -- the conversion of a request into a reply
  unfoldable pub convert : ℕ → M S Action
  convert start = do
    raddr ← load32 (start + 14 + 12)
    swap_src_dst_mac start
    daddr ← load32 (start + 14 + 16)
    store32 (start + 14 + 12) daddr
    store32 (start + 14 + 16) raddr
    store8 (start + 34) 0
    store16 (start + 34 + 2) 0
    checksum ← ipv4_csum (start + 34) icmp_echo_len
    store16 (start + 34 + 2) checksum
    pure tx

  -- `if (ret != XDP_TX) return ret;`
  unfoldable pub when_tx : Action → M S Action → M S Action
  when_tx tx k = k
  when_tx ret k = pure ret

  unfoldable pub xdp_pass : M S Action
  unfolding when_tx
  xdp_pass w = (do ret ← icmp_check; when_tx ret (convert w.data_start)) w

module _ {S : Type 0} where
  -- xdp_progs/xdping_no_check.bpf.c: every frame is converted, without a test of its length
  unfoldable pub xdp_pass_no_check : M S Action
  xdp_pass_no_check w = convert w.data_start w

  -- its client, whose body is commented out up to the verdict
  unfoldable pub xdping_client : M S Action
  xdping_client = pure tx

-- the reply before its checksum is set
unfoldable pub unsummed : Mem → ℕ → Mem
unsummed m d =
    let swapped = swap_mem m d in
    let sent = put32 swapped (d + 14 + 12) (get32 swapped (d + 14 + 16)) in
    put16 (put8 (put32 sent (d + 14 + 16) (get32 m (d + 14 + 12))) (d + 34) 0) (d + 34 + 2) 0

-- the reply
unfoldable pub reply : Mem → ℕ → Mem
reply m d =
    put16 (unsummed m d) (d + 34 + 2)
      (csum_fold_helper (csum_diff (unsummed m d) 0 0 (d + 34) 64 0))

module _ {S : Type 0} where
  -- An IPv4 frame that carries ICMP, with 64 bytes behind an IPv4 header of 20 bytes. The code does not
  -- look at the ICMP type, nor at the lengths in the IPv4 header.
  unfoldable pub is_long_icmp : World S → Bool
  is_long_icmp w =
      leb (w.data_start + 98) w.data_end
      && get16 w.mem (w.data_start + 12) == swab16 eth_p_ip
      && w.mem (w.data_start + 23) == ipproto_icmp

  icmp_check-eq : (w : World S) → icmp_check w ≡ some (if is_long_icmp w then tx else pass, w)
  unfolding icmp_check is_long_icmp load8 load16 pure ◌>>=◌
  icmp_check-eq w = ground arith

  room : (w : World S) → is_long_icmp w ≡ true → w.data_start + 98 ≤ w.data_end
  unfolding is_long_icmp
  room w h = ground arith

  pub ipv4_csum-eq :
      (a n : ℕ) (w : World S)
      → w.data_start ≤ a
      → a + n ≤ w.data_end
      → ipv4_csum a n w ≡ some (csum_fold_helper (csum_diff w.mem 0 0 a n 0), w)
  unfolding ipv4_csum bpf_csum_diff pure ◌>>=◌
  ipv4_csum-eq a n w l u = ground arith

  pub convert-eq :
      (w : World S)
      → w.data_start + 98 ≤ w.data_end
      → convert w.data_start w ≡ some (tx, record w { mem = reply w.mem w.data_start })
  unfolding convert reply unsummed
  convert-eq w l = bind_step _ _ (load32_step _ _ (omega arith) (omega arith)) (
      then_step _ _ (swap_src_dst_mac-eq w (omega arith)) (
        bind_step _ _ (load32_step _ _ (omega arith) (omega arith)) (
          then_step _ _ (store32_step _ _ _ (omega arith) (omega arith)) (
            then_step _ _ (store32_step _ _ _ (omega arith) (omega arith)) (
              then_step _ _ (store8_step _ _ _ (omega arith) (omega arith)) (
                then_step _ _ (store16_step _ _ _ (omega arith) (omega arith)) (
                  bind_step _ _ (ipv4_csum-eq _ _ _ (omega arith) (omega arith)) (
                    then_step _ _ (store16_step _ _ _ (omega arith) (omega arith))
                      (pure_step _ _)))))))))

  xdp_pass-eq :
      (w : World S)
      → xdp_pass w ≡ (
          if is_long_icmp w
          then some (tx, record w { mem = reply w.mem w.data_start })
          else some (pass, w))
  unfolding xdp_pass
  xdp_pass-eq w = elim (Bool-cases (is_long_icmp w)) [
    | inl e ↦ rw e (bind_step _ _ (rw e at (icmp_check-eq w)) (convert-eq w (room w e)))
    | inr e ↦ rw e (bind_step _ _ (rw e at (icmp_check-eq w)) (pure_step _ _))
  ]

unsummed-IsBytes : (m : Mem) (d : ℕ) → IsBytes m → IsBytes (unsummed m d)
unfolding unsummed
unsummed-IsBytes m d b =
    put16-IsBytes _ _ _
      (put8-IsBytes _ _ _ (put32-IsBytes _ _ _ (put32-IsBytes _ _ _ (swap_mem-IsBytes m d b))))

unsummed-check : (m : Mem) (d : ℕ) → get16 (unsummed m d) (d + 34 + 2) ≡ 0
unfolding unsummed
unsummed-check m d = get16-put16_self _ _ 0 (omega arith)

reply-verifies : (m : Mem) (d : ℕ) → IsBytes m → byte_sum (reply m d) (d + 34) 64 ≅ 0
unfolding reply csum_fold_helper
reply-verifies m d b =
    sealed (unsummed m d) (d + 34) 1 60 16 (unsummed-IsBytes m d b) (omega arith) (omega arith)
      (unsummed-check m d)

reply-bytes :
    (m : Mem) (d i : ℕ)
    → IsBytes m
    → (i < 36) ⊎ (37 < i)
    → reply m d (d + i) ≡ (
        if ltb i 6
        then m (d + i + 6)
        else if ltb i 12
        then m (d + i - 6)
        else if within 26 4 i
        then m (d + i + 4)
        else if within 30 4 i
        then m (d + i - 4)
        else if i == 34
        then 0
        else m (d + i))
unfolding reply unsummed put16 put8
reply-bytes m d i b h =
    let k = swap_mem m d in
    let bytes = swap_mem-IsBytes m d b in
    let sent = put32 k (d + 14 + 12) (get32 k (d + 14 + 16)) in
    rw
      (
        put32-get32 sent m (d + 14 + 16) (d + 14 + 12) (d + i) b,
        put32-get32 k k (d + 14 + 12) (d + 14 + 16) (d + i) bytes,
        swap_mem-eq m d (d + i) b,
        swap_mem-eq m d (d + 14 + 16 + (d + i - (d + 14 + 12))) b,
      )
      (ground (arith) steps 40000000)

-- The bytes of the frame at `d` in `m'` are those of an answer to the frame in `m`: the Ethernet and the
-- IPv4 addresses are exchanged, the ICMP type is 0 and every other byte but the checksum's two is as it was.
abbrev pub Exchanged : Mem → Mem → ℕ → Type 0
Exchanged m m' d =
    (i : ℕ)
    → (i < 36) ⊎ (37 < i)
    → m' (d + i) ≡ (
        if ltb i 6
        then m (d + i + 6)
        else if ltb i 12
        then m (d + i - 6)
        else if within 26 4 i
        then m (d + i + 4)
        else if within 30 4 i
        then m (d + i - 4)
        else if i == 34
        then 0
        else m (d + i))

-- what becomes of a frame
pub data Answered {S : Type 0} (w : World S) : Option (Action × World S) → Type 0 where
  passed_on : is_long_icmp w ≡ false → Answered w (some (pass, w))
  sent_back :
      (m : Mem)
      → is_long_icmp w ≡ true
      → Exchanged w.mem m w.data_start
      → byte_sum m (w.data_start + 34) 64 ≅ 0
      → Answered w (some (tx, record w { mem = m }))

-- On every frame of bytes the program returns, without a fault. A frame of IPv4 that carries ICMP, of
-- whatever ICMP type, with 64 bytes or more behind an IPv4 header of 20 bytes, is sent back: its addresses
-- exchanged, its ICMP type 0, the one's complement sum of the 64 bytes from offset 34 on zero and every
-- other byte as it was. Every other frame is passed on unchanged.
pub xdp_pass-Answered : {S : Type 0} (w : World S) → IsBytes w.mem → Answered w (xdp_pass w)
xdp_pass-Answered w b = elim (Bool-cases (is_long_icmp w)) [
  | inl e ↦
      let sent =
        sent_back (reply w.mem w.data_start) e (λ i h. reply-bytes w.mem w.data_start i b h)
          (reply-verifies w.mem w.data_start b) in
      subst (Answered w) (sym (rw e at (xdp_pass-eq w))) sent
  | inr e ↦ subst (Answered w) (sym (rw e at (xdp_pass-eq w))) (passed_on e)
]

-- where the IPv4 header of the frame at `d` puts its payload, and the payload's length
abbrev pub ipv4_payload : Mem → ℕ → ℕ
ipv4_payload m d = d + 14 + 4 * (m (d + 14) % 16)

abbrev pub ipv4_payload_len : Mem → ℕ → ℕ
ipv4_payload_len m d = swab16 (get16 m (d + 16)) - 4 * (m (d + 14) % 16)

-- Where the IPv4 header of a frame that is answered has no options and a total length of 84, so an ICMP
-- message of 64 bytes, the one's complement sum of the message that the answer's IPv4 header delimits is
-- zero: the answer's checksum verifies.
pub xdp_pass-verifies :
    {S : Type 0} (w : World S)
    → IsBytes w.mem
    → is_long_icmp w ≡ true
    → w.mem (w.data_start + 14) % 16 ≡ 5
    → swab16 (get16 w.mem (w.data_start + 16)) ≡ 84
    → (w' : World S) × (xdp_pass w ≡ some (tx, w'))
      × (byte_sum w'.mem (ipv4_payload w'.mem w.data_start) (ipv4_payload_len w'.mem w.data_start)
          ≅ 0)
unfolding get16
xdp_pass-verifies w b e ihl len =
    let d = w.data_start in
    let k = reply w.mem d in
    let b14 : k (d + 14) ≡ w.mem (d + 14) = reply-bytes w.mem d 14 b (inl (omega arith)) in
    let b16 : k (d + 16) ≡ w.mem (d + 16) = reply-bytes w.mem d 16 b (inl (omega arith)) in
    let place : d + 16 + 1 ≡ d + 17 = omega arith in
    let b17 : k (d + 16 + 1) ≡ w.mem (d + 16 + 1) =
      ap k place ∙ reply-bytes w.mem d 17 b (inl (omega arith)) ∙ sym (ap w.mem place) in
    let total : get16 k (d + 16) ≡ get16 w.mem (d + 16) = omega (arith, b16, b17) in
    let at_34 : ipv4_payload k d ≡ d + 34 = omega (arith, b14, ihl) in
    let of_64 : ipv4_payload_len k d ≡ 64 = omega (arith, ap swab16 total, b14, ihl, len) in
    (record w { mem = k }, rw e at (xdp_pass-eq w), rw (at_34, of_64) (reply-verifies w.mem d b))

-- a read outside of the frame
load32_fault : {S : Type 0} (a : ℕ) (w : World S) → w.data_end < a + 4 → load32 a w ≡ none
unfolding load32
load32_fault a w h = ground arith

-- Without the test, a frame that ends in front of the IPv4 source address's end makes the program read
-- outside of it.
no_check_faults :
    {S : Type 0} (w : World S) → w.data_end < w.data_start + 30 → xdp_pass_no_check w ≡ none
unfolding xdp_pass_no_check convert
no_check_faults w h = bind_fault _ _ (load32_fault (w.data_start + 14 + 12) w (omega arith))
