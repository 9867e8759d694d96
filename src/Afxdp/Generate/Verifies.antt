-- ===== src/Afxdp/Generate/Verifies.antt =====
-- The checksums of a generated packet.
use userspace_xdp.Prelude.{
  ℕ, zero, suc, ◌+◌, ◌-◌, ◌*◌, ◌/◌, ◌%◌, ◌^◌, ◌≤◌, ◌<◌, ◌≡◌, refl, ◌∙◌, arith, Bool-cases, inl, inr,
  Mem, IsBytes, get16, get32, put8, put16, put32, swab16, swab32, put8-IsBytes, put16-IsBytes,
  put32-IsBytes, get16-put16_self, get16-put16_ne, get16-lt,
}
use userspace_xdp.Runtime.Csum.ByteSum.{◌≅◌, byte_sum}
use userspace_xdp.Runtime.Csum.Field.{byte_sum_congr}
use userspace_xdp.Afxdp.Sums.{udp_csum, pseudo, udp_csum-verifies, ip_fast_csum-verifies}
use userspace_xdp.Afxdp.Transmit.{Sending}
use userspace_xdp.Afxdp.Generate.{
  Headers, memcpy, eth_hdr_size, udp_pkt_size, udp_pkt_data_size, pkt_hdr_size, fill_words,
  fill_bytes, memset32_htonl, eth_header, udp_ports, ip_fields, ip_header, udp_fields, udp_header,
  gen_eth_hdr_data,
}

-- A write at `b` or behind it leaves what is below `b`.
abbrev SameBelow : ℕ → Mem → Mem → Type 0
SameBelow b m m' = (i : ℕ) → i < b → m' i ≡ m i

put8_below : (m : Mem) (b a v : ℕ) → b ≤ a → SameBelow b m (put8 m a v)
unfolding put8
put8_below m b a v l i h = ground arith

put16_below : (m : Mem) (b a v : ℕ) → b ≤ a → SameBelow b m (put16 m a v)
unfolding put16
put16_below m b a v l i h = ground arith

put32_below : (m : Mem) (b a v : ℕ) → b ≤ a → SameBelow b m (put32 m a v)
unfolding put32
put32_below m b a v l i h =
    put16_below (put16 m a v) b (a + 2) (v / 65536) (omega (arith, l)) i h
    ∙ put16_below m b a v l i h

fill_words_below : (m : Mem) (b ptr val n : ℕ) → b ≤ ptr → SameBelow b m (fill_words m ptr val n)
unfolding fill_words
fill_words_below m b ptr val zero l i h = refl
fill_words_below m b ptr val (suc n) l i h =
    fill_words_below (put32 m ptr val) b (ptr + 4) val n (omega (arith, l)) i h
    ∙ put32_below m b ptr val l i h

fill_bytes_below :
    (m : Mem) (b dest val j n : ℕ) → b ≤ dest → SameBelow b m (fill_bytes m dest val j n)
unfolding fill_bytes
fill_bytes_below m b dest val j zero l i h = refl
fill_bytes_below m b dest val j (suc n) l i h =
    fill_bytes_below (put8 m (dest + j) (val / 256 ^ (j % 4))) b dest val (j + 1) n l i h
    ∙ put8_below m b (dest + j) (val / 256 ^ (j % 4)) (omega (arith, l)) i h

fill_words-IsBytes : (m : Mem) (ptr val n : ℕ) → IsBytes m → IsBytes (fill_words m ptr val n)
unfolding fill_words
fill_words-IsBytes m ptr val zero b = b
fill_words-IsBytes m ptr val (suc n) b =
    fill_words-IsBytes (put32 m ptr val) (ptr + 4) val n (put32-IsBytes m ptr val b)

fill_bytes-IsBytes : (m : Mem) (dest val j n : ℕ) → IsBytes m → IsBytes (fill_bytes m dest val j n)
unfolding fill_bytes
fill_bytes-IsBytes m dest val j zero b = b
fill_bytes-IsBytes m dest val j (suc n) b =
    fill_bytes-IsBytes (put8 m (dest + j) (val / 256 ^ (j % 4))) dest val (j + 1) n
      (put8-IsBytes m (dest + j) (val / 256 ^ (j % 4)) b)

memcpy-IsBytes :
    (m : Mem) (dst : ℕ) (other : Mem) (src n : ℕ) → IsBytes m → IsBytes (memcpy m dst other src n)
unfolding memcpy
memcpy-IsBytes m dst other src n b i = ground (arith, b i)

get32-put16_ne : (m : Mem) (a v b : ℕ) → b + 3 < a → get32 (put16 m a v) b ≡ get32 m b
unfolding get32
get32-put16_ne m a v b h =
    rw
      (
        get16-put16_ne m a v b (inl (omega (arith, h))),
        get16-put16_ne m a v (b + 2) (inl (omega (arith, h))),
      )
      refl

get32_bound : (m : Mem) (a : ℕ) → IsBytes m → get32 m a < 2 ^ 32
unfolding get32
get32_bound m a b = omega (arith, get16-lt m a b, get16-lt m (a + 2) b)

module _ (h : Headers) (o : Sending) where
  eth_header-IsBytes : (m : Mem) → IsBytes m → IsBytes (eth_header h o m)
  unfolding eth_header
  eth_header-IsBytes m b =
      let c = memcpy-IsBytes _ 6 h.txsmac 0 6 (memcpy-IsBytes m 0 h.txdmac 0 6 b) in
      elim (Bool-cases o.vlan_tag) [
        | inl e ↦ rw e (put16-IsBytes _ _ _ (put16-IsBytes _ _ _ (put16-IsBytes _ _ _ c)))
        | inr e ↦ rw e (put16-IsBytes _ _ _ c)
      ]

  ip_fields-IsBytes : (m : Mem) → IsBytes m → IsBytes (ip_fields o m)
  unfolding ip_fields
  ip_fields-IsBytes m b = search (b, put8-IsBytes, put16-IsBytes, put32-IsBytes) depth 14

  ip_header-IsBytes : (m : Mem) → IsBytes m → IsBytes (ip_header o m)
  unfolding ip_header
  ip_header-IsBytes m b = put16-IsBytes _ _ _ (ip_fields-IsBytes m b)

  udp_ports-IsBytes : (m : Mem) → IsBytes m → IsBytes (udp_ports o m)
  unfolding udp_ports
  udp_ports-IsBytes m b =
      let c = put16-IsBytes _ _ _ (put16-IsBytes _ _ _ (put16-IsBytes m _ _ b)) in
      elim (Bool-cases o.tstamp) [ inl e ↦ rw e (put32-IsBytes _ _ _ c) | inr e ↦ rw e c ]

  udp_fields-IsBytes : (m : Mem) → IsBytes m → IsBytes (udp_fields h o m)
  unfolding udp_fields memset32_htonl
  udp_fields-IsBytes m b =
      let d = pkt_hdr_size o in
      let v = swab32 h.fill_pattern in
      let n = udp_pkt_data_size o in
      let words = fill_words-IsBytes (udp_ports o m) d v (n / 4) (udp_ports-IsBytes m b) in
      put16-IsBytes (fill_bytes (fill_words (udp_ports o m) d v (n / 4)) d v (n / 4 * 4) (n % 4))
        (eth_hdr_size o + 20 + 6) 0
        (fill_bytes-IsBytes (fill_words (udp_ports o m) d v (n / 4)) d v (n / 4 * 4) (n % 4) words)

  udp_ports_below : (m : Mem) → SameBelow (eth_hdr_size o + 20) m (udp_ports o m)
  unfolding udp_ports
  udp_ports_below m i l =
      let u = eth_hdr_size o + 20 in
      let m1 = put16 m u (swab16 4096) in
      let m2 = put16 m1 (u + 2) (swab16 4096) in
      let m3 = put16 m2 (u + 4) (swab16 (udp_pkt_size o)) in
      let e =
        put16_below m2 u (u + 4) (swab16 (udp_pkt_size o)) (omega arith) i l
        ∙ put16_below m1 u (u + 2) (swab16 4096) (omega arith) i l
        ∙ put16_below m u u (swab16 4096) (omega arith) i l in
      elim (Bool-cases o.tstamp) [
        | inl c ↦ rw c (put32_below m3 u (u + 8) (swab32 3197888853) (omega arith) i l ∙ e)
        | inr c ↦ rw c e
      ]

  udp_fields_below : (m : Mem) → SameBelow (eth_hdr_size o + 20) m (udp_fields h o m)
  unfolding udp_fields memset32_htonl
  udp_fields_below m i l =
      let u = eth_hdr_size o + 20 in
      let d = pkt_hdr_size o in
      let v = swab32 h.fill_pattern in
      let n = udp_pkt_data_size o in
      let words = fill_words (udp_ports o m) d v (n / 4) in
      let bytes = fill_bytes words d v (n / 4 * 4) (n % 4) in
      put16_below bytes u (u + 6) 0 (omega arith) i l
      ∙ fill_bytes_below words u d v (n / 4 * 4) (n % 4) (omega arith) i l
      ∙ fill_words_below (udp_ports o m) u d v (n / 4) (omega arith) i l
      ∙ udp_ports_below m i l

  udp_header_below : (m : Mem) → SameBelow (eth_hdr_size o + 20) m (udp_header h o m)
  unfolding udp_header
  udp_header_below m i l =
      put16_below (udp_fields h o m) (eth_hdr_size o + 20) (eth_hdr_size o + 20 + 6) _ (omega arith)
        i l
      ∙ udp_fields_below m i l

  ip_header-verifies : (m : Mem) → IsBytes m → byte_sum (ip_header o m) (eth_hdr_size o) 20 ≅ 0
  unfolding ip_header
  ip_header-verifies m b =
      let z : get16 (ip_fields o m) (eth_hdr_size o + 2 * 5) ≡ 0 =
        unfold ip_fields in get16-put16_self _ _ 0 (omega arith) in
      ip_fast_csum-verifies (ip_fields o m) (eth_hdr_size o) 5 8 5 (ip_fields-IsBytes m b) refl z

  -- For packets that have room for a UDP header (and less than 2 ^ 16 bytes), the generated packet has a
  -- valid IPv4 header checksum, and a valid UDP checksum over the UDP packet, its last byte completed to
  -- a word by the byte behind it, and the pseudo header with the addresses of the IPv4 header.
  pub gen_eth_hdr_data-verifies :
      (m : Mem)
      → IsBytes m
      → 8 ≤ udp_pkt_size o
      → udp_pkt_size o < 65536
      → let p = gen_eth_hdr_data h o m in
        let ip = eth_hdr_size o in
        let udp = ip + 20 in
        (byte_sum p ip 20 ≅ 0)
        × (byte_sum p udp (2 * ((udp_pkt_size o + 1) / 2))
              + pseudo (get32 p (ip + 12)) (get32 p (ip + 16)) (udp_pkt_size o) 17
            ≅ 0)
  unfolding gen_eth_hdr_data
  gen_eth_hdr_data-verifies m b small large =
      let ip = eth_hdr_size o in
      let udp = ip + 20 in
      let len = udp_pkt_size o in
      let m2 = ip_header o (eth_header h o m) in
      let b1 = eth_header-IsBytes m b in
      let m3 = udp_fields h o m2 in
      let b3 = udp_fields-IsBytes m2 (ip_header-IsBytes (eth_header h o m) b1) in
      let s = get32 m3 (ip + 12) in
      let d = get32 m3 (ip + 16) in
      let c = udp_csum m3 s d len 17 udp in
      let n = (len + 1) / 2 - 4 in
      let hn : (len + 1) / 2 ≡ 4 + n = omega (arith, small) in
      let z : get16 m3 (udp + 6) ≡ 0 = unfold udp_fields in get16-put16_self _ _ 0 (omega arith) in
      let u =
        udp_csum-verifies m3 s d len 17 udp n b3 (get32_bound m3 (ip + 12) b3)
          (get32_bound m3 (ip + 16) b3) large (omega arith) hn z in
      let below = byte_sum_congr (udp_header h o m2) m2 ip 20 (λ i l k. udp_header_below m2 i k) in
      let ps : get32 (udp_header h o m2) (ip + 12) ≡ s =
        unfold udp_header in get32-put16_ne m3 (udp + 6) c (ip + 12) (omega arith) in
      let pd : get32 (udp_header h o m2) (ip + 16) ≡ d =
        unfold udp_header in get32-put16_ne m3 (udp + 6) c (ip + 16) (omega arith) in
      (
        omega (arith, below, ip_header-verifies (eth_header h o m) b1),
        rw (ps, pd, hn) (unfold udp_header in u),
      )
