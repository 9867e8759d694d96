-- ===== src/Afxdp/Generate.antt =====
-- afxdp/l2fwd/xdpsock.c: the generated packet and its frames. `pkt_data` is the memory of the packet,
-- which begins at offset 0.
pub mod Verifies
pub mod Frames
use userspace_xdp.Prelude.{
  ℕ, zero, suc, ◌+◌, ◌-◌, ◌*◌, ◌/◌, ◌%◌, ◌^◌, Bool, ltb, ◌==◌, if◌then◌else◌, Mem, get32, put8,
  put16, put32, swab16, swab32, within, bit_and, bit_or,
}
use userspace_xdp.Afxdp.{u32}
use userspace_xdp.Afxdp.Sums.{ip_fast_csum, udp_csum}
use userspace_xdp.Afxdp.Transmit.{Sending, packet_len}

-- the options of the headers; `pkt_vlan_id`, `pkt_vlan_pri` and the addresses as set
pub record Headers : Type 0 where
  pub txdmac : Mem
  pub txsmac : Mem
  pub vlan_id : ℕ
  pub vlan_pri : ℕ
  pub fill_pattern : ℕ

-- `memcpy` from another object
unfoldable pub memcpy : Mem → ℕ → Mem → ℕ → ℕ → Mem
memcpy m dst other src n i = if within dst n i then other (src + (i - dst)) % 256 else m i

-- ETH_HDR_SIZE, IP_PKT_SIZE, UDP_PKT_SIZE, PKT_HDR_SIZE and UDP_PKT_DATA_SIZE
abbrev pub eth_hdr_size : Sending → ℕ
eth_hdr_size o = if o.vlan_tag then 18 else 14

abbrev pub ip_pkt_size : Sending → ℕ
ip_pkt_size o = packet_len o - eth_hdr_size o

abbrev pub udp_pkt_size : Sending → ℕ
udp_pkt_size o = ip_pkt_size o - 20

abbrev pub pktgen_hdr_size : Sending → ℕ
pktgen_hdr_size o = if o.tstamp then 16 else 0

abbrev pub pkt_hdr_size : Sending → ℕ
pkt_hdr_size o = eth_hdr_size o + 20 + 8 + pktgen_hdr_size o

abbrev pub udp_pkt_data_size : Sending → ℕ
udp_pkt_data_size o = udp_pkt_size o - (8 + pktgen_hdr_size o)

-- the two loops of `memset32_htonl`, by the rounds left
unfoldable pub fill_words : Mem → ℕ → ℕ → ℕ → Mem
fill_words m ptr val zero = m
fill_words m ptr val (suc rounds) = fill_words (put32 m ptr val) (ptr + 4) val rounds

unfoldable pub fill_bytes : Mem → ℕ → ℕ → ℕ → ℕ → Mem
fill_bytes m dest val i zero = m
fill_bytes m dest val i (suc rounds) =
    fill_bytes (put8 m (dest + i) (val / 256 ^ (i % 4))) dest val (i + 1) rounds

unfoldable pub memset32_htonl : Mem → ℕ → ℕ → ℕ → Mem
unfolding fill_words fill_bytes
memset32_htonl m dest val size =
    let v = swab32 val in
    fill_bytes (fill_words m dest v (size / 4)) dest v (size / 4 * 4) (size % 4)

module _ (h : Headers) (o : Sending) where
  -- the Ethernet and VLAN header
  unfoldable pub eth_header : Mem → Mem
  unfolding memcpy
  eth_header m =
      let m1 = memcpy (memcpy m 0 h.txdmac 0 6) 6 h.txsmac 0 6 in
      let vlan_tci = bit_or (bit_and h.vlan_id 4095) (bit_and (u32 (h.vlan_pri * 8192)) 57344) in
      if o.vlan_tag
      then put16 (put16 (put16 m1 12 (swab16 33024)) 14 (swab16 vlan_tci)) 16 (swab16 2048)
      else put16 m1 12 (swab16 2048)

-- The IP header at `ip` up to its checksum, which is zero: version 4, five words, no options, a TTL
-- of 64, UDP, from 10.10.10.16 to 10.10.10.32.
unfoldable pub ip_fields : Sending → Mem → Mem
ip_fields o m =
    let ip = eth_hdr_size o in
    let m1 = put8 (put8 m ip 69) (ip + 1) 0 in
    let m2 = put16 (put16 (put16 m1 (ip + 2) (swab16 (ip_pkt_size o))) (ip + 4) 0) (ip + 6) 0 in
    let m3 = put8 (put8 m2 (ip + 8) 64) (ip + 9) 17 in
    let m4 = put32 (put32 m3 (ip + 12) (swab32 168430096)) (ip + 16) (swab32 168430112) in
    put16 m4 (ip + 10) 0

unfoldable pub ip_header : Sending → Mem → Mem
unfolding ip_fields
ip_header o m =
    let m1 = ip_fields o m in put16 m1 (eth_hdr_size o + 10) (ip_fast_csum m1 (eth_hdr_size o) 5)

-- The UDP header up to its checksum, and the magic number. (PKTGEN_MAGIC is 0xbe9be955.)
unfoldable pub udp_ports : Sending → Mem → Mem
udp_ports o m =
    let udp = eth_hdr_size o + 20 in
    let m1 = put16 (put16 m udp (swab16 4096)) (udp + 2) (swab16 4096) in
    let m2 = put16 m1 (udp + 4) (swab16 (udp_pkt_size o)) in
    if o.tstamp then put32 m2 (udp + 8) (swab32 3197888853) else m2

-- the same with the data, and with a checksum of zero
unfoldable pub udp_fields : Headers → Sending → Mem → Mem
unfolding udp_ports memset32_htonl
udp_fields h o m =
    put16 (memset32_htonl (udp_ports o m) (pkt_hdr_size o) h.fill_pattern (udp_pkt_data_size o))
      (eth_hdr_size o + 20 + 6) 0

unfoldable pub udp_header : Headers → Sending → Mem → Mem
unfolding udp_fields
udp_header h o m =
    let ip = eth_hdr_size o in
    let udp = eth_hdr_size o + 20 in
    let m1 = udp_fields h o m in
    put16 m1 (udp + 6)
      (udp_csum m1 (get32 m1 (ip + 12)) (get32 m1 (ip + 16)) (udp_pkt_size o) 17 udp)

-- `gen_eth_hdr_data` on `pkt_data`
unfoldable pub gen_eth_hdr_data : Headers → Sending → Mem → Mem
unfolding eth_header ip_header udp_header
gen_eth_hdr_data h o m = udp_header h o (ip_header o (eth_header h o m))

-- `gen_eth_frame` with its static `len`, which the first call finds 0: the new value of `len`, and
-- the buffer.
unfoldable pub gen_eth_frame : Sending → (ℕ → ℕ) → Mem → ℕ → ℕ × Mem → ℕ × Mem
unfolding memcpy
gen_eth_frame o get_data pkt_data addr (len, buffer) =
    let left = if len == 0 then packet_len o else len in
    let copy_len = if ltb left o.frame_size then left else o.frame_size in
    (left - copy_len, memcpy buffer (get_data addr) pkt_data (packet_len o - left) copy_len)

-- the loop of `main` that fills the frames, from frame `i` on, by the frames left
unfoldable pub gen_frames : Sending → (ℕ → ℕ) → Mem → ℕ → ℕ → ℕ × Mem → ℕ × Mem
unfolding gen_eth_frame
gen_frames o get_data pkt_data i zero st = st
gen_frames o get_data pkt_data i (suc rest) st =
    gen_frames o get_data pkt_data (i + 1) rest
      (gen_eth_frame o get_data pkt_data (i * o.frame_size) st)
