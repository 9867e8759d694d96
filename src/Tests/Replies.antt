-- ===== src/Tests/Replies.antt =====
-- Whole programs that answer a frame or send it on, at concrete frames.
use userspace_xdp.Prelude.{
  ◌<◌, ◌≤◌, ℕ, ◌+◌, ◌/◌, ◌≡◌, refl, arith, Bool-cases, Option, some, inl, inr, ◌==◌, if◌then◌else◌,
  swab16, swab32, Mem, IsBytes, get16, get32,
}
use userspace_xdp.Xdp.{World, tx, load16}
use userspace_xdp.Xdp.Maps.{BpfMap, counted}
use userspace_xdp.Runtime.Csum.ByteSum.{◌≅◌, byte_sum}
use userspace_xdp.Programs.Hash.{hash_and_sum}
use userspace_xdp.Programs.AdjustTail
use userspace_xdp.Programs.Balancer.{IpMacPair}
use userspace_xdp.Programs.Balancer.Balanced.{picked, balanced}
use userspace_xdp.Programs.Balancer
use userspace_xdp.Programs.Tunnel
use userspace_xdp.Programs.Tunnel.{IptnlInfo, get_dport}
use userspace_xdp.Programs.Tunnel.Sent.{tunneled}
use userspace_xdp.Tests.Maps.{empty_map}

-- the type IPv4 at 212, and TCP at 223
abbrev ipv4_frame : Mem
ipv4_frame i = if i == 212 then 8 else if i == 223 then 6 else 0

ipv4_frame-IsBytes : IsBytes ipv4_frame
ipv4_frame-IsBytes i = ground arith

ipv4_frame_type : get16 ipv4_frame 212 ≡ swab16 0x0800
unfolding get16 swab16
ipv4_frame_type = refl

abbrev icmpcnt : BpfMap (Unit {0}) ℕ ℕ
icmpcnt = empty_map

abbrev big : World (Unit {0})
big = record { data_start = 200; data_end = 400; mem = ipv4_frame; maps = tt }

abbrev target : IpMacPair
target = record { mac = ipv4_frame; ip = 167772161 }

-- one entry under every key
abbrev one_entry : {K V : Type 0} → BpfMap (Option V) K V
one_entry = record {
  lookup = λ s k. s;
  write = λ s k v. some v;
  update = λ s k v. some (some v);
  lookup-write = λ s k v v' e. refl;
  lookup-update = λ s s' k v e. cc;
}

abbrev segment : World (Option IpMacPair)
segment = record { data_start = 200; data_end = 298; mem = ipv4_frame; maps = some target }

picked-target : picked one_entry one_entry segment ≡ some target
unfolding picked
picked-target = elim (Bool-cases ((hash_and_sum ipv4_frame 200).xxhash64_res / 2 == 0)) [
  | inl e ↦ rw e refl
  | inr e ↦ rw e refl
]

balanced_example :
    (m : Mem) × (Balancer.xdp_pass one_entry one_entry segment
      ≡ some (tx, record segment { mem = m }))
    × (byte_sum m 214 20 ≅ 0)
    × (get32 m 230 ≡ swab32 167772161)
    × (get32 m 226 ≡ swab32 167772161)
    × (m 203 ≡ 0)
    × (m 209 ≡ 0)
balanced_example =
    balanced one_entry one_entry target target target segment 3 (omega arith) ipv4_frame-IsBytes
      ipv4_frame-IsBytes ipv4_frame-IsBytes (omega arith) (omega arith) refl refl refl picked-target

abbrev tunnel : IptnlInfo
tunnel = record { saddr = 1; daddr = 2; family = 2; dmac = ipv4_frame }

abbrev request : World (Option IptnlInfo)
request = record { data_start = 200; data_end = 298; mem = ipv4_frame; maps = some tunnel }

-- the port of the frame is 0
request_port : get_dport 234 6 request ≡ some (some 0, request)
unfolding get_dport load16 userspace_xdp.Xdp.pure userspace_xdp.Xdp.◌>>=◌ get16
request_port = refl

abbrev no_counters : BpfMap (Option IptnlInfo) ℕ ℕ
no_counters = empty_map

tunneled_example :
    (w' : World (Option IptnlInfo)) × (Tunnel.xdp_pass no_counters one_entry request
      ≡ some (tx, w'))
    × (w'.data_start + 20 ≡ 200)
    × (w'.data_end ≡ 298)
    × (w'.maps ≡ counted no_counters (some tunnel) 6)
    × ((i : ℕ) → i < 6 → w'.mem (w'.data_start + i) ≡ ipv4_frame i)
    × (get16 w'.mem (w'.data_start + 12) ≡ swab16 0x0800)
    × (w'.mem (w'.data_start + 14 + 9) ≡ 4)
    × ((i : ℕ) → 214 ≤ i → w'.mem i ≡ ipv4_frame i)
tunneled_example =
    tunneled no_counters one_entry 0 tunnel request (omega arith) (omega arith) ipv4_frame_type
      request_port refl refl
