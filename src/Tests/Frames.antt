-- ===== src/Tests/Frames.antt =====
-- The programs that use no maps at concrete frames.
use userspace_xdp.Prelude.{
  ℕ, zero, suc, ◌≡◌, ◌≢◌, refl, arith, ◌==◌, true, some, if◌then◌else◌, Mem, IsBytes, swab16, get16,
}
use userspace_xdp.Xdp.{World, tx}
use userspace_xdp.Runtime.Csum.ByteSum.{◌≅◌, byte_sum}
use userspace_xdp.Programs.Ping
use userspace_xdp.Programs.Ping.{
  is_long_icmp, Answered, xdp_pass-Answered, ipv4_payload, ipv4_payload_len, xdp_pass-verifies,
  xdp_pass_no_check,
}
use userspace_xdp.Programs.Hash
use userspace_xdp.Programs.Balancer.{IpMacPair}
use userspace_xdp.Programs.Acl.{my_mac, mac}

-- at 100 an Ethernet header of type IPv4, and an IPv4 header with the protocol `protocol`
abbrev bytes : ℕ → Mem
bytes protocol i = if i == 112 then 8 else if i == 113 then 0 else if i == 123 then protocol else 7

abbrev echo : World (Unit {0})
echo = record { data_start = 100; data_end = 198; mem = bytes 1; maps = tt }

abbrev segment : World (Unit {0})
segment = record { data_start = 100; data_end = 198; mem = bytes 6; maps = tt }

echo-IsBytes : IsBytes echo.mem
echo-IsBytes i = ground arith

xdp_pass-Answered_example : Answered echo (Ping.xdp_pass echo)
xdp_pass-Answered_example = xdp_pass-Answered echo echo-IsBytes

-- the same with a total length of 84 and no options
abbrev whole : World (Unit {0})
whole = record echo {
  mem = λ i. if i == 114 then 69 else if i == 116 then 0 else if i == 117 then 84 else bytes 1 i;
}

whole-IsBytes : IsBytes whole.mem
whole-IsBytes i = ground arith

whole-is_long_icmp : is_long_icmp whole ≡ true
unfolding is_long_icmp get16 swab16
whole-is_long_icmp = refl

whole_length : swab16 (get16 whole.mem 116) ≡ 84
unfolding get16 swab16
whole_length = refl

xdp_pass-verifies_example :
    (w' : World (Unit {0})) × (Ping.xdp_pass whole ≡ some (tx, w'))
    × (byte_sum w'.mem (ipv4_payload w'.mem 100) (ipv4_payload_len w'.mem 100) ≅ 0)
xdp_pass-verifies_example =
    xdp_pass-verifies whole whole-IsBytes whole-is_long_icmp refl whole_length

abbrev pair : IpMacPair
pair = record { mac = λ i. i; ip = 167772161 }

my_mac-ne-zero : (k : ℕ) → my_mac k ≢ 0
unfolding my_mac mac
my_mac-ne-zero zero e = omega (arith, e)
my_mac-ne-zero (suc zero) e = omega (arith, e)
my_mac-ne-zero (suc (suc zero)) e = omega (arith, e)
my_mac-ne-zero (suc (suc (suc zero))) e = omega (arith, e)
my_mac-ne-zero (suc (suc (suc (suc zero)))) e = omega (arith, e)
my_mac-ne-zero (suc (suc (suc (suc (suc n))))) e = omega (arith, e)
