-- ===== src/Tests/Rings.antt =====
-- the programs that write to a ring buffer, at concrete frames
use userspace_xdp.Prelude.{
  ◌≡◌, refl, arith, ◌==◌, true, if◌then◌else◌, some, List, [], ◌∷◌, Mem, IsBytes, get16,
}
use userspace_xdp.Xdp.{World, tx, pass}
use userspace_xdp.Xdp.Mac.{swap_mem}
use userspace_xdp.Programs.Classify.{flag}
use userspace_xdp.Programs.Observer.{Event, is_tcp, event_of, xdp_pass, observed}

-- at 100 an Ethernet, an IPv4 and a TCP header with the flags SYN and ACK
abbrev bytes : Mem
bytes i =
    if i == 112
    then 8
    else if i == 113
    then 0
    else if i == 123
    then 6
    else if i == 147
    then 18
    else 1

abbrev segment : World (List Event)
segment = record { data_start = 100; data_end = 160; mem = bytes; maps = [] }

bytes-IsBytes : IsBytes bytes
bytes-IsBytes i = ground arith

abbrev log : List Event → Event → List Event
log es e = e ∷ es

acknowledged : (event_of bytes 100).ack ≡ 1
unfolding event_of flag
acknowledged = refl

segment-is_tcp : is_tcp segment ≡ true
unfolding is_tcp get16
segment-is_tcp = refl

observed_example : xdp_pass log segment ≡ (
    if is_tcp segment
    then some (tx, record segment { mem = swap_mem bytes 100; maps = event_of bytes 100 ∷ [] })
    else some (pass, segment))
observed_example = observed log segment bytes-IsBytes
