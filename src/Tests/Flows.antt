-- ===== src/Tests/Flows.antt =====
-- The programs with maps at concrete flows.
use userspace_xdp.Prelude.{
  ℕ, ◌≡◌, ◌≢◌, refl, arith, ◌==◌, ◌&&◌, Bool, true, Option, none, some, Mem, leb, ltb,
  if◌then◌else◌, put8, get16, get32, swab16, inl, inr,
}
use userspace_xdp.Xdp.{World, M, tx, pure, ◌>>◌}
use userspace_xdp.Xdp.Maps.{BpfMap}
use userspace_xdp.Programs.Redirect.{
  FlowCtxTableKey, FlowCtxTableLeaf, a_port, b_port, biflow, new_flow, xdp_pass,
}
use userspace_xdp.Programs.Redirect.Frames.{IsFlow, flow_of, IsAnswer, Opened, answered}
use userspace_xdp.Tests.Maps.{function_map, put}

same_refl : (n : ℕ) → (n == n) ≡ true
same_refl n = ground arith

abbrev same_flow : FlowCtxTableKey → FlowCtxTableKey → Bool
same_flow a b =
    a.ip_proto == b.ip_proto
    && a.l4_src == b.l4_src
    && a.l4_dst == b.l4_dst
    && a.ip_src == b.ip_src
    && a.ip_dst == b.ip_dst

same_flow_refl : (k : FlowCtxTableKey) → same_flow k k ≡ true
same_flow_refl k = ground arith

abbrev FlowState : Type 0
FlowState = FlowCtxTableKey → Option FlowCtxTableLeaf

abbrev flows : BpfMap FlowState FlowCtxTableKey FlowCtxTableLeaf
unfolding function_map
flows = function_map same_flow same_flow_refl

-- at 100 a frame of TCP over IPv4 from 1.1.1.1, port 0x0101, to 2.2.2.2, port 0x0202
abbrev request_bytes : Mem
request_bytes i =
    if i == 112
    then 8
    else if i == 113
    then 0
    else if i == 123
    then 6
    else if leb 126 i && ltb i 130
    then 1
    else if leb 130 i && ltb i 134
    then 2
    else if leb 134 i && ltb i 136
    then 1
    else 2

-- the frame that answers it
abbrev answer_bytes : Mem
answer_bytes i =
    if i == 112
    then 8
    else if i == 113
    then 0
    else if i == 123
    then 6
    else if leb 126 i && ltb i 130
    then 2
    else if leb 130 i && ltb i 134
    then 1
    else if leb 134 i && ltb i 136
    then 2
    else 1

abbrev request : World FlowState
request = record { data_start = 100; data_end = 198; mem = request_bytes; maps = λ _. none }

abbrev one_flow : FlowState
unfolding put
one_flow = put same_flow (λ _. none) (biflow (flow_of request)) new_flow

abbrev answer : World FlowState
answer = record { data_start = 100; data_end = 198; mem = answer_bytes; maps = one_flow }

other_port : 6 ≢ b_port
other_port = λ e. omega (arith, e)

-- the redirect leaves the number of the port in front of the frame
abbrev redirect : ℕ → ℕ → M FlowState (Unit {0})
redirect map key w = some (tt, record w { mem = put8 w.mem 99 key })

request-IsFlow : IsFlow request
unfolding get16 swab16
request-IsFlow = record { room = omega arith; ipv4 = refl; transport = inl refl }

answer-IsFlow : IsFlow answer
unfolding get16 swab16
answer-IsFlow = record { room = omega arith; ipv4 = refl; transport = inl refl }

answer-IsAnswer : IsAnswer request answer
unfolding get16 get32
answer-IsAnswer = record { protocol = refl; source = refl; dest = refl; saddr = refl; daddr = refl }

opened : Opened flows redirect 1 (biflow (flow_of request)) request.maps one_flow a_port
unfolding flows one_flow put
opened = inr (refl, refl, refl)

answered_example :
    (xdp_pass flows (some redirect) 1 6 request
      ≡ (redirect 1 b_port >> pure tx) (record request { maps = one_flow }))
    × (xdp_pass flows (some redirect) 1 b_port answer ≡ (redirect 1 a_port >> pure tx) answer)
answered_example =
    answered flows redirect 1 6 request answer one_flow a_port other_port request-IsFlow
      answer-IsFlow answer-IsAnswer opened refl

abbrev numbers : {V : Type 0} → BpfMap (ℕ → Option V) ℕ V
unfolding function_map
numbers = function_map (λ a b. a == b) same_refl

abbrev sizes : World (ℕ → Option ℕ)
sizes = record { data_start = 100; data_end = 198; mem = λ _. 0; maps = λ _. none }
