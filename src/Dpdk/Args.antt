-- ===== src/Dpdk/Args.antt =====
-- dpdk/main.c: the numbers among the arguments. `strtoul` and `strtol` belong to the C library: what
-- they read of a text is a parameter, a number with whether it is negative, and whether the whole of a
-- text that is not empty was read.
use userspace_xdp.Prelude.{
  ℕ, ◌-◌, ◌%◌, ◌^◌, Bool, not, Option, none, some, leb, ◌==◌, if◌then◌else◌,
}

-- what `strtoul` or `strtol` has read
pub record Number : Type 0 where
  pub value : ℕ
  pub negative : Bool
  pub whole : Bool

-- the mask as an `int`, modulo 2 ^ 32; 0 stands for an invalid mask
unfoldable pub l2fwd_parse_portmask : Number → ℕ
l2fwd_parse_portmask n = if not n.whole then 0 else n.value % 2 ^ 32

-- MAX_RX_QUEUE_PER_LCORE and MAX_TIMER_PERIOD
abbrev pub max_rx_queue_per_lcore : ℕ
max_rx_queue_per_lcore = 16

abbrev pub max_timer_period : ℕ
max_timer_period = 86400

unfoldable pub l2fwd_parse_nqueue : Number → ℕ
l2fwd_parse_nqueue n =
    if not n.whole
    then 0
    else if n.value == 0
    then 0
    else if leb max_rx_queue_per_lcore n.value
    then 0
    else n.value

-- `none` is a negative number, -1 or what was read; the caller refuses each of them. The result of
-- `strtol` becomes an `int`, so it is read modulo 2 ^ 32.
unfoldable pub l2fwd_parse_timer_period : Number → Option ℕ
l2fwd_parse_timer_period n =
    let low = n.value % 2 ^ 32 in
    let int = (if n.negative then 2 ^ 32 - low else low) % 2 ^ 32 in
    if not n.whole
    then none
    else if leb (2 ^ 31) int
    then none
    else if leb max_timer_period int
    then none
    else some int
