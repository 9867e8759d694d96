-- ===== src/Dpdk/PortMap.antt =====
-- dpdk/main.c: the text of the option --portmap, "(port,port)" again and again. `rte_strsplit` belongs to
-- DPDK and `strtoul` to the C library.
pub mod Ends
pub mod RoundTrip
use userspace_xdp.Prelude.{
  ℕ, zero, suc, ◌+◌, ◌%◌, ◌^◌, List, [], ◌∷◌, ◌++◌, length, Option, none, some, leb, ◌==◌,
  if◌then◌else◌,
}
use userspace_xdp.Dpdk.Ports.{PortPair}

abbrev pub Text : Type 0
Text = List ℕ

-- RTE_MAX_ETHPORTS
abbrev pub max_ethports : ℕ
max_ethports = 32

pub data Parsed : Type 0 where
  pairs : List PortPair → Parsed
  failed : Parsed
  out_of_fuel : Parsed

-- what stands in front of the first `c` and what behind it
unfoldable pub strchr : ℕ → Text → Option (Text × Text)
strchr c [] = none
strchr c (x ∷ t) =
    let rest = strchr c t in
    if x == c then some ([], t) else elim rest [ none ↦ none | some (a, b) ↦ some (x ∷ a, b) ]

-- `strsplit` gives at most two fields of a text, between commas; `strtoul` the number that a field
-- begins with, or `none` if there is none or errno is set.
module _ (strsplit : Text → List Text) (strtoul : Text → Option ℕ) where
  unfoldable pub read_field : Text → Option ℕ
  read_field t = elim (strtoul t) [
    | none ↦ none
    | some n ↦ if leb max_ethports n then none else some n
  ]

  unfoldable pub read_pair : Text → Text → Option PortPair
  read_pair a b = elim (read_field a) [
    | none ↦ none
    | some n ↦ elim (read_field b) [
      | none ↦ none
      | some m ↦ some (record { port0 = n % 2 ^ 16; port1 = m % 2 ^ 16 })
    ]
  ]

  unfoldable pub read_fields : List Text → Option PortPair
  read_fields (a ∷ b ∷ []) = read_pair a b
  read_fields _ = none

  -- the text between two brackets, in the buffer `s` of 256 characters
  unfoldable pub parse_item : Text → Option PortPair
  parse_item s = if leb 256 (length s) then none else read_fields (strsplit s)

  -- One round of the loop: the opening bracket, the closing one, and the pair between them. `acc` is
  -- port_pair_params_array so far, and `next` the next round, from the closing bracket on.
  unfoldable pub add_pair :
      (Text → List PortPair → Parsed) → List PortPair → Text → Option PortPair → Parsed
  add_pair next acc behind none = failed
  add_pair next acc behind (some pair) =
      if leb 16 (length acc) then failed else next (b')' ∷ behind) (acc ++ (pair ∷ []))

  unfoldable pub close_bracket :
      (Text → List PortPair → Parsed) → List PortPair → Option (Text × Text) → Parsed
  close_bracket next acc none = failed
  close_bracket next acc (some (s, behind)) = add_pair next acc behind (parse_item s)

  unfoldable pub open_bracket :
      (Text → List PortPair → Parsed) → List PortPair → Option (Text × Text) → Parsed
  open_bracket next acc none = pairs acc
  open_bracket next acc (some (_, p)) = close_bracket next acc (strchr b')' p)

  -- `t` is the text from p0 on
  unfoldable pub parse_from : ℕ → Text → List PortPair → Parsed
  parse_from zero t acc = out_of_fuel
  parse_from (suc fuel) t acc =
      let next = λ (t' : Text) (acc' : List PortPair). parse_from fuel t' acc' in
      open_bracket next acc (strchr b'(' t)

  unfoldable pub l2fwd_parse_port_pair_config : Text → Parsed
  l2fwd_parse_port_pair_config q_arg = parse_from (suc (length q_arg)) q_arg []
