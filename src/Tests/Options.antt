-- ===== src/Tests/Options.antt =====
-- the command line of dpdk/main.c at concrete texts
use userspace_xdp.Prelude.{
  ℕ, ◌+◌, ◌-◌, ◌*◌, ◌/◌, ◌%◌, ◌≤◌, ◌<◌, ◌≡◌, refl, arith, true, false, Bool-cases, inl, inr, List,
  [], ◌∷◌, ◌++◌, length, Option, none, some, ltb, if◌then◌else◌,
}
use userspace_xdp.Dpdk.Ports.{PortPair}
use userspace_xdp.Dpdk.PortMap.{
  Text, max_ethports, pairs, failed, strchr, close_bracket, open_bracket, parse_from,
  l2fwd_parse_port_pair_config,
}
use userspace_xdp.Dpdk.PortMap.Ends.{IsSmall, IsAnswer, parse-IsAnswer}
use userspace_xdp.Dpdk.PortMap.RoundTrip.{IsFree, strchr-IsFree, Reads, print, parse-print}
use userspace_xdp.Dpdk.Options.{
  Opt, nqueue, portmap, AllLimited, l2fwd_parse_args, l2fwd_parse_args-AllLimited,
}

-- one or two decimal digits
unfoldable num : ℕ → Text
num n = if ltb n 10 then (48 + n) ∷ [] else (48 + n / 10) ∷ (48 + n % 10) ∷ []

unfoldable strtoul : Text → Option ℕ
strtoul (a ∷ []) = some (a - 48)
strtoul (a ∷ b ∷ []) = some (10 * (a - 48) + (b - 48))
strtoul _ = none

fields : Option (Text × Text) → Text → List Text
fields none t = t ∷ []
fields (some (a, b)) t = a ∷ b ∷ []

unfoldable strsplit : Text → List Text
unfolding fields
strsplit t = fields (strchr b',' t) t

strtoul-num_lem : (n : ℕ) → n < max_ethports → strtoul (num n) ≡ some n
unfolding strtoul num
strtoul-num_lem n h = elim (Bool-cases (ltb n 10)) [
  | inl e ↦ let r : 48 + n - 48 ≡ n = omega arith in rw (e, r) refl
  | inr e ↦ let r : 10 * (48 + n / 10 - 48) + (48 + n % 10 - 48) ≡ n = omega arith in rw (e, r) refl
]

num-IsFree : (c n : ℕ) → c < 48 → n < max_ethports → IsFree c (num n)
unfolding num IsFree
num-IsFree c n k h = elim (Bool-cases (ltb n 10)) [
  | inl e ↦ rw e (ground (arith, k), tt)
  | inr e ↦ rw e (ground (arith, k), (ground (arith, k), tt))
]

length-num_lem : (n : ℕ) → (0 < length (num n)) × (length (num n) ≤ 100)
unfolding num
length-num_lem n = elim (Bool-cases (ltb n 10)) [
  | inl e ↦ rw e (omega arith, omega arith)
  | inr e ↦ rw e (omega arith, omega arith)
]

strsplit_fields_lem : (a b : Text) → IsFree b',' a → strsplit (a ++ (b',' ∷ b)) ≡ a ∷ b ∷ []
unfolding strsplit fields
strsplit_fields_lem a b h = rw (strchr-IsFree b',' a b h) refl

reads : Reads strsplit strtoul num
reads = record {
  strtoul-num = strtoul-num_lem;
  num-IsFree_comma = λ n h. num-IsFree b',' n (omega arith) h;
  num-IsFree_bracket = λ n h. num-IsFree b')' n (omega arith) h;
  length-num = λ n h. length-num_lem n;
  strsplit_fields = λ a b h k l. strsplit_fields_lem a b h;
}

abbrev two_pairs : List PortPair
two_pairs = record { port0 = 0; port1 = 13 } ∷ record { port0 = 2; port1 = 1 } ∷ []

parse-print_example :
    l2fwd_parse_port_pair_config strsplit strtoul (print num two_pairs) ≡ pairs two_pairs
unfolding IsSmall
parse-print_example =
    parse-print strsplit strtoul num reads two_pairs (omega arith)
      (omega arith, omega arith, (omega arith, omega arith, tt))

-- "(0,13"
abbrev unclosed : Text
unclosed = b'(' ∷ b'0' ∷ b',' ∷ b'1' ∷ b'3' ∷ []

refused : l2fwd_parse_port_pair_config strsplit strtoul unclosed ≡ failed
unfolding l2fwd_parse_port_pair_config parse_from open_bracket close_bracket strchr
refused = refl

parse-IsAnswer_example : IsAnswer (l2fwd_parse_port_pair_config strsplit strtoul unclosed)
parse-IsAnswer_example = parse-IsAnswer strsplit strtoul unclosed

abbrev command_line : List Opt
command_line =
    nqueue (record { value = 4; negative = false; whole = true })
    ∷ portmap (b'(' ∷ b'1' ∷ b',' ∷ b'2' ∷ b')' ∷ [])
    ∷ []

l2fwd_parse_args-AllLimited_example : AllLimited (l2fwd_parse_args strsplit strtoul command_line)
l2fwd_parse_args-AllLimited_example = l2fwd_parse_args-AllLimited strsplit strtoul command_line
