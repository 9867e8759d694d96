-- ===== src/Dpdk/PortMap/Ends.antt =====
-- The parser of --portmap ends, and what it accepts.
use userspace_xdp.Prelude.{
  ℕ, zero, suc, ◌%◌, ◌^◌, ◌≤◌, ◌<◌, arith, Bool-cases, Option-cases, inl, inr, List, [], ◌∷◌, ◌++◌,
  length, length-append, Option, none, some, leb, ◌==◌, if◌then◌else◌,
}
use userspace_xdp.Dpdk.Ports.{PortPair}
use userspace_xdp.Dpdk.PortMap.{
  Text, max_ethports, Parsed, pairs, failed, out_of_fuel, strchr, read_field, read_pair,
  read_fields, parse_item, add_pair, close_bracket, open_bracket, parse_from,
  l2fwd_parse_port_pair_config,
}

-- what is behind the character that was found is shorter than `n`
unfoldable pub IsShorter : ℕ → Option (Text × Text) → Type 0
IsShorter n none = Unit {0}
IsShorter n (some (a, b)) = length b < n

IsShorter-longer :
    (x n : ℕ) (o : Option (Text × Text))
    → IsShorter n o
    → IsShorter
        (suc n)
        (elim o as (λ _. Option (Text × Text)) [ none ↦ none | some (a, b) ↦ some (x ∷ a, b) ])
unfolding IsShorter
IsShorter-longer x n none h = tt
IsShorter-longer x n (some (a, b)) h = omega (arith, h)

IsShorter-weaken : (m n : ℕ) (o : Option (Text × Text)) → m ≤ n → IsShorter m o → IsShorter n o
unfolding IsShorter
IsShorter-weaken m n none l h = tt
IsShorter-weaken m n (some (a, b)) l h = omega (arith, l, h)

strchr-IsShorter : (c : ℕ) (t : Text) → IsShorter (length t) (strchr c t)
unfolding strchr IsShorter
strchr-IsShorter c [] = tt
strchr-IsShorter c (x ∷ t) = elim (Bool-cases (x == c)) [
  | inl e ↦ rw e (omega arith)
  | inr e ↦ rw e (IsShorter-longer x (length t) (strchr c t) (strchr-IsShorter c t))
]

-- both ports of each pair are ports
unfoldable pub IsSmall : List PortPair → Type 0
IsSmall [] = Unit {0}
IsSmall (p ∷ ps) = (p.port0 < max_ethports) × (p.port1 < max_ethports) × IsSmall ps

-- an answer: a failure, or at most sixteen pairs of ports; not a lack of fuel

unfoldable pub IsAnswer : Parsed → Type 0
IsAnswer (pairs ps) = (length ps ≤ 16) × IsSmall ps
IsAnswer failed = Unit {0}
IsAnswer out_of_fuel = 1 ≤ 0

IsSmall-append :
    (ps : List PortPair) (p : PortPair)
    → IsSmall ps
    → p.port0 < max_ethports
    → p.port1 < max_ethports
    → IsSmall (ps ++ (p ∷ []))
unfolding IsSmall
IsSmall-append [] p h a b = (a, b, tt)
IsSmall-append (q ∷ ps) p h a b = (h.0, h.1, IsSmall-append ps p h.2 a b)

-- both are ports
unfoldable pub IsPair : Option PortPair → Type 0
IsPair none = Unit {0}
IsPair (some p) = (p.port0 < max_ethports) × (p.port1 < max_ethports)

unfoldable pub IsPort : Option ℕ → Type 0
IsPort none = Unit {0}
IsPort (some n) = n < max_ethports

below_limit : (n : ℕ) → IsPort (if leb max_ethports n then none else some n)
unfolding IsPort
below_limit n = elim (Bool-cases (leb max_ethports n)) [
  | inl e ↦ rw e tt
  | inr e ↦ rw e (ground (arith, e))
]

both_ports :
    (n m : Option ℕ)
    → IsPort n
    → IsPort m
    → IsPair (elim n as (λ _. Option PortPair) [
      | none ↦ none
      | some n' ↦ elim m as (λ _. Option PortPair) [
        | none ↦ none
        | some m' ↦ some (record { port0 = n' % 2 ^ 16; port1 = m' % 2 ^ 16 })
      ]
    ])
unfolding IsPair IsPort
both_ports none m h k = tt
both_ports (some n) none h k = tt
both_ports (some n) (some m) h k = (omega (arith, h), omega (arith, k))

module _ (strsplit : Text → List Text) (strtoul : Text → Option ℕ) where
  read_field-IsPort : (a : Text) → IsPort (read_field strsplit strtoul a)
  unfolding read_field IsPort
  read_field-IsPort a = elim (Option-cases (strtoul a)) [
    | inl q ↦ rw (q, read_field) tt
    | inr (n, q) ↦ rw (q, read_field) (below_limit n)
  ]

  read_fields-IsPair : (fs : List Text) → IsPair (read_fields strsplit strtoul fs)
  unfolding read_fields read_pair IsPair
  read_fields-IsPair [] = tt
  read_fields-IsPair (a ∷ []) = tt
  read_fields-IsPair (a ∷ b ∷ []) =
      both_ports (read_field strsplit strtoul a) (read_field strsplit strtoul b)
        (read_field-IsPort a) (read_field-IsPort b)
  read_fields-IsPair (a ∷ b ∷ c ∷ fs) = tt

  parse_item-IsPair : (s : Text) → IsPair (parse_item strsplit strtoul s)
  unfolding parse_item
  parse_item-IsPair s = elim (Bool-cases (leb 256 (length s))) [
    | inl e ↦ rw e (unfold IsPair in tt)
    | inr e ↦ rw e (read_fields-IsPair (strsplit s))
  ]

  -- what the next round does with a text of fewer than `n` characters
  abbrev Next : (Text → List PortPair → Parsed) → ℕ → Type 0
  Next next n =
      (t : Text) (acc : List PortPair)
      → length t < n
      → length acc ≤ 16
      → IsSmall acc
      → IsAnswer (next t acc)

  add_pair-IsAnswer :
      (next : Text → List PortPair → Parsed) (n : ℕ) (acc : List PortPair) (behind : Text)
      (o : Option PortPair)
      → Next next n
      → suc (length behind) < n
      → IsSmall acc
      → IsPair o
      → IsAnswer (add_pair strsplit strtoul next acc behind o)
  unfolding add_pair IsPair IsAnswer
  add_pair-IsAnswer next n acc behind none k l s h = tt
  add_pair-IsAnswer next n acc behind (some p) k l s h = elim (Bool-cases (leb 16 (length acc))) [
    | inl e ↦ rw e tt
    | inr e ↦
        let fits : length (acc ++ (p ∷ [])) ≤ 16 = ground (arith, e, length-append acc (p ∷ [])) in
        rw e (
          k (b')' ∷ behind) (acc ++ (p ∷ [])) (omega (arith, l)) fits
            (IsSmall-append acc p s h.0 h.1))
  ]

  close_bracket-IsAnswer :
      (next : Text → List PortPair → Parsed) (n m : ℕ) (acc : List PortPair)
      (o : Option (Text × Text))
      → Next next n
      → m < n
      → IsShorter m o
      → IsSmall acc
      → IsAnswer (close_bracket strsplit strtoul next acc o)
  unfolding close_bracket IsShorter IsAnswer
  close_bracket-IsAnswer next n m acc none k g l s = tt
  close_bracket-IsAnswer next n m acc (some (a, b)) k g l s =
      add_pair-IsAnswer next n acc b (parse_item strsplit strtoul a) k (omega (arith, g, l)) s
        (parse_item-IsPair a)

  open_bracket-IsAnswer :
      (next : Text → List PortPair → Parsed) (n : ℕ) (acc : List PortPair)
      (o : Option (Text × Text))
      → Next next n
      → IsShorter n o
      → length acc ≤ 16
      → IsSmall acc
      → IsAnswer (open_bracket strsplit strtoul next acc o)
  unfolding open_bracket IsShorter IsAnswer
  open_bracket-IsAnswer next n acc none k l f s = (f, s)
  open_bracket-IsAnswer next n acc (some (a, p)) k l f s =
      close_bracket-IsAnswer next n (length p) acc (strchr b')' p) k l (strchr-IsShorter b')' p) s

  parse_from-IsAnswer :
      (fuel : ℕ) (t : Text) (acc : List PortPair)
      → length t < fuel
      → length acc ≤ 16
      → IsSmall acc
      → IsAnswer (parse_from strsplit strtoul fuel t acc)
  unfolding parse_from
  parse_from-IsAnswer zero t acc f l s = absurd (omega (arith, f))
  parse_from-IsAnswer (suc fuel) t acc f l s =
      open_bracket-IsAnswer (λ t' acc'. parse_from strsplit strtoul fuel t' acc') fuel acc
        (strchr b'(' t) (λ t' acc'. parse_from-IsAnswer fuel t' acc')
        (IsShorter-weaken (length t) fuel (strchr b'(' t) (omega (arith, f))
          (strchr-IsShorter b'(' t))
        l s

  -- The parser of --portmap ends on every text, whatever the library's two functions do: it fails, or it
  -- gives at most sixteen pairs, and every number in them is below RTE_MAX_ETHPORTS.
  pub parse-IsAnswer :
      (q_arg : Text) → IsAnswer (l2fwd_parse_port_pair_config strsplit strtoul q_arg)
  unfolding l2fwd_parse_port_pair_config IsSmall
  parse-IsAnswer q_arg =
      parse_from-IsAnswer (suc (length q_arg)) q_arg [] (omega arith) (omega arith) tt
