-- ===== src/Dpdk/PortMap/RoundTrip.antt =====
-- What a printed configuration parses to.
use mathlib.Core.List.{append-nil, append_assoc}
use userspace_xdp.Prelude.{
  ℕ, zero, suc, ◌+◌, ◌%◌, ◌^◌, ◌≤◌, ◌<◌, ◌≡◌, refl, ap, ◌∙◌, arith, true, false, List, [], ◌∷◌,
  ◌++◌, length, length-append, Option, none, some, leb, ◌==◌,
}
use userspace_xdp.Dpdk.Ports.{PortPair}
use userspace_xdp.Dpdk.PortMap.{
  Text, max_ethports, pairs, strchr, read_field, read_pair, read_fields, parse_item, add_pair,
  close_bracket, open_bracket, parse_from, l2fwd_parse_port_pair_config,
}
use userspace_xdp.Dpdk.PortMap.Ends.{IsSmall}

-- `c` does not stand in a text
unfoldable pub IsFree : ℕ → Text → Type 0
IsFree c [] = Unit {0}
IsFree c (x ∷ t) = ((x == c) ≡ false) × IsFree c t

IsFree-append : (c : ℕ) (a b : Text) → IsFree c a → IsFree c b → IsFree c (a ++ b)
unfolding IsFree
IsFree-append c [] b h k = k
IsFree-append c (x ∷ a) b h k = (h.0, IsFree-append c a b h.1 k)

pub strchr-IsFree : (c : ℕ) (a b : Text) → IsFree c a → strchr c (a ++ (c ∷ b)) ≡ some (a, b)
unfolding IsFree strchr
strchr-IsFree c [] b h = let e : (c == c) ≡ true = ground arith in rw e refl
strchr-IsFree c (x ∷ a) b h = rw (h.0, strchr-IsFree c a b h.1) refl

strchr-none : (c : ℕ) (a : Text) → IsFree c a → strchr c a ≡ none
unfolding IsFree strchr
strchr-none c [] h = refl
strchr-none c (x ∷ a) h = rw (h.0, strchr-none c a h.1) refl

-- The library's functions on the text `num n` of a port: no bracket and no comma stands in it, it is
-- short and not empty, the number is read back, and a text with one comma has two fields.
pub record Reads (strsplit : Text → List Text) (strtoul : Text → Option ℕ) (num : ℕ → Text)
    : Type 0 where
  pub strtoul-num : (n : ℕ) → n < max_ethports → strtoul (num n) ≡ some n
  pub num-IsFree_comma : (n : ℕ) → n < max_ethports → IsFree b',' (num n)
  pub num-IsFree_bracket : (n : ℕ) → n < max_ethports → IsFree b')' (num n)
  pub length-num : (n : ℕ) → n < max_ethports → (0 < length (num n)) × (length (num n) ≤ 100)
  pub strsplit_fields :
      (a b : Text)
      → IsFree b',' a
      → IsFree b',' b
      → 0 < length b
      → strsplit (a ++ (b',' ∷ b)) ≡ a ∷ b ∷ []

module _ (num : ℕ → Text) where
  unfoldable pub print_item : PortPair → Text
  print_item p = num p.port0 ++ (b',' ∷ num p.port1)

  -- "(port,port)" for each pair
  unfoldable pub print : List PortPair → Text
  print [] = []
  print (p ∷ ps) = b'(' ∷ (print_item p ++ (b')' ∷ print ps))

module _ (strsplit : Text → List Text) (strtoul : Text → Option ℕ) (num : ℕ → Text)
    (reads : Reads strsplit strtoul num) where
  read_field-num : (n : ℕ) → n < max_ethports → read_field strsplit strtoul (num n) ≡ some n
  unfolding read_field
  read_field-num n h =
      let below : leb max_ethports n ≡ false = ground (arith, h) in
      rw (reads.strtoul-num n h, read_field, below) refl

  read_pair-some :
      (a b : Text) (n m : ℕ)
      → read_field strsplit strtoul a ≡ some n
      → read_field strsplit strtoul b ≡ some m
      → read_pair strsplit strtoul a b ≡ some (record { port0 = n % 2 ^ 16; port1 = m % 2 ^ 16 })
  unfolding read_pair
  read_pair-some a b n m q q' = rw (q, read_pair, q') refl

  item-IsFree :
      (p : PortPair)
      → p.port0 < max_ethports
      → p.port1 < max_ethports
      → IsFree b')' (print_item num p)
  unfolding print_item IsFree
  item-IsFree p h k =
      IsFree-append b')' (num p.port0) (b',' ∷ num p.port1) (reads.num-IsFree_bracket p.port0 h)
        (refl, reads.num-IsFree_bracket p.port1 k)

  parse_item-print_item :
      (p : PortPair)
      → p.port0 < max_ethports
      → p.port1 < max_ethports
      → parse_item strsplit strtoul (print_item num p) ≡ some p
  unfolding parse_item print_item read_fields read_pair
  parse_item-print_item p h k =
      let (n0, n1) = reads.length-num p.port0 h in
      let (m0, m1) = reads.length-num p.port1 k in
      let short : leb 256 (length (num p.port0 ++ (b',' ∷ num p.port1))) ≡ false =
        ground (arith, n1, m1, length-append (num p.port0) (b',' ∷ num p.port1)) in
      let fields =
        reads.strsplit_fields (num p.port0) (num p.port1) (reads.num-IsFree_comma p.port0 h)
          (reads.num-IsFree_comma p.port1 k) m0 in
      let low : p.port0 % 2 ^ 16 ≡ p.port0 = omega (arith, h) in
      let high : p.port1 % 2 ^ 16 ≡ p.port1 = omega (arith, k) in
      rw (short, fields)
        (read_pair-some (num p.port0) (num p.port1) p.port0 p.port1 (read_field-num p.port0 h)
            (read_field-num p.port1 k)
          ∙ rw (low, high) refl)

  parse_from-print :
      (ps acc : List PortPair) (pre : Text) (fuel : ℕ)
      → IsFree b'(' pre
      → length acc + length ps ≤ 16
      → IsSmall ps
      → length ps < fuel
      → parse_from strsplit strtoul fuel (pre ++ print num ps) acc ≡ pairs (acc ++ ps)
  unfolding parse_from print open_bracket close_bracket add_pair IsSmall IsFree
  parse_from-print ps acc pre zero h l s f = absurd (omega (arith, f))
  parse_from-print [] acc pre (suc fuel) h l s f =
      rw (append-nil pre, strchr-none b'(' pre h, append-nil acc) refl
  parse_from-print (p ∷ ps) acc pre (suc fuel) h l s f =
      let next = λ (t : Text) (a : List PortPair). (parse_from strsplit strtoul fuel t a) in
      let few : leb 16 (length acc) ≡ false = ground (arith, l) in
      let more : length (acc ++ (p ∷ [])) + length ps ≤ 16 =
        omega (arith, l, length-append acc (p ∷ [])) in
      let opened = strchr-IsFree b'(' pre (print_item num p ++ (b')' ∷ print num ps)) h in
      let closed = strchr-IsFree b')' (print_item num p) (print num ps) (item-IsFree p s.0 s.1) in
      ap (open_bracket strsplit strtoul next acc) opened
      ∙ ap (close_bracket strsplit strtoul next acc) closed
      ∙ ap (add_pair strsplit strtoul next acc (print num ps)) (parse_item-print_item p s.0 s.1)
      ∙ rw few (
          parse_from-print ps (acc ++ (p ∷ [])) (b')' ∷ []) fuel (refl, tt) more s.2
            (omega (arith, f))
          ∙ ap pairs (append_assoc acc (p ∷ []) ps))

  length-print : (ps : List PortPair) → length ps ≤ length (print num ps)
  unfolding print
  length-print [] = omega arith
  length-print (p ∷ ps) =
      omega (arith, length-print ps, length-append (print_item num p) (b')' ∷ print num ps))

  -- A configuration of at most sixteen pairs of ports that is printed as the option's help has it is read
  -- back by the parser.
  pub parse-print :
      (ps : List PortPair)
      → length ps ≤ 16
      → IsSmall ps
      → l2fwd_parse_port_pair_config strsplit strtoul (print num ps) ≡ pairs ps
  unfolding l2fwd_parse_port_pair_config IsFree
  parse-print ps l s =
      parse_from-print ps [] [] (suc (length (print num ps))) tt (omega (arith, l)) s
        (omega (arith, length-print ps))
