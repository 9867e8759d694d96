-- ===== src/Programs/Fwadm/Blocks.antt =====
-- What the firewall does after a run of the tool: both sides of the two lists, through the maps.
use userspace_xdp.Prelude.{
  ℕ, zero, suc, ◌+◌, ◌≤◌, ◌<◌, ◌≡◌, ◌≢◌, refl, ap, ◌∙◌, arith, Bool, true, false, List, [], ◌∷◌,
  Option, none, some, get_elem?, swab16, swab16-lt, get16, get32,
}
use userspace_xdp.Xdp.{tx, drop, World}
use userspace_xdp.Xdp.Maps.{BpfMap, increment}
use userspace_xdp.Xdp.Mac.{swap_mem}
use userspace_xdp.Programs.Firewall.{
  FlowKey, ipv4_key, VrrpFilter, ParsePkt, count_total, count_drop, xdp_pass,
}
use userspace_xdp.Programs.Firewall.Parse.{parsed}
use userspace_xdp.Programs.Firewall.Filter.{IsCounted, listed, unlisted, denied}
use userspace_xdp.Programs.Fwadm.{
  Text, Parsed, System, initial, is_empty, make_key, vrrp_rule, zero_stats, replicate, after,
  change_rule, xdpfw_rule, xdpfw_vrid, xdpfw_action, set_option, set_options, parse_cmdline,
  Command, rule_add, rule_del, vrid_del,
}

-- The maps as the program sees them on the processor `cpu`: an update gives the value of that
-- processor, and a deleted key has none.
pub record Seen (S : Type 0) (sys : System S) (l3 : BpfMap S FlowKey ℕ)
    (vrrp : BpfMap S ℕ VrrpFilter) (cpu : ℕ) : Type 0 where
  pub lookup-update_rule :
      (s s' : S) (k : FlowKey) (vs : List ℕ) (noexist : Bool)
      → sys.rules.update s k vs noexist ≡ some s'
      → l3.lookup s' k ≡ get_elem? vs cpu
  pub lookup-delete_rule :
      (s s' : S) (k : FlowKey) → sys.rules.delete s k ≡ some s' → l3.lookup s' k ≡ none
  pub lookup-update_vrid :
      (s s' : S) (k : ℕ) (vs : List VrrpFilter) (noexist : Bool)
      → sys.vrids.update s k vs noexist ≡ some s'
      → vrrp.lookup s' k ≡ get_elem? vs cpu

-- the command line with one option
unfoldable pub one_option : ℕ → Text → List Parsed
one_option c arg = record { c = c; long_with_arg = false; optarg = arg } ∷ []

get-replicate : {A : Type 0} (n i : ℕ) (a : A) → i < n → get_elem? (replicate n a) i ≡ some a
unfolding replicate
get-replicate zero i a h = absurd (omega arith)
get-replicate (suc n) zero a h = refl
get-replicate (suc n) (suc i) a h = get-replicate n i a (omega arith)

-- A frame with an IPv4 header for the address `a`.
unfoldable pub IsTo : {S : Type 0} → World S → ParsePkt → ℕ → Type 0
IsTo w p a =
    (parsed w ≡ some p)
    × (p.l3_proto ≡ 0x0800)
    × (get32 w.mem (w.data_start + p.l3_offset + 16) ≡ a)

-- a filter that nothing was counted in, after one frame that is dropped
first :
    (len : ℕ)
    → len < 65536
    → count_drop len (count_total len (zero_stats 0)) ≡ record {
      action = 0;
      drop_packets = 1;
      total_packets = 1;
      drop_bytes = len;
      total_bytes = len;
    }
unfolding count_drop count_total zero_stats increment
first len h = ground (arith, h)

-- the list's entry for a frame's destination
at_frame :
    {S : Type 0} (l3 : BpfMap S FlowKey ℕ) (w : World S) (p : ParsePkt) (a : ℕ) (s : S)
    (o : Option ℕ)
    → w.maps ≡ s
    → IsTo w p a
    → l3.lookup s (ipv4_key a) ≡ o
    → l3.lookup w.maps (ipv4_key (get32 w.mem (w.data_start + p.l3_offset + 16))) ≡ o
unfolding IsTo
at_frame l3 w p a s o m t h =
    ap (λ x. l3.lookup x (ipv4_key (get32 w.mem (w.data_start + p.l3_offset + 16)))) m
    ∙ ap (λ x. l3.lookup s (ipv4_key x)) t.2
    ∙ h

module _ {S : Type 0} (sys : System S) (l3 : BpfMap S FlowKey ℕ) (vrrp : BpfMap S ℕ VrrpFilter)
    (cpu : ℕ) (seen : Seen S sys l3 vrrp cpu) where
  rule_run :
      (act : Command) (ip : Text) (words : ℕ × ℕ × ℕ × ℕ) (s : S)
      → sys.has_colon ip ≡ false
      → sys.inet_pton false ip ≡ some words
      → sys.opens 0 ≡ true
      → xdpfw_rule sys act ip s ≡ change_rule sys act (ipv4_key words.0) s
  unfolding xdpfw_rule make_key
  rule_run act ip words s c i o = rw (c, i, xdpfw_rule, c, o) refl

  -- After the tool has added an IPv4 address to the list, which gives the key a value on this processor,
  -- the program drops every frame to the address whose headers are whole.
  pub added :
      (ip : Text) (words : ℕ × ℕ × ℕ × ℕ) (n : ℕ) (s s' : S) (w : World S) (p : ParsePkt)
      → sys.has_colon ip ≡ false
      → sys.inet_pton false ip ≡ some words
      → sys.opens 0 ≡ true
      → sys.rules.update s (ipv4_key words.0) sys.stack true ≡ some s'
      → get_elem? sys.stack cpu ≡ some n
      → w.maps ≡ (parse_cmdline sys (one_option b'a' ip) s).1
      → IsTo w p words.0
      → IsCounted l3 vrrp w p
      → (s'' : S) × (xdp_pass l3 vrrp w ≡ some (drop, record w { maps = s'' }))
  unfolding parse_cmdline set_options set_option is_empty initial one_option xdpfw_action
      change_rule after IsTo
  added ip words n s s' w p c i o u g m t k =
      let ran : w.maps ≡ s' = m ∙ ap (after s) (rule_run rule_add ip words s c i o ∙ u) in
      let there = seen.lookup-update_rule s s' (ipv4_key words.0) sys.stack true u ∙ g in
      let (s'', r, _) =
        listed l3 vrrp w p n t.0 t.1 k (at_frame l3 w p words.0 s' (some n) ran t there) in
      (s'', r)

  -- After the tool has taken an IPv4 address off the list, the program sends back every frame to the
  -- address that is neither VRRP nor has an authentication header, and writes no map.
  pub removed :
      (ip : Text) (words : ℕ × ℕ × ℕ × ℕ) (s s' : S) (w : World S) (p : ParsePkt)
      → sys.has_colon ip ≡ false
      → sys.inet_pton false ip ≡ some words
      → sys.opens 0 ≡ true
      → sys.rules.delete s (ipv4_key words.0) ≡ some s'
      → w.maps ≡ (parse_cmdline sys (one_option b'd' ip) s).1
      → IsTo w p words.0
      → w.data_start + 14 ≤ w.data_end
      → w.data_start + p.l3_offset + 20 ≤ w.data_end
      → w.mem (w.data_start + p.l3_offset + 9) ≢ 112
      → w.mem (w.data_start + p.l3_offset + 9) ≢ 51
      → xdp_pass l3 vrrp w ≡ some (tx, record w { mem = swap_mem w.mem w.data_start })
  unfolding parse_cmdline set_options set_option is_empty initial one_option xdpfw_action
      change_rule after IsTo
  removed ip words s s' w p c i o d m t l k v a =
      let ran : w.maps ≡ s' = m ∙ ap (after s) (rule_run rule_del ip words s c i o ∙ d) in
      let gone = seen.lookup-delete_rule s s' (ipv4_key words.0) d in
      unlisted l3 vrrp w p l t.0 t.1 k v a (at_frame l3 w p words.0 s' none ran t gone)

  vrid_run :
      (act : Command) (vrid : ℕ) (s : S)
      → sys.opens 1 ≡ true
      → xdpfw_vrid sys act vrid s
        ≡ sys.vrids.update s vrid (replicate sys.nr_cpus (vrrp_rule act)) false
  unfolding xdpfw_vrid
  vrid_run act vrid s o = rw o refl

  -- After the tool has taken a VRID off its list, the program drops the next frame of VRRP of that
  -- router, to a destination that is not on the other list, and its counters are those of that frame.
  pub vrid_denied :
      (number : Text) (s s' : S) (w : World S) (p : ParsePkt)
      → sys.opens 1 ≡ true
      → cpu < sys.nr_cpus
      → sys.vrids.update s (sys.atoi number) (replicate sys.nr_cpus (zero_stats 0)) false ≡ some s'
      → w.maps ≡ (parse_cmdline sys (one_option b'D' number) s).1
      → parsed w ≡ some p
      → p.l3_proto ≡ 0x0800
      → w.data_start + p.l3_offset + 28 ≤ w.data_end
      → w.mem (w.data_start + p.l3_offset + 9) ≡ 112
      → w.mem (w.data_start + p.l3_offset + 21) ≡ sys.atoi number
      → l3.lookup w.maps (ipv4_key (get32 w.mem (w.data_start + p.l3_offset + 16))) ≡ none
      → (s'' : S) × (xdp_pass l3 vrrp w ≡ some (drop, record w { maps = s'' }))
        × (vrrp.lookup s'' (w.mem (w.data_start + p.l3_offset + 21)) ≡ (
            let len = swab16 (get16 w.mem (w.data_start + p.l3_offset + 2)) in
            some (record {
              action = 0;
              drop_packets = 1;
              total_packets = 1;
              drop_bytes = len;
              total_bytes = len;
            })))
  unfolding parse_cmdline set_options set_option is_empty initial one_option xdpfw_action after
      vrrp_rule zero_stats
  vrid_denied number s s' w p o q u m e f l v r h =
      let ran : w.maps ≡ s' = m ∙ ap (after s) (vrid_run vrid_del (sys.atoi number) s o ∙ u) in
      let there =
        seen.lookup-update_vrid s s' (sys.atoi number) (replicate sys.nr_cpus (zero_stats 0)) false
          u
        ∙ get-replicate sys.nr_cpus cpu (zero_stats 0) q in
      let found : vrrp.lookup w.maps (w.mem (w.data_start + p.l3_offset + 21))
          ≡ some (zero_stats 0) =
        ap (λ x. vrrp.lookup x (w.mem (w.data_start + p.l3_offset + 21))) ran
        ∙ ap (vrrp.lookup s') r
        ∙ there in
      let (s'', d, k) = denied l3 vrrp w p (zero_stats 0) e f l v h found refl in
      let len = swab16 (get16 w.mem (w.data_start + p.l3_offset + 2)) in
      (s'', d, k ∙ ap some (first len (swab16-lt _)))
