-- ===== src/Afxdp/Receive/Sockets/Kept.antt =====
-- What the rounds of `rx_drop` over several sockets do.
use userspace_xdp.Prelude.{
  ℕ, ◌+◌, ◌<◌, ◌==◌, Bool-cases, ◌≡◌, refl, sym, ◌∙◌, ap, subst, arith, Bool, true, false, not,
  ◌&&◌, List, [], ◌∷◌, ◌++◌, map, length, length-append, if◌then◌else◌, if-eq, inl, inr,
}
use userspace_xdp.Afxdp.{Desc, Xsk, Options, Socket, returns}
use userspace_xdp.Afxdp.Forward.Order.{>>=-eq-returns, returns_inj}
use userspace_xdp.Afxdp.Forward.Returns.{IsPatient, reserve_fq-Ends}
use userspace_xdp.Afxdp.Receive.{drop_all, rx_drop, Dropped, rx_drop-Dropped}
use userspace_xdp.Afxdp.Forward.{poll_rx}
use userspace_xdp.Afxdp.Receive.Sockets.{Poller, count_poll, drop_each, drop_round}

map_append : {A B : Type 0} (f : A → B) (xs ys : List A) → map f (xs ++ ys) ≡ map f xs ++ map f ys
map_append f [] ys = refl
map_append f (a ∷ xs) ys = ap (λ l. f a ∷ l) (map_append f xs ys)

module _ {K : Type 0} (x : Xsk K) (opt : Options) where
  -- every received entry is released, and its frame's address was given to the fill ring, in order
  pub record Kept (s : Socket K) : Type 0 where
    pub released : s.trace.released ≡ length s.trace.received
    pub filled : s.trace.filled ≡ map (λ d. x.extract_addr d.addr) s.trace.received

  Dropped-Kept : (s t : Socket K) → Dropped x opt s t → Kept s → Kept t
  Dropped-Kept s t d k =
      let add = λ (d : Desc). x.extract_addr d.addr in
      record {
        released =
            omega
              (arith, d.went, k.released, ap length d.came, length-append s.trace.received d.ds);
        filled =
            d.back
            ∙ ap (λ l. l ++ map add d.ds) k.filled
            ∙ sym (map_append add s.trace.received d.ds)
            ∙ sym (ap (map add) d.came);
      }

module _ {K : Type 0} (xsks : ℕ → Xsk K) (opt : Options) (p : Poller K) where
  -- the sockets from the number `i` on
  unfoldable pub AllKept : ℕ → List (Socket K) → Type 0
  AllKept i [] = Unit {0}
  AllKept i (s ∷ ss) = Kept (xsks i) opt s × AllKept (i + 1) ss

  drop_each-AllKept :
      (fuel i : ℕ) (k : K) (ss : List (Socket K)) (r : K × List (Socket K))
      → drop_each xsks opt p fuel i k ss ≡ returns r
      → AllKept i ss
      → AllKept i r.1
  unfolding drop_each AllKept
  drop_each-AllKept fuel i k [] r h a = subst (λ u. AllKept i u.1) (returns_inj h) tt
  drop_each-AllKept fuel i k (s ∷ ss) r h (a, later) =
      let s0 : Socket K = record s { kernel = k } in
      let (s1, e, b) = >>=-eq-returns (rx_drop (xsks i) opt fuel s0) _ h in
      let (rest, c, d) = >>=-eq-returns (drop_each xsks opt p fuel (i + 1) s1.kernel ss) _ b in
      let a0 : Kept (xsks i) opt s0 = record { released = a.released; filled = a.filled } in
      subst (λ u. AllKept i u.1) (returns_inj d)
        (
          Dropped-Kept (xsks i) opt s0 s1 (rx_drop-Dropped (xsks i) opt fuel s0 s1 e) a0,
          drop_each-AllKept fuel (i + 1) s1.kernel ss rest c later,
        )

  polled-AllKept :
      (c : Bool) (i : ℕ) (ss : List (Socket K))
      → AllKept i ss
      → AllKept i (if c then map count_poll ss else ss)
  unfolding AllKept count_poll
  polled-AllKept false i ss a = a
  polled-AllKept true i [] a = tt
  polled-AllKept true i (s ∷ ss) (a, later) =
      (record { released = a.released; filled = a.filled }, polled-AllKept true (i + 1) ss later)

  drop_round-AllKept :
      (fuel : ℕ) (k : K) (ss : List (Socket K)) (r : (K × List (Socket K)) × Bool)
      → drop_round xsks opt p fuel k ss ≡ returns r
      → AllKept 0 ss
      → AllKept 0 r.0.1
  unfolding drop_round
  drop_round-AllKept fuel k ss r h a =
      let k1 = if p.opt_poll then p.wait k else k in
      let polled = if p.opt_poll then map count_poll ss else ss in
      let a' = polled-AllKept p.opt_poll 0 ss a in
      elim (if-eq (p.opt_poll && not (p.is_ready k1)) _ _ h) [
        | inl (e, q) ↦ subst (λ u. AllKept 0 u.0.1) (returns_inj q) a'
        | inr (e, q) ↦
            let (ts, e', b) = >>=-eq-returns (drop_each xsks opt p fuel 0 k1 polled) _ q in
            subst (λ u. AllKept 0 u.0.1) (returns_inj b)
              (drop_each-AllKept fuel 0 k1 polled ts e' a')
      ]

module _ {K : Type 0} (x : Xsk K) (opt : Options) (patience : K → ℕ)
    (ok : IsPatient x patience) where
  rx_drop-returns :
      (fuel : ℕ) (s : Socket K)
      → patience s.kernel < fuel
      → (t : Socket K) × (rx_drop x opt fuel s ≡ returns t)
  unfolding rx_drop
  rx_drop-returns fuel s h =
      let q = x.peek_rx s.kernel opt.batch_size in
      let s1 : Socket K = record s { kernel = q.1 } in
      let keeps = ok.peek_rx_keeps s.kernel opt.batch_size in
      elim (Bool-cases (length q.0 == 0)) [
        | inl e ↦ (poll_rx x opt s1, rw e refl)
        | inr e ↦
            let granted =
              reserve_fq-Ends x opt patience ok fuel (length q.0) (patience s.kernel) s1
                (omega (arith, h, keeps)) keeps in
            (drop_all x q.0 granted.result, rw (e, granted.ended) refl)
      ]

module _ {K : Type 0} (xsks : ℕ → Xsk K) (opt : Options) (p : Poller K) (patience : K → ℕ)
    (ok : (i : ℕ) → IsPatient (xsks i) patience) where
  drop_each-returns :
      (fuel i : ℕ) (k : K) (ss : List (Socket K))
      → ((k : K) → patience k < fuel)
      → (r : K × List (Socket K)) × (drop_each xsks opt p fuel i k ss ≡ returns r)
  unfolding drop_each
  drop_each-returns fuel i k [] h = ((k, []), refl)
  drop_each-returns fuel i k (s ∷ ss) h =
      let (t, e) =
        rx_drop-returns (xsks i) opt patience (ok i) fuel (record s { kernel = k }) (h k) in
      let (r, es) = drop_each-returns fuel (i + 1) t.kernel ss h in
      ((r.0, t ∷ r.1), rw (e, es) refl)

  round_ends :
      (fuel : ℕ) (k : K) (ss : List (Socket K))
      → ((k : K) → patience k < fuel)
      → (r : (K × List (Socket K)) × Bool) × (drop_round xsks opt p fuel k ss ≡ returns r)
  unfolding drop_round
  round_ends fuel k ss h =
      let k1 = if p.opt_poll then p.wait k else k in
      let polled = if p.opt_poll then map count_poll ss else ss in
      let (ts, e) = drop_each-returns fuel 0 k1 polled h in
      elim (Bool-cases (p.opt_poll && not (p.is_ready k1))) [
        | inl c ↦ (((k1, polled), false), rw c refl)
        | inr c ↦ ((ts, p.benchmark_done ts.0), rw (c, e) refl)
      ]

  -- A round over the sockets, which share the kernel's state with its fill ring, returns if the kernel
  -- never refuses a reservation as often in succession as there is fuel. It keeps the account of every
  -- socket: each entry that a socket has received is released, and the address of its frame was given back
  -- to the fill ring, in the order of the socket's entries.
  pub drop_round-returns :
      (fuel : ℕ) (k : K) (ss : List (Socket K))
      → ((k : K) → patience k < fuel)
      → AllKept xsks opt p 0 ss
      → (r : (K × List (Socket K)) × Bool) × (drop_round xsks opt p fuel k ss ≡ returns r)
        × AllKept xsks opt p 0 r.0.1
  drop_round-returns fuel k ss h a =
      let (r, e) = round_ends fuel k ss h in (r, e, drop_round-AllKept xsks opt p fuel k ss r e a)
