-- ===== src/Afxdp/Forward/Order.antt =====
-- What holds after any number of rounds of `l2fwd`: the packets leave whole, in the order and with
-- the lengths in which they came, and each frame's buffer is accounted for.
use userspace_xdp.Prelude.{
  ℕ, zero, suc, ◌+◌, ◌%◌, ◌^◌, ◌≤◌, ◌<◌, ◌≡◌, refl, sym, ◌∙◌, ap, ap₂, subst, arith, Bool, ◌||◌,
  List, ◌++◌, length, length-append, leb, ltb, ◌==◌, if◌then◌else◌, Bool-cases, inl, inr, if-eq,
}
use userspace_xdp.Afxdp.{
  Desc, Xsk, Options, Socket, Stats, Run, returns, exits, waits, ◌>>=◌, Handler,
}
use userspace_xdp.Afxdp.Complete.{
  kick_tx, poll_fill, reserve_fq, give_back, kick_copy, refill, complete_tx_l2fwd, wake_tx,
}
use userspace_xdp.Afxdp.Forward.{forward_all, reserve_tx, poll_rx, open_batch, finish}
use userspace_xdp.Afxdp.Forward.Batches.{
  open_frags, first_frags, open_frags-append, first_frags-append, forward_all-Forwards,
}

-- A bind that returns ran both of its parts.
pub >>=-eq-returns :
    {A B : Type 0} (m : Run A) (f : A → Run B) {b : B}
    → (m >>= f) ≡ returns b
    → (a : A) × (m ≡ returns a) × (f a ≡ returns b)
>>=-eq-returns (returns a) f h = (a, refl, h)
>>=-eq-returns exits f h = cc
>>=-eq-returns waits f h = cc

pub returns_inj : {A : Type 0} {a b : A} → returns a ≡ returns b → a ≡ b
returns_inj h = cc

-- A call changes at most the kernel's state and the counters.
pub record Same {K : Type 0} (s t : Socket K) : Type 0 where
  pub same_mem : t.mem ≡ s.mem
  pub same_out : t.outstanding_tx ≡ s.outstanding_tx
  pub same_frags : t.nb_frags ≡ s.nb_frags
  pub same_trace : t.trace ≡ s.trace

-- The accounts of one socket.
pub record Inv {K : Type 0} (n : ℕ) (s : Socket K) : Type 0 where
  -- every received entry is written to the send ring, unchanged and in order
  pub in_order : s.trace.written ≡ s.trace.received
  -- the entries submitted and released are those of the packets that have ended
  pub whole : s.trace.submitted + open_frags 0 s.trace.received ≡ length s.trace.received
  pub freed : s.trace.released ≡ s.trace.submitted
  pub kept : s.nb_frags ≡ open_frags 0 s.trace.received
  -- the program ran once for each packet, at its first entry
  pub once : s.trace.ran ≡ first_frags 0 s.trace.received
  -- every completed frame went back to the fill ring
  pub refilled : s.trace.filled ≡ s.trace.completed
  pub acked : s.trace.cq_released ≡ length s.trace.completed
  -- the frames on their way are those submitted and not completed
  pub balance : (s.outstanding_tx + length s.trace.completed) % 2 ^ 32 ≡ s.trace.submitted % 2 ^ 32
  -- a batch of `n` more entries does not make the count of fragments wrap around
  pub room : s.nb_frags + n < 2 ^ 32

Same-refl : {K : Type 0} (s : Socket K) → Same s s
Same-refl s = record { same_mem = refl; same_out = refl; same_frags = refl; same_trace = refl }

pub Same-trans : {K : Type 0} {s t u : Socket K} → Same s t → Same t u → Same s u
Same-trans a b = record {
  same_mem = b.same_mem ∙ a.same_mem;
  same_out = b.same_out ∙ a.same_out;
  same_frags = b.same_frags ∙ a.same_frags;
  same_trace = b.same_trace ∙ a.same_trace;
}

pub Same-Inv : {K : Type 0} {n : ℕ} {s t : Socket K} → Same s t → Inv n s → Inv n t
Same-Inv {t = t} e i = record {
  in_order = rw e.same_trace i.in_order;
  whole = rw e.same_trace i.whole;
  freed = rw e.same_trace i.freed;
  kept = rw (e.same_trace, e.same_frags) i.kept;
  once = rw e.same_trace i.once;
  refilled = rw e.same_trace i.refilled;
  acked = rw e.same_trace i.acked;
  balance = rw (e.same_trace, e.same_out) i.balance;
  room = rw e.same_frags i.room;
}

module _ {K : Type 0} where
  pub kernel-Same : (s : Socket K) (k : K) → Same s (record s { kernel = k })
  kernel-Same s k = record {
    same_mem = refl;
    same_out = refl;
    same_frags = refl;
    same_trace = refl;
  }

  stats-Same : (s : Socket K) (k : K) (c : Stats) → Same s (record s { kernel = k; stats = c })
  stats-Same s k c = record {
    same_mem = refl;
    same_out = refl;
    same_frags = refl;
    same_trace = refl;
  }

module _ {K : Type 0} (x : Xsk K) where
  pub kick_tx-Same : {s t : Socket K} → kick_tx x s ≡ returns t → Same s t
  unfolding kick_tx
  kick_tx-Same {s} h = elim (Bool-cases (x.sendto s.kernel).0) [
    | inl e ↦ absurd (cc (rw e at h))
    | inr e ↦ subst (Same s) (returns_inj (rw e at h)) (kernel-Same s _)
  ]

  pub wake_tx-Same : (w : Bool) {s t : Socket K} → wake_tx x w s ≡ returns t → Same s t
  unfolding wake_tx
  wake_tx-Same w {s} h = elim (Bool-cases (w || x.tx_needs_wakeup s.kernel)) [
    | inl e ↦ Same-trans (stats-Same s s.kernel _) (kick_tx-Same (rw e at h))
    | inr e ↦ subst (Same s) (returns_inj (rw e at h)) (Same-refl s)
  ]

  give_back-Inv :
      {n : ℕ} (addrs : List ℕ) (s : Socket K)
      → length addrs ≤ s.outstanding_tx
      → Inv n s
      → Inv n (give_back x addrs s)
  unfolding give_back
  give_back-Inv addrs s l i = record {
    in_order = i.in_order;
    whole = i.whole;
    freed = i.freed;
    kept = i.kept;
    once = i.once;
    refilled = ap (λ l. l ++ addrs) i.refilled;
    acked = omega (arith, i.acked, length-append s.trace.completed addrs);
    balance = omega (arith, i.balance, l, length-append s.trace.completed addrs);
    room = i.room;
  }

module _ {K : Type 0} (x : Xsk K) (opt : Options) where
  poll_fill-Same : (s : Socket K) → Same s (poll_fill x opt s)
  unfolding poll_fill
  poll_fill-Same s = elim (Bool-cases (opt.busy_poll || x.fq_needs_wakeup s.kernel)) [
    | inl e ↦ rw e (stats-Same s _ _)
    | inr e ↦ rw e (Same-refl s)
  ]

  pub reserve_fq-Same :
      (fuel n : ℕ) (s t : Socket K) → reserve_fq x opt fuel n s ≡ returns t → Same s t
  unfolding reserve_fq
  reserve_fq-Same zero n s t h = absurd (cc)
  reserve_fq-Same (suc fuel) n s t h =
      let r = x.reserve_fq s.kernel n in
      let s' : Socket K = record s { kernel = r.1 } in
      let go = kernel-Same s r.1 in
      let rest = reserve_fq-Same fuel n (poll_fill x opt s') t in
      elim (Bool-cases (r.0 == n)) [
        | inl e ↦ subst (Same s) (returns_inj (rw e at h)) go
        | inr e ↦ elim (Bool-cases (leb (2 ^ 31) r.0)) [
          | inl e' ↦ absurd (cc (rw (e, e') at h))
          | inr e' ↦ Same-trans go (Same-trans (poll_fill-Same s') (rest (rw (e, e') at h)))
        ]
      ]

  kick_copy-Same : {s t : Socket K} → kick_copy x opt s ≡ returns t → Same s t
  unfolding kick_copy
  kick_copy-Same {s} h = elim (Bool-cases opt.copy_mode) [
    | inl e ↦ Same-trans (stats-Same s s.kernel _) (kick_tx-Same x (rw e at h))
    | inr e ↦ subst (Same s) (returns_inj (rw e at h)) (Same-refl s)
  ]

  refill-Inv : (n fuel : ℕ) (s t : Socket K) → refill x opt fuel s ≡ returns t → Inv n s → Inv n t
  unfolding refill
  refill-Inv n fuel s t h i =
      let nd = if ltb opt.batch_size s.outstanding_tx then opt.batch_size else s.outstanding_tx in
      let p = x.peek_cq s.kernel nd in
      let s' : Socket K = record s { kernel = p.1 } in
      let i' = Same-Inv {s = s} {t = s'} (kernel-Same s p.1) i in
      elim (if-eq (length p.0 == 0) _ _ h) [
        | inl (e, k) ↦ subst (Inv n) (returns_inj k) i'
        | inr (e, k) ↦
            let (s2, k1, k2) = >>=-eq-returns (reserve_fq x opt fuel (length p.0) s') _ k in
            let same = reserve_fq-Same fuel (length p.0) s' s2 k1 in
            let l : length p.0 ≤ s2.outstanding_tx =
              ground (arith, x.length-peek_cq s.kernel nd, same.same_out) in
            subst (Inv n) (returns_inj k2) (give_back-Inv x p.0 s2 l (Same-Inv same i'))
      ]

  -- Taking completed frames back keeps the accounts.
  pub complete_tx_l2fwd-Inv :
      (n fuel : ℕ) (s t : Socket K) → complete_tx_l2fwd x opt fuel s ≡ returns t → Inv n s → Inv n t
  unfolding complete_tx_l2fwd
  complete_tx_l2fwd-Inv n fuel s t h i = elim (if-eq (s.outstanding_tx == 0) _ _ h) [
    | inl (e, k) ↦ subst (Inv n) (returns_inj k) i
    | inr (e, k) ↦
        let (s1, h1, h2) = >>=-eq-returns (kick_copy x opt s) _ k in
        refill-Inv n fuel s1 t h2 (Same-Inv (kick_copy-Same h1) i)
  ]

  pub poll_rx-Same : (s : Socket K) → Same s (poll_rx x opt s)
  unfolding poll_rx
  poll_rx-Same s = elim (Bool-cases (opt.busy_poll || x.fq_needs_wakeup s.kernel)) [
    | inl e ↦ rw e (stats-Same s _ _)
    | inr e ↦ rw e (Same-refl s)
  ]

  pub reserve_tx-Inv :
      (n fuel c : ℕ) (s t : Socket K) → reserve_tx x opt fuel c s ≡ returns t → Inv n s → Inv n t
  unfolding reserve_tx
  reserve_tx-Inv n zero c s t h i = absurd (cc)
  reserve_tx-Inv n (suc fuel) c s t h i =
      let r = x.reserve_tx s.kernel c in
      let s' : Socket K = record s { kernel = r.1 } in
      let i' = Same-Inv (kernel-Same s r.1) i in
      elim (if-eq (r.0 == c) _ _ h) [
        | inl (e, k) ↦ subst (Inv n) (returns_inj k) i'
        | inr (e, k) ↦ elim (if-eq (leb (2 ^ 31) r.0) _ _ k) [
          | inl (e', k') ↦ absurd (cc)
          | inr (e', k') ↦
              let (s1, a, b) = >>=-eq-returns (complete_tx_l2fwd x opt fuel s') _ k' in
              let (s2, w, u) = >>=-eq-returns (wake_tx x opt.busy_poll s1) _ b in
              reserve_tx-Inv n fuel c s2 t u (
                Same-Inv (wake_tx-Same x opt.busy_poll w) (complete_tx_l2fwd-Inv n fuel s' s1 a i'))
        ]
      ]

module _ {K : Type 0} (x : Xsk K) (run : Handler) where
  pub finish-Inv :
      (n : ℕ) (ds : List Desc) (s : Socket K)
      → length ds ≤ n
      → (forward_all x run ds (open_batch s)).nb_frags + n < 2 ^ 32
      → Inv n s
      → Inv n (finish x ds (forward_all x run ds (open_batch s)) s)
  unfolding finish open_batch
  finish-Inv n ds s l r i =
      let f = forward_all-Forwards x run ds (open_batch s) (omega (arith, l, i.room)) in
      let o : open_frags 0 (s.trace.received ++ ds) ≡ open_frags s.nb_frags ds =
        open_frags-append 0 s.trace.received ds ∙ ap (λ n. open_frags n ds) (sym i.kept) in
      record {
        in_order = ap₂ (λ a b. a ++ b) i.in_order f.wrote;
        whole =
            omega
              (arith, f.counted, f.frags, o, i.whole, i.kept, length-append s.trace.received ds);
        freed = omega (arith, i.freed);
        kept = f.frags ∙ sym o;
        once =
            ap₂ (λ a b. a ++ b) i.once f.started
            ∙ sym (
                first_frags-append 0 s.trace.received ds
                ∙ ap (λ n. first_frags 0 s.trace.received ++ first_frags n ds) (sym i.kept));
        refilled = i.refilled;
        acked = i.acked;
        balance = omega (arith, i.balance);
        room = r;
      }
