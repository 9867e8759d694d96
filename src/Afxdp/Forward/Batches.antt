-- ===== src/Afxdp/Forward/Batches.antt =====
-- The loop over the received entries: what it writes, counts and runs the program on.
use userspace_xdp.Prelude.{
  ℕ, ◌+◌, ◌^◌, ◌<◌, ◌≡◌, refl, sym, ◌∙◌, ap, arith, true, false, List, [], ◌∷◌, ◌++◌, length, ◌==◌,
  if◌then◌else◌, Bool-cases, inl, inr, Bool,
}
use userspace_xdp.Afxdp.{Desc, Xsk, Handler}
use userspace_xdp.Afxdp.Forward.{Batch, process, forward_desc, forward_all}

-- the fragments of a packet that has not ended, after `n` such and the entries `ds`
unfoldable pub open_frags : ℕ → List Desc → ℕ
open_frags n [] = n
open_frags n (d ∷ ds) = open_frags (if d.contd then n + 1 else 0) ds

-- the entries that begin a packet
unfoldable pub first_frags : ℕ → List Desc → List Desc
first_frags n [] = []
first_frags n (d ∷ ds) =
    let rest = first_frags (if d.contd then n + 1 else 0) ds in if n == 0 then d ∷ rest else rest

pub append_nil {ℓ} : {A : Type ℓ} (xs : List A) → xs ++ [] ≡ xs
append_nil [] = refl
append_nil (x ∷ xs) = ap (λ l. x ∷ l) (append_nil xs)

pub append_assoc {ℓ} : {A : Type ℓ} (xs ys zs : List A) → (xs ++ ys) ++ zs ≡ xs ++ (ys ++ zs)
append_assoc [] ys zs = refl
append_assoc (x ∷ xs) ys zs = ap (λ l. x ∷ l) (append_assoc xs ys zs)

if-append :
    (c : Bool) (d : Desc) (xs ys : List Desc)
    → (if c then d ∷ (xs ++ ys) else xs ++ ys) ≡ (if c then d ∷ xs else xs) ++ ys
if-append true d xs ys = refl
if-append false d xs ys = refl

if_append :
    (c : Bool) (xs : List Desc) (d : Desc)
    → (if c then xs ++ (d ∷ []) else xs) ≡ xs ++ (if c then d ∷ [] else [])
if_append true xs d = refl
if_append false xs d = sym (append_nil xs)

pub open_frags-append :
    (n : ℕ) (xs ys : List Desc) → open_frags n (xs ++ ys) ≡ open_frags (open_frags n xs) ys
unfolding open_frags
open_frags-append n [] ys = refl
open_frags-append n (x ∷ xs) ys = open_frags-append (if x.contd then n + 1 else 0) xs ys

pub first_frags-append :
    (n : ℕ) (xs ys : List Desc)
    → first_frags n (xs ++ ys) ≡ first_frags n xs ++ first_frags (open_frags n xs) ys
unfolding first_frags open_frags
first_frags-append n [] ys = refl
first_frags-append n (x ∷ xs) ys =
    rw (first_frags-append (if x.contd then n + 1 else 0) xs ys) (if-append (n == 0) x _ _)

-- What the loop has done when it goes from `b` over `ds` to `b'`.
pub record Forwards (ds : List Desc) (b b' : Batch) : Type 0 where
  pub frags : b'.nb_frags ≡ open_frags b.nb_frags ds
  pub counted : b'.frags_done + b'.nb_frags ≡ b.frags_done + b.nb_frags + length ds
  pub wrote : b'.written ≡ b.written ++ ds
  pub started : b'.ran ≡ b.ran ++ first_frags b.nb_frags ds

module _ {K : Type 0} (x : Xsk K) (run : Handler) where
  pub forward_desc-Forwards :
      (d : Desc) (b : Batch)
      → b.frags_done + b.nb_frags + 1 < 2 ^ 32
      → Forwards (d ∷ []) b (forward_desc x run d b)
  unfolding forward_desc process open_frags first_frags
  forward_desc-Forwards d b h = record {
    frags = elim (Bool-cases d.contd) [ inl e ↦ rw e (omega arith) | inr e ↦ rw e refl ];
    counted = elim (Bool-cases d.contd) [ inl e ↦ rw e (omega arith) | inr e ↦ rw e (omega arith) ];
    wrote = elim (Bool-cases d.contd) [ inl e ↦ rw e refl | inr e ↦ rw e refl ];
    started = elim (Bool-cases d.contd) [
      | inl e ↦ rw e (if_append (b.nb_frags == 0) b.ran _)
      | inr e ↦ rw e (if_append (b.nb_frags == 0) b.ran _)
    ];
  }

  pub forward_all-Forwards :
      (ds : List Desc) (b : Batch)
      → b.frags_done + b.nb_frags + length ds < 2 ^ 32
      → Forwards ds b (forward_all x run ds b)
  unfolding forward_all open_frags
  forward_all-Forwards [] b h = record {
    frags = refl;
    counted = omega arith;
    wrote = sym (append_nil b.written);
    started = unfold first_frags in sym (append_nil b.ran);
  }
  forward_all-Forwards (d ∷ ds) b h =
      let one = forward_desc-Forwards d b (omega arith) in
      let rest = forward_all-Forwards ds (forward_desc x run d b) (omega (arith, one.counted)) in
      record {
        frags = rest.frags ∙ ap (λ n. open_frags n ds) one.frags;
        counted = omega (arith, rest.counted, one.counted);
        wrote = rest.wrote ∙ ap (λ l. l ++ ds) one.wrote ∙ append_assoc b.written (d ∷ []) ds;
        started =
            rw (rest.started, one.started, one.frags, first_frags-append b.nb_frags (d ∷ []) ds)
              (append_assoc b.ran (first_frags b.nb_frags (d ∷ []))
                (first_frags (open_frags b.nb_frags (d ∷ [])) ds));
      }
