-- ===== src/Xdp/Steps.antt =====
-- One command at a time: what each command does where it stays inside the packet.
use userspace_xdp.Prelude.{
  ℕ, ◌+◌, ◌≤◌, ◌≡◌, refl, arith, Bool, true, false, Option, some, none, if◌then◌else◌, get16, get32,
  put8, put16, put32, copy,
}
use userspace_xdp.Xdp.{
  World, M, pure, ◌>>=◌, ◌>>◌, load8, load16, load32, store8, store16, store32, region, move,
  get_maps, put_maps,
}

module _ {S A B : Type 0} where
  pub bind_step :
      (m : M S A) (f : A → M S B) {w w' : World S} {a : A} {r : Option (B × World S)}
      → m w ≡ some (a, w')
      → f a w' ≡ r
      → (m >>= f) w ≡ r
  unfolding ◌>>=◌
  bind_step m f e k = rw (e, ◌>>=◌) k

  pub bind_fault : (m : M S A) (f : A → M S B) {w : World S} → m w ≡ none → (m >>= f) w ≡ none
  unfolding ◌>>=◌
  bind_fault m f e = rw (e, ◌>>=◌)

module _ {S B : Type 0} where
  pub then_step :
      (m : M S (Unit {0})) (k : M S B) {w w' : World S} {u : Unit {0}} {r : Option (B × World S)}
      → m w ≡ some (u, w')
      → k w' ≡ r
      → (m >> k) w ≡ r
  unfolding ◌>>◌
  then_step m k e h = rw (e, ◌>>◌) h

-- the branch that is taken
module _ {S A : Type 0} where
  pub if_true :
      (b : Bool) (m k : M S A) (w : World S) {r : Option (A × World S)}
      → b ≡ true
      → m w ≡ r
      → (if b then m else k) w ≡ r
  if_true b m k w e h = rw e h

  pub if_false :
      (b : Bool) (m k : M S A) (w : World S) {r : Option (A × World S)}
      → b ≡ false
      → k w ≡ r
      → (if b then m else k) w ≡ r
  if_false b m k w e h = rw e h

  pub pure_step : (a : A) (w : World S) → pure a w ≡ some (a, w)
  unfolding pure
  pure_step a w = refl

module _ {S : Type 0} (a : ℕ) (w : World S) where
  pub load8_step : w.data_start ≤ a → a + 1 ≤ w.data_end → load8 a w ≡ some (w.mem a, w)
  unfolding load8
  load8_step l u = ground arith

  pub store8_step :
      (v : ℕ)
      → w.data_start ≤ a
      → a + 1 ≤ w.data_end
      → store8 a v w ≡ some (tt, record w { mem = put8 w.mem a v })
  unfolding store8
  store8_step v l u = ground arith

  pub load16_step : w.data_start ≤ a → a + 2 ≤ w.data_end → load16 a w ≡ some (get16 w.mem a, w)
  unfolding load16
  load16_step l u = ground arith

  pub store16_step :
      (v : ℕ)
      → w.data_start ≤ a
      → a + 2 ≤ w.data_end
      → store16 a v w ≡ some (tt, record w { mem = put16 w.mem a v })
  unfolding store16
  store16_step v l u = ground arith

  pub load32_step : w.data_start ≤ a → a + 4 ≤ w.data_end → load32 a w ≡ some (get32 w.mem a, w)
  unfolding load32
  load32_step l u = ground arith

  pub store32_step :
      (v : ℕ)
      → w.data_start ≤ a
      → a + 4 ≤ w.data_end
      → store32 a v w ≡ some (tt, record w { mem = put32 w.mem a v })
  unfolding store32
  store32_step v l u = ground arith

module _ {S : Type 0} where
  pub move_step :
      (dst src n : ℕ) (w : World S)
      → w.data_start ≤ dst
      → dst + n ≤ w.data_end
      → w.data_start ≤ src
      → src + n ≤ w.data_end
      → move dst src n w ≡ some (tt, record w { mem = copy w.mem dst src n })
  unfolding move
  move_step dst src n w l u l' u' = ground arith

  pub get_maps_step : (w : World S) → get_maps w ≡ some (w.maps, w)
  unfolding get_maps
  get_maps_step w = refl

  pub put_maps_step : (s : S) (w : World S) → put_maps s w ≡ some (tt, record w { maps = s })
  unfolding put_maps
  put_maps_step s w = refl

module _ {S : Type 0} where
  pub region_step :
      (a n : ℕ) (w : World S)
      → w.data_start ≤ a
      → a + n ≤ w.data_end
      → region a n w ≡ some (w.mem, w)
  unfolding region
  region_step a n w l u = ground arith
