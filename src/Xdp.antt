-- ===== src/Xdp.antt =====
-- A packet in memory and the commands of an XDP program on it.
-- An XDP program sees `struct xdp_md`: the addresses `data` and `data_end`. A read or a write
-- outside of [data, data_end) is a fault (`none`): the verifier refuses a program that can make it.
pub mod Mac
pub mod Steps
pub mod Helpers
pub mod Maps
use userspace_xdp.Prelude.{
  ℕ, ◌+◌, Bool, ◌&&◌, Option, none, some, leb, if◌then◌else◌, Mem, get16, get32, put8, put16, put32,
  copy,
}

-- `enum xdp_action`
pub data Action : Type 0 where
  aborted drop pass tx redirect : Action

-- `struct xdp_md` (its `data` and `data_end`), the memory behind it, and the program's maps.
pub record World (S : Type 0) : Type 0 where
  pub data_start : ℕ
  pub data_end : ℕ
  pub mem : Mem
  pub maps : S

abbrev pub M : Type 0 → Type 0 → Type 0
M S A = World S → Option (A × World S)

module _ {S : Type 0} where
  unfoldable pub pure : {A : Type 0} → A → M S A
  pure a w = some (a, w)

  infixl 5 ◌>>=◌ ◌>>◌
  unfoldable pub ◌>>=◌ : {A B : Type 0} → M S A → (A → M S B) → M S B
  ◌>>=◌ m f w = elim (m w) [ none ↦ none | some (a, w') ↦ f a w' ]

  unfoldable pub ◌>>◌ : {B : Type 0} → M S (Unit {0}) → M S B → M S B
  ◌>>◌ m k w = elim (m w) [ none ↦ none | some (_, w') ↦ k w' ]

  abbrev pub in_packet : World S → ℕ → ℕ → Bool
  in_packet w a n = leb w.data_start a && leb (a + n) w.data_end

  unfoldable pub load8 : ℕ → M S ℕ
  load8 a w = if in_packet w a 1 then some (w.mem a, w) else none

  unfoldable pub load16 : ℕ → M S ℕ
  load16 a w = if in_packet w a 2 then some (get16 w.mem a, w) else none

  unfoldable pub load32 : ℕ → M S ℕ
  load32 a w = if in_packet w a 4 then some (get32 w.mem a, w) else none

  unfoldable pub store8 : ℕ → ℕ → M S (Unit {0})
  store8 a v w = if in_packet w a 1 then some (tt, record w { mem = put8 w.mem a v }) else none

  unfoldable pub store16 : ℕ → ℕ → M S (Unit {0})
  store16 a v w = if in_packet w a 2 then some (tt, record w { mem = put16 w.mem a v }) else none

  unfoldable pub store32 : ℕ → ℕ → M S (Unit {0})
  store32 a v w = if in_packet w a 4 then some (tt, record w { mem = put32 w.mem a v }) else none

  -- `__builtin_memcpy` within the packet
  unfoldable pub move : ℕ → ℕ → ℕ → M S (Unit {0})
  move dst src n w =
      if in_packet w dst n && in_packet w src n
      then some (tt, record w { mem = copy w.mem dst src n })
      else none

  -- the whole memory, for the helpers that read a region which the program has checked
  unfoldable pub region : ℕ → ℕ → M S Mem
  region a n w = if in_packet w a n then some (w.mem, w) else none

  unfoldable pub get_maps : M S S
  get_maps w = some (w.maps, w)

  unfoldable pub put_maps : S → M S (Unit {0})
  put_maps s w = some (tt, record w { maps = s })
