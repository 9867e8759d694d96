-- ===== src/Programs/Hash/Stored.antt =====
-- What the program stores, by the definition of XXH32, and what it does with every frame.
use userspace_xdp.Prelude.{
  ℕ, zero, suc, ◌+◌, ◌*◌, ◌/◌, ◌%◌, ◌^◌, leb, ◌==◌, ◌&&◌, Bool, swab16, bit_xor, Mem, get16, get32,
}
use userspace_xdp.Xdp.{World}
use userspace_xdp.Programs.Hash.{rotl}

-- The definition of XXH32 for an input of 60 bytes: four lanes, each over every fourth word of the
-- first 48 bytes, then the three words that are left, then the final mix. The primes are those of the
-- definition, in decimal.
unfoldable pub lane : Mem → ℕ → ℕ → ℕ → ℕ
lane m a acc zero = acc
lane m a acc (suc n) =
    lane m (a + 16) (rotl ((acc + get32 m a * 2246822519) % 2 ^ 32) 13 * 2654435761 % 2 ^ 32) n

abbrev merge : ℕ → ℕ → ℕ → ℕ → ℕ
merge v1 v2 v3 v4 = (rotl v1 1 + rotl v2 7 + rotl v3 12 + rotl v4 18) % 2 ^ 32

unfoldable pub add_word : ℕ → ℕ → ℕ
add_word h word = rotl ((h + word * 3266489917) % 2 ^ 32) 17 * 668265263 % 2 ^ 32

unfoldable pub final_mix : ℕ → ℕ
final_mix h =
    let h1 = bit_xor h (h / 2 ^ 15) * 2246822519 % 2 ^ 32 in
    let h2 = bit_xor h1 (h1 / 2 ^ 13) * 3266489917 % 2 ^ 32 in bit_xor h2 (h2 / 2 ^ 16) % 2 ^ 32

unfoldable pub xxh32_60 : Mem → ℕ → ℕ → ℕ
xxh32_60 m a seed =
    let v1 = lane m a ((seed + 606290984) % 2 ^ 32) 3 in
    let v2 = lane m (a + 4) ((seed + 2246822519) % 2 ^ 32) 3 in
    let v3 = lane m (a + 8) seed 3 in
    let v4 = lane m (a + 12) ((seed + 1640531535) % 2 ^ 32) 3 in
    let h = (merge v1 v2 v3 v4 + 60) % 2 ^ 32 in
    final_mix
      (add_word (add_word (add_word h (get32 m (a + 48))) (get32 m (a + 52))) (get32 m (a + 56)))

module _ {S : Type 0} where
  -- an IPv4 frame of 60 to 1200 bytes
  unfoldable pub is_hashed : World S → Bool
  is_hashed w =
      leb (w.data_start + 60) w.data_end
      && leb w.data_end (w.data_start + 1200)
      && get16 w.mem (w.data_start + 12) == swab16 0x0800
