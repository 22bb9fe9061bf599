-- ===== src/Sdnv/Length.antt =====
-- The length of an encoding grows with the value.
use mini_ltp.Prelude.{ℕ, zero, suc, ◌+◌, ◌-◌, ◌/◌, ◌≤◌, ◌<◌, ◌≡◌, refl, arith}
use mini_ltp.Sdnv.{u64, u32, sdnv_length, sdnv_length_loop}

le-sdnv_length_loop : (f r n : ℕ) → n ≤ sdnv_length_loop f r n
unfolding sdnv_length_loop
le-sdnv_length_loop zero r n = omega arith
le-sdnv_length_loop (suc f) r n = ground (arith, le-sdnv_length_loop f (r / 128) (n + 1))

sdnv_length_loop_mono : (f a b n : ℕ) → a ≤ b → sdnv_length_loop f a n ≤ sdnv_length_loop f b n
unfolding sdnv_length_loop
sdnv_length_loop_mono zero a b n h = omega arith
sdnv_length_loop_mono (suc f) a b n h = ground (
  arith,
  le-sdnv_length_loop f (b / 128) (n + 1),
  sdnv_length_loop_mono f (a / 128) (b / 128) (n + 1) (omega arith),
)

pub sdnv_length_mono : (a b : ℕ) → a ≤ b → sdnv_length a ≤ sdnv_length b
unfolding sdnv_length
sdnv_length_mono a b h = sdnv_length_loop_mono 10 a b 0 h

sdnv_length-pos : (v : ℕ) → 1 ≤ sdnv_length v
unfolding sdnv_length sdnv_length_loop
sdnv_length-pos v = ground (arith, le-sdnv_length_loop 9 (v / 128) 1)

largest32 : sdnv_length (u32 - 1) ≡ 5
unfolding sdnv_length sdnv_length_loop
largest32 = refl

largest64 : sdnv_length (u64 - 1) ≡ 10
unfolding sdnv_length sdnv_length_loop
largest64 = refl

-- An unsigned int takes at most five bytes, a uvast at most ten.
pub sdnv_length_small : (v : ℕ) → v < u32 → sdnv_length v ≤ 5
sdnv_length_small v h = omega (arith, sdnv_length_mono v (u32 - 1) (omega arith), largest32)

pub sdnv_length_large : (v : ℕ) → v < u64 → sdnv_length v ≤ 10
sdnv_length_large v h = omega (arith, sdnv_length_mono v (u64 - 1) (omega arith), largest64)
