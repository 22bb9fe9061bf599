-- ===== src/Segment/Malformed.antt =====
-- Segments that are not what the sender's functions write.
use mini_ltp.Prelude.{
  ℕ, suc, ◌+◌, ◌-◌, ◌/◌, ◌%◌, ◌≤◌, ◌<◌, ◌≡◌, List, [], ◌∷◌, length, All, false, arith, ok,
  over_read, ltb, ◌==◌, ◌||◌,
}
use mini_ltp.Sdnv.{u32, sub32, below_one, extract_small_sdnv}
use mini_ltp.Sdnv.Decode.{decode_sdnv_cut}
use mini_ltp.Segment.Outbound.{put_sdnv}
use mini_ltp.Segment.Inbound.{load_claims_array}
use mini_ltp.Segment.RoundTrip.{received, IsDatagram, IsDatagram-tail, extract_small_front, IsClaim}

-- A claim of the last byte below 2 ^ 32 and k bytes behind it is loaded where k is at most the
-- report's upper bound, though the claim does not lie within the report's bounds.
pub load_claims_array_wraps :
    (k lower upper : ℕ) (tail : List ℕ)
    → k ≤ upper
    → upper < u32 - 1
    → lower < u32
    → IsDatagram (put_sdnv (sub32 (u32 - 1) lower) (put_sdnv (suc k) tail))
    → (load_claims_array 1 lower upper
          (received (put_sdnv (sub32 (u32 - 1) lower) (put_sdnv (suc k) tail)))
        ≡ ok (record { offset = u32 - 1; length = suc k } ∷ [], received tail))
      × (¬ IsClaim lower upper (record { offset = u32 - 1; length = suc k }))
unfolding load_claims_array
load_claims_array_wraps k lower upper tail h u l d =
    let rest : List ℕ = put_sdnv (suc k) tail in
    let a : ℕ = sub32 (u32 - 1) lower in
    let start : (a + lower) % u32 ≡ u32 - 1 = omega arith in
    let loaded : (suc k == 0 || ltb upper ((u32 - 1 + suc k) % u32)) ≡ false = ground arith in
    (
      rw (
        extract_small_front a rest (omega arith) d,
        extract_small_front (suc k) tail (omega arith) (IsDatagram-tail a rest d),
        start,
        loaded,
      ),
      λ v. omega (arith, v.within),
    )

-- A datagram that ends within a number, nine bytes or fewer that all have the continuation bit,
-- makes the reader go on behind its last byte.
pub extract_small_sdnv_cut :
    (text : List ℕ)
    → All (λ b. b / 128 % 2 ≡ 1) text
    → 0 < length text
    → length text < 10
    → extract_small_sdnv (received text) ≡ over_read
unfolding extract_small_sdnv
extract_small_sdnv_cut text h p q =
    let some_left : below_one (length text) ≡ false = ground arith in
    rw (some_left, decode_sdnv_cut text h q)
