-- ===== src/Import/Premature.antt =====
-- An end of the red part that comes after segments behind it.
use mini_ltp.Prelude.{ℕ, ◌+◌, ◌^◌, ◌≤◌, ◌<◌, ◌≡◌, refl, [], ◌∷◌, true, false, ltb, ◌==◌, arith}
use mini_ltp.Claims.{add32}
use mini_ltp.Reception.{
  RecvSeg, ImportSession, insert_data_segment, insert_segment, is_whole, is_beyond_red_part,
  seg_upper_bound, search_place, is_free, overlaps_previous, overlaps_next,
}
use mini_ltp.Reception.Disjoint.{received}
use mini_ltp.Import.{note_end_of_red_part, is_end_of_red_part}

-- Of a red part of unknown length a segment of `k` bytes has been received, far on.
abbrev early : ImportSession → ℕ → ℕ → ImportSession
early session start k = record session {
  red_part_length = 0;
  red_part_received = k;
  red_segments = record { offset = start; length = k } ∷ [];
}

-- The end of the red part that follows: `n` bytes from the offset `k` on.
abbrev end_at : ℕ → ℕ → RecvSeg
end_at k n = record { offset = k; length = n }

module _ (session : ImportSession) (start k n : ℕ) where
  abbrev both : ImportSession
  both = record session {
    red_part_length = 0;
    red_part_received = add32 k n;
    red_segments = end_at k n ∷ record { offset = start; length = k } ∷ [];
  }

  accepted :
      0 < k
      → 0 < n
      → k + n ≤ start
      → start + k < 2 ^ 31
      → insert_data_segment false (early session start k) (end_at k n) ≡ (both, k + n)
  unfolding insert_data_segment is_beyond_red_part seg_upper_bound search_place is_free
      overlaps_previous overlaps_next insert_segment
  accepted p q h i =
      let same : (start == k) ≡ false = ground arith in
      let before : ltb k start ≡ true = ground arith in
      let upper : add32 k n ≡ k + n = omega arith in
      let apart : ltb start (k + n) ≡ false = ground arith in rw (same, before, upper, apart)

  abbrev pub after_end : ℕ → ImportSession
  after_end limit =
      note_end_of_red_part limit 2 (k + n)
        (insert_data_segment false (early session start k) (end_at k n)).0

  -- A segment of k bytes has been received that starts behind the red part, and the end of the red
  -- part then comes with the n bytes before k + n. The segment is accepted, and the test for
  -- reception of the whole red part holds, though the first byte has not been received.
  pub is_whole_premature :
      (limit : ℕ)
      → 0 < k
      → 0 < n
      → k + n ≤ start
      → start + k < 2 ^ 31
      → (is_whole (after_end limit) ≡ true)
        × ((after_end limit).red_part_length ≡ k + n)
        × (received 0 (after_end limit).red_segments ≡ false)
  unfolding note_end_of_red_part is_end_of_red_part is_whole
  is_whole_premature limit p q h i =
      let upper : add32 k n ≡ k + n = omega arith in
      rw (accepted p q h i) (ground arith, refl, ground arith)
