-- ===== src/Reception/Tests.antt =====
-- Runs of the insertion, and the theorems at concrete inputs.
use mini_ltp.Prelude.{ℕ, ◌≡◌, refl, ◌⊎◌, [], ◌∷◌, false, arith}
use mini_ltp.Reception.{
  RecvSeg, ImportSession, seg_upper_bound, is_beyond_red_part, search_place, overlaps_previous,
  overlaps_next, is_free, insert_segment, insert_data_segment,
}
use mini_ltp.Reception.Disjoint.{IsReceiving}
use mini_ltp.Reception.Insert.{insert_data_segment-Kept, Kept, Discarded}

abbrev seg_at : ℕ → ℕ → RecvSeg
seg_at offset length = record { offset = offset; length = length }

-- 200 of the 500 red bytes have been received.
abbrev partial : ImportSession
partial = record {
  session_nbr = 4;
  client_svc_id = 1;
  red_part_length = 500;
  red_part_received = 200;
  end_of_block_recd = false;
  red_segments = seg_at 0 100 ∷ seg_at 300 100 ∷ [];
  rs_segments = [];
  next_rpt_serial_nbr = 0;
  last_rpt_serial_nbr = 0;
  max_reports = 5;
  reports_count = 0;
}

partial-IsReceiving : IsReceiving partial
partial-IsReceiving = record {
  disjoint = omega arith;
  counted = omega arith;
  int_length = omega arith;
  within = λ p. omega arith;
}

kept :
    (insert_data_segment false partial (seg_at 100 200)).0.red_segments
    ≡ seg_at 0 100 ∷ seg_at 100 200 ∷ seg_at 300 100 ∷ []
unfolding insert_data_segment is_beyond_red_part seg_upper_bound search_place is_free
    overlaps_previous overlaps_next insert_segment
kept = refl

overlap_before : insert_data_segment false partial (seg_at 50 200) ≡ (partial, 0)
unfolding insert_data_segment is_beyond_red_part seg_upper_bound search_place is_free
    overlaps_previous overlaps_next insert_segment
overlap_before = refl

overlap_after : insert_data_segment false partial (seg_at 100 201) ≡ (partial, 0)
unfolding insert_data_segment is_beyond_red_part seg_upper_bound search_place is_free
    overlaps_previous overlaps_next insert_segment
overlap_after = refl

beyond_red : insert_data_segment false partial (seg_at 400 101) ≡ (partial, 0)
unfolding insert_data_segment is_beyond_red_part seg_upper_bound search_place is_free
    overlaps_previous overlaps_next insert_segment
beyond_red = refl

insert_data_segment-Kept_example :
    Kept partial (seg_at 100 200) (insert_data_segment false partial (seg_at 100 200))
    ⊎ Discarded partial (seg_at 100 200) (insert_data_segment false partial (seg_at 100 200))
insert_data_segment-Kept_example =
    insert_data_segment-Kept partial (seg_at 100 200) partial-IsReceiving (omega arith)
      (omega arith)
