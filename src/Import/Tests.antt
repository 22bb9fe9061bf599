-- ===== src/Import/Tests.antt =====
-- The theorems on red segments at concrete inputs.
use mini_ltp.Prelude.{ℕ, ◌≡◌, [], ◌∷◌, true, false, arith}
use mini_ltp.Reception.{RecvSeg, ImportSession, is_whole}
use mini_ltp.Reception.Disjoint.{received}
use mini_ltp.Import.{RedSegment, handle_red_segment}
use mini_ltp.Import.Intake.{Intake, handle_red_segment-Intake}
use mini_ltp.Import.Premature.{after_end, is_whole_premature}

abbrev seg_at : ℕ → ℕ → RecvSeg
seg_at offset length = record { offset = offset; length = length }

abbrev opened : ImportSession
opened = record {
  session_nbr = 4;
  client_svc_id = 1;
  red_part_length = 0;
  red_part_received = 100;
  end_of_block_recd = false;
  red_segments = seg_at 0 100 ∷ [];
  rs_segments = [];
  next_rpt_serial_nbr = 0;
  last_rpt_serial_nbr = 0;
  max_reports = 0;
  reports_count = 0;
}

-- The end of the red part, and of the block.
abbrev last_red : RedSegment
last_red = record {
  seg_type_code = 3;
  seg = seg_at 200 50;
  ckpt_serial_nbr = 30;
  rpt_serial_nbr = 0;
}

handle_red_segment-Intake_example :
    Intake 5 77 9 opened last_red (handle_red_segment false 5 77 9 opened last_red)
handle_red_segment-Intake_example =
    handle_red_segment-Intake 5 77 9 opened last_red
      (record {
        disjoint = omega arith;
        counted = omega arith;
        int_length = omega arith;
        within = λ p. omega arith;
      })
      (omega arith) (omega arith) (λ e b r. ground arith)

is_whole_premature_example :
    (is_whole (after_end opened 1000 30 20 5) ≡ true)
    × ((after_end opened 1000 30 20 5).red_part_length ≡ 50)
    × (received 0 (after_end opened 1000 30 20 5).red_segments ≡ false)
is_whole_premature_example =
    is_whole_premature opened 1000 30 20 5 (omega arith) (omega arith) (omega arith) (omega arith)
