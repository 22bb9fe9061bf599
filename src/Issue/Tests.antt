-- ===== src/Issue/Tests.antt =====
-- Runs of the issuance, and the theorems at concrete inputs.
use mini_ltp.Prelude.{ℕ, ◌≡◌, refl, List, [], ◌∷◌, true, false, arith, Option, none, some, map}
use mini_ltp.Sdnv.{sdnv_length, sdnv_length_loop}
use mini_ltp.Claims.{ExportExtent}
use mini_ltp.Issue.{
  Context, IssuedSeg, Output, segment_header_length, known_overhead, checkpoint_overhead,
  reduced_length, size_red, size_green, remaining_red_bytes, size_segment, segment_type,
  finish_segment, note_segment, construct_data_segment, issue_extent, issue_extents, issue_segments,
}
use mini_ltp.Issue.Tiling.{Issued, issue_extent-Issued}
use mini_ltp.Issue.Carried.{IssuedAll, issue_segments-IssuedAll}
use mini_ltp.Issue.Stall.{IsTight, issue_extent_tight}

abbrev first_send : Context
first_send = record { own_engine_id = 7; report_serial_nbr = 0; checkpoint_serial_nbr = 30 }

-- A block of 150 bytes, the first 100 of them red.
abbrev start : ℕ → Output
start max_size = record {
  span = record { engine_id = 9; max_segment_size = max_size; segments = [] };
  session = record {
    session_nbr = 4;
    client_svc_id = 1;
    total_length = 150;
    red_part_length = 100;
    last_ckpt_serial_nbr = 0;
    max_checkpoints = 5;
    checkpoints = [];
    claims = [];
    rs_serial_nbrs = [];
    red_segments = [];
    green_segments = [];
    eob_sent = false;
    final_ack = false;
    is_stopped = false;
  };
}

abbrev block : ExportExtent
block = record { offset = 0; length = 150 }

abbrev shape : IssuedSeg → ℕ × ℕ × ℕ
shape i = (i.seg.pdu.seg_type_code, i.seg.pdu.offset, i.seg.pdu.length)

abbrev shapes : Option Output → List (ℕ × ℕ × ℕ)
shapes none = []
shapes (some out) = map shape out.span.segments

block_segments :
    shapes (issue_segments 150 first_send (start 67) (block ∷ []))
    ≡ (0, 0, 60) ∷ (2, 60, 40) ∷ (7, 100, 50) ∷ []
unfolding issue_segments issue_extents issue_extent construct_data_segment size_segment size_red
    size_green remaining_red_bytes segment_type finish_segment note_segment reduced_length
    segment_header_length known_overhead checkpoint_overhead sdnv_length sdnv_length_loop
block_segments = refl

issue_extent-Issued_example :
    Issued first_send true (start 67) 0 150 (issue_extent 150 first_send true (start 67) block)
issue_extent-Issued_example =
    issue_extent-Issued first_send true 150 (start 67) block (omega arith) (omega arith)
      (omega arith)

issue_segments-IssuedAll_example :
    IssuedAll (start 67) (block ∷ []) (issue_segments 150 first_send (start 67) (block ∷ []))
issue_segments-IssuedAll_example =
    issue_segments-IssuedAll 150 first_send (start 67) (block ∷ []) (omega arith) refl (omega arith)

abbrev last_byte : ExportExtent
last_byte = record { offset = 99; length = 1 }

last_byte-IsTight : IsTight first_send (start 9) last_byte
unfolding segment_header_length known_overhead checkpoint_overhead sdnv_length sdnv_length_loop
last_byte-IsTight = omega arith

issue_extent_tight_example : issue_extent 1000 first_send true (start 9) last_byte ≡ none
issue_extent_tight_example =
    issue_extent_tight first_send 1000 (start 9) last_byte last_byte-IsTight
