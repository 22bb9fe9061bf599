-- ===== src/Closing/Tests.antt =====
-- The theorems on closed sessions at concrete inputs.
use mini_ltp.Prelude.{ℕ, ◌≡◌, refl, List, [], ◌∷◌, true, ◌||◌, ◌==◌, arith}
use mini_ltp.Reception.{ImportSession}
use mini_ltp.Closing.{session_is_closed, note_closed_import, handle_ra}
use mini_ltp.Closing.Order.{
  Falling, session_is_closed-note_closed_import, Acknowledged, handle_ra-Acknowledged,
}

abbrev closed : List ℕ
closed = 9 ∷ 7 ∷ 3 ∷ []

in_order : note_closed_import 5 closed ≡ 9 ∷ 7 ∷ 5 ∷ 3 ∷ []
unfolding note_closed_import
in_order = refl

session_is_closed-note_closed_import_example :
    (session_is_closed 5 (note_closed_import 5 closed) ≡ (5 == 5 || session_is_closed 5 closed))
    × Falling 9 (note_closed_import 5 closed)
session_is_closed-note_closed_import_example =
    session_is_closed-note_closed_import 5 5 9 closed (omega arith) (omega arith)

abbrev acked : ImportSession
acked = record {
  session_nbr = 5;
  client_svc_id = 1;
  red_part_length = 50;
  red_part_received = 50;
  end_of_block_recd = true;
  red_segments = [];
  rs_segments =
      record {
        session_nbr = 5;
        remote_engine_id = 9;
        header_length = 4;
        content_length = 8;
        rpt_serial_nbr = 77;
        ckpt_serial_nbr = 30;
        upper_bound = 50;
        lower_bound = 0;
        reception_claims = record { offset = 0; length = 50 } ∷ [];
      }
      ∷ [];
  next_rpt_serial_nbr = 77;
  last_rpt_serial_nbr = 77;
  max_reports = 5;
  reports_count = 1;
}

handle_ra-Acknowledged_example : Acknowledged acked closed 77 (handle_ra acked closed 77)
handle_ra-Acknowledged_example =
    handle_ra-Acknowledged acked closed 77 9 (omega arith) (omega arith)
