-- ===== src/Export/Tests.antt =====
-- A run of the handling of a report, and the theorem at a concrete input.
use mini_ltp.Prelude.{ℕ, ◌≡◌, refl, [], ◌∷◌, true, false, arith, some}
use mini_ltp.Segment.{ReceptionClaim}
use mini_ltp.Segment.Inbound.{ReportContent}
use mini_ltp.Issue.{Output}
use mini_ltp.Export.{note_serial_nbr, handle_rs}
use mini_ltp.Export.Settle.{handle_rs-Settled}
use mini_ltp.Export.Outcome.{Settled}

abbrev claim_at : ℕ → ℕ → ReceptionClaim
claim_at offset length = record { offset = offset; length = length }

-- A red block of 500 bytes that has been sent.
abbrev exported : Output
exported = record {
  span = record { engine_id = 9; max_segment_size = 1400; segments = [] };
  session = record {
    session_nbr = 4;
    client_svc_id = 1;
    total_length = 500;
    red_part_length = 500;
    last_ckpt_serial_nbr = 30;
    max_checkpoints = 5;
    checkpoints = [];
    claims = [];
    rs_serial_nbrs = 70 ∷ 80 ∷ [];
    red_segments = [];
    green_segments = [];
    eob_sent = true;
    final_ack = false;
    is_stopped = false;
  };
}

abbrev report : ReportContent
report = record {
  rpt_serial_nbr = 77;
  ckpt_serial_nbr = 0;
  upper_bound = 500;
  lower_bound = 0;
  reception_claims = claim_at 0 100 ∷ claim_at 300 100 ∷ [];
}

in_order : note_serial_nbr 77 (70 ∷ 80 ∷ []) ≡ some (70 ∷ 77 ∷ 80 ∷ [])
unfolding note_serial_nbr
in_order = refl

handle_rs-Settled_example : Settled exported report (handle_rs 500 7 exported report).outcome
handle_rs-Settled_example =
    handle_rs-Settled 500 7 report exported
      (record {
        own_id = omega arith;
        rpt = omega arith;
        nbr = omega arith;
        client = omega arith;
        red = omega arith;
        room = omega arith;
        int_size = omega arith;
        live = refl;
        separated = tt;
        serials = omega arith;
        old_within = λ b e. cc;
        new_within = λ b e. ground arith;
        new_claims = (
          record { some_data = omega arith; within = omega arith },
          (record { some_data = omega arith; within = omega arith }, tt),
        );
      })
      (omega arith)
