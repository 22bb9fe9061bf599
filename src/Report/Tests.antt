-- ===== src/Report/Tests.antt =====
-- Runs of the reports, and the theorems at concrete inputs.
use mini_ltp.Prelude.{ℕ, ◌+◌, ◌≡◌, refl, [], ◌∷◌, false, arith, All, length}
use mini_ltp.Sdnv.{sdnv_length, sdnv_length_loop}
use mini_ltp.Segment.{ReceptionClaim}
use mini_ltp.Reception.{RecvSeg, ReportSeg, ImportSession, is_whole}
use mini_ltp.Report.{
  Rs, ReportContext, initialize_rs, construct_reception_claim, construct_rs, finish_report,
  post_claim, report_loop, report_lower_bound, Reply, noted, send_last_report, send_gap_report,
  next_serial_nbr, send_report,
}
use mini_ltp.Report.Loop.{with_claim}
use mini_ltp.Report.Scope.{Scoped}
use mini_ltp.Report.Send.{Answered, send_report-Answered}
use mini_ltp.Report.Repair.{Repairs, gaps-Scoped}
use mini_ltp.Report.Content.Length.{block_size, scope_size}
use mini_ltp.Report.Content.{ReplyExceeds, length-serialize_report_content}

abbrev seg_at : ℕ → ℕ → RecvSeg
seg_at offset length = record { offset = offset; length = length }

abbrev claim_at : ℕ → ℕ → ReceptionClaim
claim_at offset length = record { offset = offset; length = length }

abbrev partial : ImportSession
partial = record {
  session_nbr = 4;
  client_svc_id = 1;
  red_part_length = 500;
  red_part_received = 200;
  end_of_block_recd = false;
  red_segments = seg_at 0 60 ∷ seg_at 60 40 ∷ seg_at 300 100 ∷ [];
  rs_segments = [];
  next_rpt_serial_nbr = 0;
  last_rpt_serial_nbr = 0;
  max_reports = 5;
  reports_count = 0;
}

abbrev checkpoint : ReportContext
checkpoint = record {
  session_nbr = 4;
  engine_id = 9;
  ckpt_serial_nbr = 30;
  report_upper_bound = 500;
}

abbrev report : ReportSeg
report = record {
  session_nbr = 4;
  remote_engine_id = 9;
  header_length = 4;
  content_length = 11;
  rpt_serial_nbr = 77;
  ckpt_serial_nbr = 30;
  upper_bound = 500;
  lower_bound = 0;
  reception_claims = claim_at 0 100 ∷ claim_at 300 100 ∷ [];
}

two_claims :
    send_report 77 checkpoint partial 0 ≡ Reply.reply (noted partial 77 (report ∷ [])) (report ∷ [])
unfolding send_report next_serial_nbr is_whole report_lower_bound send_gap_report send_last_report
    report_loop initialize_rs post_claim construct_reception_claim finish_report construct_rs
    sdnv_length sdnv_length_loop
two_claims = refl

send_report-Answered_example :
    Answered 0 500 partial.red_segments (send_report 77 checkpoint partial 0)
unfolding report_lower_bound next_serial_nbr is_whole
send_report-Answered_example =
    send_report-Answered 77 checkpoint partial 0
      (record {
        disjoint = omega arith;
        counted = omega arith;
        int_length = omega arith;
        within = λ p. omega arith;
      })
      refl (omega arith) (omega arith) refl (omega arith) (omega arith) (omega arith) (omega arith)

report-Scoped : Scoped 0 500 (report ∷ [])
report-Scoped = (
  refl,
  record { some_claim = omega arith; few_claims = omega arith; claims = omega arith },
  refl,
)

gaps-Scoped_example : All (Repairs partial.red_segments []) (report ∷ [])
gaps-Scoped_example =
    gaps-Scoped 0 500 partial.red_segments (report ∷ []) [] report-Scoped (omega arith)
      (λ b. ground arith) tt

-- A segment of a report from 1000 on: the content length counts two bytes for the claim's offset,
-- and one is written.
abbrev later : Rs
later = with_claim (initialize_rs checkpoint 77 1000) 1000 1200

length-serialize_report_content_example :
    ReplyExceeds (1 ∷ []) (send_report 77 checkpoint partial 0)
length-serialize_report_content_example =
    length-serialize_report_content 77 checkpoint partial 0 (1 ∷ [])

one_byte_more :
    block_size later.reception_claims ≡ scope_size later.lower_bound later.reception_claims + 1
unfolding initialize_rs sdnv_length sdnv_length_loop
one_byte_more = refl
