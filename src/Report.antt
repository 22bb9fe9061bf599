-- ===== src/Report.antt =====
-- Reception reports: initializeRs, constructReceptionClaim, constructRs, sendLastReport, findReport
-- and sendReport of ltp/library/libltpP.c.
-- Space in the database is granted. `rand` is not modelled: the number that its loop in sendReport
-- ends with is an argument.
pub mod Scope
pub mod Loop
pub mod Step
pub mod Transfer
pub mod Round
pub mod Answer
pub mod Send
pub mod Repair
pub mod Content
mod Tests
use mini_ltp.Prelude.{
  ℕ, zero, suc, ◌+◌, ◌%◌, ◌^◌, ◌-◌, List, [], ◌∷◌, ◌++◌, Bool, false, true, ◌&&◌, not, ltb, leb,
  ◌==◌, if◌then◌else◌, Option, none, some, min,
}
use mini_ltp.Sdnv.{u32, sub32, sdnv_length}
use mini_ltp.Segment.{ReceptionClaim}
use mini_ltp.Claims.{add32}
use mini_ltp.Reception.{RecvSeg, ReportSeg, ImportSession, is_whole}

abbrev pub max_claims_per_rs : ℕ
max_claims_per_rs = 20

-- `a < b` for ints.
abbrev pub int_lt : ℕ → ℕ → Bool
int_lt a b = ltb (add32 a (2 ^ 31)) (add32 b (2 ^ 31))

-- The report segment under construction, as far as it changes in the course of a report.
pub record Rs : Type 0 where
  pub content_length : ℕ
  pub rpt_serial_nbr : ℕ
  pub lower_bound : ℕ
  pub reception_claims : List ReceptionClaim

-- What all report segments of a report have in common: the session's number, the number of the
-- span's engine, the checkpoint's serial number and the report's upper bound.
pub record ReportContext : Type 0 where
  pub session_nbr : ℕ
  pub engine_id : ℕ
  pub ckpt_serial_nbr : ℕ
  pub report_upper_bound : ℕ

unfoldable pub initialize_rs : ReportContext → ℕ → ℕ → Rs
initialize_rs ctx serial_nbr lower = record {
  content_length = sdnv_length serial_nbr + sdnv_length ctx.ckpt_serial_nbr + sdnv_length lower;
  rpt_serial_nbr = serial_nbr;
  lower_bound = lower;
  reception_claims = [];
}

-- `none` where CHKERR finds that the upper bound is not above the lower one.
unfoldable pub construct_reception_claim : Rs → ℕ → ℕ → Option Rs
construct_reception_claim rs lower upper =
    if int_lt lower upper
    then some (record rs {
      content_length = rs.content_length + sdnv_length lower + sdnv_length (sub32 upper lower);
      reception_claims =
          rs.reception_claims ++ record { offset = lower; length = sub32 upper lower } ∷ [];
    })
    else none

unfoldable pub construct_rs : ReportContext → Rs → ℕ → ℕ → ReportSeg
construct_rs ctx rs upper claim_count = record {
  session_nbr = ctx.session_nbr;
  remote_engine_id = ctx.engine_id;
  header_length = 1 + sdnv_length ctx.engine_id + sdnv_length ctx.session_nbr + 1;
  content_length = rs.content_length + sdnv_length upper + sdnv_length claim_count;
  rpt_serial_nbr = rs.rpt_serial_nbr;
  ckpt_serial_nbr = ctx.ckpt_serial_nbr;
  upper_bound = upper;
  lower_bound = rs.lower_bound;
  reception_claims = rs.reception_claims;
}

-- The report segments that are shipped, in order, and the last serial number; `limit` where the
-- serial numbers are used up.
pub data Sending : Type 0 where
  sent : List ReportSeg → ℕ → Sending
  limit : List ReportSeg → Sending
  failed : Sending

unfoldable pub ship : ReportSeg → Sending → Sending
ship report (sent reports serial_nbr) = sent (report ∷ reports) serial_nbr
ship report (limit reports) = limit (report ∷ reports)
ship report failed = failed

-- The last claim and the last report segment.
unfoldable pub finish_report : ReportContext → ℕ → Rs → ℕ → ℕ → ℕ → Sending
finish_report ctx serial_nbr rs lower upper claim_count =
    if upper == lower then sent [] serial_nbr else elim (construct_reception_claim rs lower upper) [
      | none ↦ failed
      | some rs' ↦
          sent (construct_rs ctx rs' ctx.report_upper_bound (claim_count + 1) ∷ []) serial_nbr
    ]

-- A claim that a gap ends is posted unless it is empty.
unfoldable pub post_claim : Rs → ℕ → ℕ → Option Rs
post_claim rs lower upper =
    if upper == lower then some rs else construct_reception_claim rs lower upper

-- The loop over the red segments.
unfoldable pub report_loop : ReportContext → ℕ → Rs → ℕ → ℕ → ℕ → List RecvSeg → Sending
report_loop ctx serial_nbr rs lower upper claim_count [] =
    finish_report ctx serial_nbr rs lower upper claim_count
report_loop ctx serial_nbr rs lower upper claim_count (ds ∷ segs) =
    let segment_end : ℕ = add32 ds.offset ds.length in
    let new_upper : ℕ = min segment_end ctx.report_upper_bound in
    let skipped = report_loop ctx serial_nbr rs lower upper claim_count segs in
    let contiguous = report_loop ctx serial_nbr rs lower new_upper claim_count segs in
    let new_count : ℕ = if upper == lower then claim_count else claim_count + 1 in
    let next_serial : ℕ = add32 serial_nbr 1 in
    let gap : Sending = elim (post_claim rs lower upper) [
      | none ↦ failed
      | some rs' ↦
          let same_rs = report_loop ctx serial_nbr rs' ds.offset new_upper new_count segs in
          let next_rs =
            report_loop ctx next_serial (initialize_rs ctx next_serial ds.offset) ds.offset
              new_upper 0 segs in
          let shipped = construct_rs ctx rs' ds.offset new_count in
          if ltb new_count max_claims_per_rs
          then same_rs
          else if next_serial == 0
          then limit (shipped ∷ [])
          else ship shipped next_rs
    ] in
    if leb segment_end lower
    then skipped
    else if leb ds.offset upper
    then contiguous
    else if leb ctx.report_upper_bound ds.offset
    then finish_report ctx serial_nbr rs lower upper claim_count
    else gap

unfoldable pub find_report : ℕ → List ReportSeg → Option ReportSeg
find_report rpt_serial_nbr [] = none
find_report rpt_serial_nbr (rs ∷ reports) =
    let further = find_report rpt_serial_nbr reports in
    if rs.rpt_serial_nbr == rpt_serial_nbr then some rs else further

-- The lower bound of the report that the checkpoint cites.
unfoldable pub report_lower_bound : ImportSession → ℕ → ℕ
report_lower_bound session rpt_serial_nbr =
    if rpt_serial_nbr == 0 then 0 else elim (find_report rpt_serial_nbr session.rs_segments) [
      | none ↦ 0
      | some old_rpt ↦ old_rpt.lower_bound
    ]

-- What a checkpoint leads to: the session and the report segments that are queued; `cancel` where
-- the session is canceled by the receiver; `failure` is the result -1.
pub data Reply : Type 0 where
  reply : ImportSession → List ReportSeg → Reply
  cancel : ImportSession → List ReportSeg → Reply
  failure : Reply

abbrev pub noted : ImportSession → ℕ → List ReportSeg → ImportSession
noted session serial_nbr reports = record session {
  rs_segments = session.rs_segments ++ reports;
  next_rpt_serial_nbr = serial_nbr;
  reports_count = add32 session.reports_count 1;
}

unfoldable pub send_last_report : ReportContext → ImportSession → ℕ → Reply
send_last_report ctx session serial_nbr =
    elim (construct_reception_claim (initialize_rs ctx serial_nbr 0) 0 session.red_part_length) [
      | none ↦ failure
      | some rs ↦
          let report = construct_rs ctx rs session.red_part_length 1 in
          reply
            (record (noted session serial_nbr (report ∷ [])) { last_rpt_serial_nbr = serial_nbr })
            (report ∷ [])
    ]

unfoldable pub send_gap_report : ReportContext → ImportSession → ℕ → ℕ → Reply
send_gap_report ctx session serial_nbr lower =
    elim (report_loop ctx serial_nbr (initialize_rs ctx serial_nbr lower) lower lower 0
      session.red_segments) [
        | sent reports last ↦ reply (noted session last reports) reports
        | limit reports ↦ cancel (noted session 0 reports) reports
        | failed ↦ failure
      ]

unfoldable pub next_serial_nbr : ℕ → ImportSession → ℕ
next_serial_nbr first session =
    if session.next_rpt_serial_nbr == 0 then first else add32 session.next_rpt_serial_nbr 1

abbrev with_serial : ImportSession → ℕ → ImportSession
with_serial session serial_nbr = record session { next_rpt_serial_nbr = serial_nbr }

unfoldable pub send_report : ℕ → ReportContext → ImportSession → ℕ → Reply
send_report first ctx session rpt_serial_nbr =
    let serial_nbr : ℕ = next_serial_nbr first session in
    let last_report = send_last_report ctx session serial_nbr in
    let gap_report =
      send_gap_report ctx session serial_nbr (report_lower_bound session rpt_serial_nbr) in
    if not (session.last_rpt_serial_nbr == 0)
    then reply session []
    else if serial_nbr == 0
    then cancel (with_serial session 0) []
    else if int_lt 0 session.red_part_length && is_whole session
    then last_report
    else if not (int_lt session.reports_count session.max_reports)
    then cancel (with_serial session serial_nbr) []
    else gap_report
