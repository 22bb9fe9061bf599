-- ===== src/Import.antt =====
-- Red data segments at the receiver of a block: the part of handleDataSegment in
-- ltp/library/libltpP.c from the call of acceptRedContent on, for an import session that exists and
-- whose red segments have not been released.
-- The bytes of the segment, which acceptRedContent copies into the session's buffers, are not
-- modelled, and delivery is a flag of the outcome. The result of getMaxReports, which computes with
-- floats, is an argument.
pub mod Marks
pub mod Intake
pub mod Premature
mod Tests
use mini_ltp.Prelude.{
  ℕ, ◌%◌, ◌-◌, ◌^◌, List, [], Bool, true, false, ◌&&◌, ◌||◌, ltb, ◌==◌, if◌then◌else◌, Option, none,
  some,
}
use mini_ltp.Sdnv.{u32}
use mini_ltp.Reception.{RecvSeg, ReportSeg, ImportSession, insert_data_segment, is_whole}
use mini_ltp.Report.{ReportContext, Reply, send_report}

-- A red data segment, with the serial numbers that a checkpoint carries.
pub record RedSegment : Type 0 where
  pub seg_type_code : ℕ
  pub seg : RecvSeg
  pub ckpt_serial_nbr : ℕ
  pub rpt_serial_nbr : ℕ

-- LtpDsRedEORP and LtpDsRedEOB.
unfoldable pub is_end_of_red_part : ℕ → Bool
is_end_of_red_part code = code == 2 || code == 3

unfoldable pub note_end_of_red_part : ℕ → ℕ → ℕ → ImportSession → ImportSession
note_end_of_red_part limit code upper session =
    if is_end_of_red_part code
    then record session { red_part_length = upper; max_reports = limit }
    else session

-- `segTypeCode & LTP_FLAG_1` and `segTypeCode & LTP_FLAG_0`.
unfoldable pub note_end_of_block : ℕ → ImportSession → ImportSession
note_end_of_block code session =
    if code % 4 == 3 then record session { end_of_block_recd = true } else session

-- The session before a report is sent, the reply to a checkpoint, and whether the red part is
-- delivered; `failure` is the result -1.
pub data RedOutcome : Type 0 where
  discarded : ImportSession → RedOutcome
  stored : ImportSession → RedOutcome
  answered : ImportSession → Reply → Bool → RedOutcome
  failure : RedOutcome

-- A session that is canceled in the course of the report has no red segments to deliver.
unfoldable pub is_delivered : Reply → Bool
is_delivered (Reply.reply session reports) = is_whole session
is_delivered (Reply.cancel session reports) = false
is_delivered Reply.failure = false

unfoldable pub respond : ℕ → ℕ → RedSegment → ℕ → ImportSession → RedOutcome
respond first engine_id red upper session =
    let ctx : ReportContext = record {
      session_nbr = session.session_nbr;
      engine_id = engine_id;
      ckpt_serial_nbr = red.ckpt_serial_nbr;
      report_upper_bound = upper;
    } in
    let sent : Reply = send_report first ctx session red.rpt_serial_nbr in
    if ltb 0 red.seg_type_code then answered session sent (is_delivered sent) else stored session

unfoldable pub handle_red_segment : Bool → ℕ → ℕ → ℕ → ImportSession → RedSegment → RedOutcome
handle_red_segment is_depleted limit first engine_id session red =
    let (session₁, upper) = insert_data_segment is_depleted session red.seg in
    let session₂ = note_end_of_red_part limit red.seg_type_code upper session₁ in
    let session₃ = note_end_of_block red.seg_type_code session₂ in
    if upper == 0
    then discarded session₁
    else if upper == u32 - 1
    then failure
    else respond first engine_id red upper session₃
