-- ===== src/Queue.antt =====
-- The queue of outbound segments of a span: enqueueAckSegment, enqueueCancelReqSegment and the
-- functions that construct cancel segments and their acknowledgments in ltp/library/libltpP.c.
-- A queued segment is its type code, the numbers that it carries and its lengths.
pub mod Acks
pub mod Contents
mod Tests
use mini_ltp.Prelude.{ℕ, ◌+◌, List, [], ◌∷◌, ◌++◌, Bool, ◌||◌, ◌==◌, if◌then◌else◌}
use mini_ltp.Sdnv.{sdnv_length}
use mini_ltp.Segment.{ltp_rs, ltp_ras, ltp_cs, ltp_cas, ltp_cr, ltp_car}

pub record QueuedSeg : Type 0 where
  pub seg_type_code : ℕ
  pub session_nbr : ℕ
  pub serial_nbr : ℕ
  pub reason_code : ℕ
  pub header_length : ℕ
  pub content_length : ℕ

unfoldable pub is_ack : QueuedSeg → Bool
is_ack seg =
    seg.seg_type_code == ltp_rs
    || seg.seg_type_code == ltp_ras
    || seg.seg_type_code == ltp_cas
    || seg.seg_type_code == ltp_car

-- Before the first segment that is no acknowledgment, or at the end.
unfoldable pub enqueue_ack_segment : QueuedSeg → List QueuedSeg → List QueuedSeg
enqueue_ack_segment ack [] = ack ∷ []
enqueue_ack_segment ack (seg ∷ segments) =
    let further = seg ∷ enqueue_ack_segment ack segments in
    if is_ack seg then further else ack ∷ seg ∷ segments

-- The lengths of a segment for the block of engine `source`.
abbrev mgt_header_length : ℕ → ℕ → ℕ
mgt_header_length source session_nbr = 1 + sdnv_length source + sdnv_length session_nbr + 1

unfoldable pub cancel_ack_segment : ℕ → ℕ → ℕ → QueuedSeg
cancel_ack_segment code source session_nbr = record {
  seg_type_code = code;
  session_nbr = session_nbr;
  serial_nbr = 0;
  reason_code = 0;
  header_length = mgt_header_length source session_nbr;
  content_length = 0;
}

unfoldable pub construct_source_cancel_ack_segment : ℕ → ℕ → List QueuedSeg → List QueuedSeg
construct_source_cancel_ack_segment source session_nbr =
    enqueue_ack_segment (cancel_ack_segment ltp_cas source session_nbr)

unfoldable pub construct_dest_cancel_ack_segment : ℕ → ℕ → List QueuedSeg → List QueuedSeg
construct_dest_cancel_ack_segment source session_nbr =
    enqueue_ack_segment (cancel_ack_segment ltp_car source session_nbr)

unfoldable pub cancel_req_segment : ℕ → ℕ → ℕ → ℕ → QueuedSeg
cancel_req_segment code source session_nbr reason_code = record {
  seg_type_code = code;
  session_nbr = session_nbr;
  serial_nbr = 0;
  reason_code = reason_code;
  header_length = mgt_header_length source session_nbr;
  content_length = 1;
}

-- A request for cancellation goes to the end of the queue.
unfoldable pub construct_source_cancel_req_segment : ℕ → ℕ → ℕ → List QueuedSeg → List QueuedSeg
construct_source_cancel_req_segment source session_nbr reason_code segments =
    segments ++ cancel_req_segment ltp_cs source session_nbr reason_code ∷ []

unfoldable pub construct_dest_cancel_req_segment : ℕ → ℕ → ℕ → List QueuedSeg → List QueuedSeg
construct_dest_cancel_req_segment source session_nbr reason_code segments =
    segments ++ cancel_req_segment ltp_cr source session_nbr reason_code ∷ []

-- constructReportAckSegment.
unfoldable pub construct_report_ack_segment : ℕ → ℕ → ℕ → List QueuedSeg → List QueuedSeg
construct_report_ack_segment own session_nbr rpt_serial_nbr = enqueue_ack_segment (record {
  seg_type_code = ltp_ras;
  session_nbr = session_nbr;
  serial_nbr = rpt_serial_nbr;
  reason_code = 0;
  header_length = mgt_header_length own session_nbr;
  content_length = sdnv_length rpt_serial_nbr;
})
