-- ===== src/Late.antt =====
-- Reports that come late, for export sessions that have been closed: noteClosedExport,
-- acknowledgeLateReport and ltpForgetClosedExport of ltp/library/libltpP.c, with their timeout event.
-- A list element has an address, which the event for its removal carries. Limits and delays fit an
-- int.
pub mod Answers
pub mod Dangling
mod Tests
use mini_ltp.Prelude.{ℕ, ◌+◌, ◌-◌, ◌*◌, List, [], ◌∷◌, ltb, if◌then◌else◌, Option, none, some}
use mini_ltp.Timeline.{LtpEvent, LtpEventType, Link, insert_ltp_timeline_event}
use mini_ltp.Queue.{QueuedSeg, construct_report_ack_segment}
use mini_ltp.Cancel.Lists.{find_session, delete_session, write_session}

pub record ClosedExport : Type 0 where
  pub elt : ℕ
  pub session_nbr : ℕ
  pub response_limit : ℕ

pub record ClosedExports : Type 0 where
  pub own_engine_id : ℕ
  pub closed_exports : List ClosedExport
  pub segments : List QueuedSeg
  pub timeline : List LtpEvent

abbrev pub nbr_of : ClosedExport → ℕ
nbr_of closed = closed.session_nbr

abbrev pub elt_of : ClosedExport → ℕ
elt_of closed = closed.elt

unfoldable pub forget_export_event : Link → ℕ → ℕ → LtpEvent
forget_export_event link current_time elt = record {
  ref_nbr1 = 0;
  ref_nbr2 = 0;
  ref_nbr3 = 0;
  parm = elt;
  scheduled_time =
      current_time + 10 + 2 * link.max_timeouts * (link.owlt_outbound + link.owlt_inbound);
  type = LtpEventType.forget_export_session;
}

-- The new list element has the address `elt`.
unfoldable pub note_closed_export : Link → ℕ → ℕ → ℕ → ClosedExports → ClosedExports
note_closed_export link current_time elt nbr st = record st {
  closed_exports =
      record { elt = elt; session_nbr = nbr; response_limit = link.max_timeouts }
      ∷ st.closed_exports;
  timeline = insert_ltp_timeline_event (forget_export_event link current_time elt) st.timeline;
}

abbrev pub answered : ClosedExport → ClosedExport
answered closed = record closed { response_limit = closed.response_limit - 1 }

unfoldable pub answer_late : ℕ → ℕ → Option ClosedExport → ClosedExports → Option ClosedExports
answer_late nbr rpt_serial_nbr none st = none
answer_late nbr rpt_serial_nbr (some closed) st = some (record st {
  closed_exports =
      if ltb (closed.response_limit - 1) 1
      then delete_session nbr_of nbr st.closed_exports
      else write_session nbr_of nbr (answered closed) st.closed_exports;
  segments = construct_report_ack_segment st.own_engine_id nbr rpt_serial_nbr st.segments;
})

-- `none` where no closed session has the number.
unfoldable pub acknowledge_late_report : ℕ → ℕ → ClosedExports → Option ClosedExports
acknowledge_late_report nbr rpt_serial_nbr st =
    answer_late nbr rpt_serial_nbr (find_session nbr_of nbr st.closed_exports) st

unfoldable pub forget_found : ℕ → Option ClosedExport → ClosedExports → Option ClosedExports
forget_found elt none st = none
forget_found elt (some closed) st =
    some (record st { closed_exports = delete_session elt_of elt st.closed_exports })

-- `none` where there is no list element with that address: the code then reads and frees whatever is
-- there.
unfoldable pub ltp_forget_closed_export : ℕ → ClosedExports → Option ClosedExports
ltp_forget_closed_export elt st = forget_found elt (find_session elt_of elt st.closed_exports) st
