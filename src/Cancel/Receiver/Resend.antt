-- ===== src/Cancel/Receiver/Resend.antt =====
-- A report that has not been acknowledged in time, and the timer of a cancellation that has been sent:
-- findReport, ltpResendReport and ltpDequeueOutboundSegment of ltp/library/libltpP.c.
use mini_ltp.Prelude.{ℕ, ◌+◌, List, [], ◌∷◌, ◌++◌, Bool, ◌==◌, if◌then◌else◌, Option, none, some}
use mini_ltp.Timeline.{LtpEvent, LtpEventType, Link, set_timer}
use mini_ltp.Cancel.{ltp_retransmit_limit_exceeded}
use mini_ltp.Cancel.Lists.{find_session, write_session}
use mini_ltp.Cancel.Receiver.{
  SentRpt, ImportEntry, Importer, nbr_of, get_import_session, get_canceled_import,
  cancel_session_by_receiver,
}

abbrev pub rpt_nbr_of : SentRpt → ℕ
rpt_nbr_of rpt = rpt.segment.serial_nbr

unfoldable pub find_rpt : ℕ → List SentRpt → Option SentRpt
find_rpt serial rpts = find_session rpt_nbr_of serial rpts

unfoldable pub write_rpt : SentRpt → List SentRpt → List SentRpt
write_rpt new rpts = write_session rpt_nbr_of (rpt_nbr_of new) new rpts

abbrev pub rpt_sent_again : SentRpt → SentRpt
rpt_sent_again rpt = record rpt {
  timer = record rpt.timer { expiration_count = rpt.timer.expiration_count + 1 };
}

unfoldable pub resend_rpt : ℕ → ImportEntry → Option SentRpt → Importer → Importer
resend_rpt max_timeouts session none st = st
resend_rpt max_timeouts session (some rpt) st =
    if rpt.timer.seg_arrival_time == 0
    then st
    else if rpt.timer.expiration_count == max_timeouts
    then cancel_session_by_receiver session ltp_retransmit_limit_exceeded st
    else record st {
      import_sessions =
          write_session nbr_of session.session_nbr
            (record session { rs_segments = write_rpt (rpt_sent_again rpt) session.rs_segments })
            st.import_sessions;
      segments = st.segments ++ rpt.segment ∷ [];
    }

unfoldable pub resend_rpt_in_session : ℕ → ℕ → Option ImportEntry → Importer → Importer
resend_rpt_in_session max_timeouts serial none st = st
resend_rpt_in_session max_timeouts serial (some session) st =
    resend_rpt max_timeouts session (find_rpt serial session.rs_segments) st

unfoldable pub ltp_resend_report : ℕ → ℕ → ℕ → Importer → Importer
ltp_resend_report max_timeouts nbr serial st =
    resend_rpt_in_session max_timeouts serial (get_import_session nbr st) st

abbrev recv_cancel_event : ℕ → ℕ → LtpEvent
recv_cancel_event engine_id nbr = record {
  ref_nbr1 = engine_id;
  ref_nbr2 = nbr;
  ref_nbr3 = 0;
  parm = 0;
  scheduled_time = 0;
  type = LtpEventType.resend_recv_cancel;
}

unfoldable pub start_timer_of : Link → ℕ → ℕ → ℕ → Option ImportEntry → Importer → Importer
start_timer_of link current_sec length nbr none st = st
start_timer_of link current_sec length nbr (some session) st =
    let (timer', timeline') =
      set_timer link current_sec length (recv_cancel_event st.engine_id nbr) session.timer
        st.timeline in
    record st {
      dead_imports = write_session nbr_of nbr (record session { timer = timer' }) st.dead_imports;
      timeline = timeline';
    }

-- `has_session`: a session had been started when the cancellation was queued.
unfoldable pub start_recv_cancel_timer : Link → ℕ → ℕ → Bool → ℕ → Importer → Importer
start_recv_cancel_timer link current_sec length has_session nbr st =
    if has_session
    then start_timer_of link current_sec length nbr (get_canceled_import nbr st) st
    else st
