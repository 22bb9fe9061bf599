-- ===== src/Cancel/Sender.antt =====
-- Cancellation at the sender of blocks: stopExportSession, closeExportSession, cancelSessionBySender,
-- getSessionContext, handleCAS, handleCR, ltpResendCheckpoint and ltpResendXmitCancel, and the
-- dequeuing of a cancel segment in ltpDequeueOutboundSegment.
-- All sessions belong to one span, whose engine is known. The session being aggregated, which
-- cancelSessionBySender finishes and replaces, is not canceled here. The data segments that the lists
-- of a session refer to are those with its number in the queue.
pub mod Resend
pub mod Changes
pub mod Partition
pub mod Canceled
pub mod Stranded
pub mod Retries
pub mod Unanswered
mod Tests
use mini_ltp.Prelude.{
  ℕ, ◌+◌, List, [], ◌∷◌, ◌++◌, map, Bool, true, false, ◌&&◌, not, ltb, ◌==◌, if◌then◌else◌, Option,
  none, some,
}
use mini_ltp.Segment.{no_ctrl_flag}
use mini_ltp.Timer.{Timer}
use mini_ltp.Timeline.{LtpEvent, LtpEventType, Link, cancel_event, set_timer}
use mini_ltp.Queue.{
  QueuedSeg, construct_source_cancel_req_segment, construct_dest_cancel_ack_segment,
}
use mini_ltp.Cancel.{Notice, NoticeType, ltp_retransmit_limit_exceeded}
use mini_ltp.Cancel.Lists.{find_session, delete_session, write_session}

-- A checkpoint of a session: its segment, and the timer of that.
pub record SentCkpt : Type 0 where
  pub segment : QueuedSeg
  pub timer : Timer

pub record ExportEntry : Type 0 where
  pub session_nbr : ℕ
  pub total_length : ℕ
  pub svc_data_objects : List ℕ
  pub checkpoints : List SentCkpt
  pub reason_code : ℕ
  pub timer : Timer

pub record Exporter : Type 0 where
  pub own_engine_id : ℕ
  pub session_count : ℕ
  pub export_sessions : List ExportEntry
  pub dead_exports : List ExportEntry
  pub segments : List QueuedSeg
  pub notices : List Notice
  pub timeline : List LtpEvent

abbrev pub nbr_of : ExportEntry → ℕ
nbr_of session = session.session_nbr

unfoldable pub get_export_session : ℕ → Exporter → Option ExportEntry
get_export_session nbr st = find_session nbr_of nbr st.export_sessions

unfoldable pub get_canceled_export : ℕ → Exporter → Option ExportEntry
get_canceled_export nbr st = find_session nbr_of nbr st.dead_exports

-- The timeout events of the checkpoints are canceled.
unfoldable pub cancel_checkpoints : ℕ → List SentCkpt → List LtpEvent → List LtpEvent
cancel_checkpoints nbr [] timeline = timeline
cancel_checkpoints nbr (ckpt ∷ ckpts) timeline =
    cancel_checkpoints nbr ckpts
      (cancel_event LtpEventType.resend_checkpoint 0 nbr ckpt.segment.serial_nbr timeline)

-- The data segments of the session leave the queue.
unfoldable pub without_data : ℕ → List QueuedSeg → List QueuedSeg
without_data nbr [] = []
without_data nbr (seg ∷ segments) =
    let further = without_data nbr segments in
    if no_ctrl_flag seg.seg_type_code && seg.session_nbr == nbr then further else seg ∷ further

unfoldable pub stop_export_session : ExportEntry → Exporter → Exporter
stop_export_session session st = record st {
  segments = without_data session.session_nbr st.segments;
  timeline = cancel_checkpoints session.session_nbr session.checkpoints st.timeline;
}

unfoldable pub enqueue_notices : ExportEntry → NoticeType → ℕ → Exporter → Exporter
enqueue_notices session type reason_code st = record st {
  notices =
      st.notices
      ++ map
          (λ sdu. record {
            session_nbr = session.session_nbr;
            type = type;
            reason_code = reason_code;
            sdu = sdu;
          })
          session.svc_data_objects;
}

-- The session without what stopExportSession and clearExportSession destroy.
unfoldable pub cleared : ℕ → ExportEntry → ExportEntry
cleared reason_code session = record session {
  svc_data_objects = [];
  checkpoints = [];
  reason_code = reason_code;
}

unfoldable pub cancel_session_by_sender : ExportEntry → ℕ → Exporter → Exporter
cancel_session_by_sender session reason_code st =
    let stopped : Exporter =
      enqueue_notices session NoticeType.export_session_canceled reason_code
        (stop_export_session session st) in
    record stopped {
      export_sessions = delete_session nbr_of session.session_nbr stopped.export_sessions;
      dead_exports = stopped.dead_exports ++ cleared reason_code session ∷ [];
      segments =
          construct_source_cancel_req_segment st.own_engine_id session.session_nbr reason_code
            stopped.segments;
    }

-- The service data units that are left are reported as complete.
unfoldable pub close_export_session : ExportEntry → Exporter → Exporter
close_export_session session st =
    let noticed : Exporter = enqueue_notices session NoticeType.export_session_complete 0 st in
    record noticed {
      export_sessions = delete_session nbr_of session.session_nbr noticed.export_sessions;
    }

-- `is_receiving`: the span's engine is known and supposed to transmit.
unfoldable pub get_session_context : Bool → ℕ → Exporter → Option ExportEntry
get_session_context is_receiving nbr st = elim (get_export_session nbr st) [
  | none ↦ none
  | some session ↦ if ltb 0 session.total_length && is_receiving then some session else none
]

abbrev stop_resending : ℕ → Exporter → Exporter
stop_resending nbr st = record st {
  timeline = cancel_event LtpEventType.resend_xmit_cancel 0 nbr 0 st.timeline;
}

unfoldable pub apply_cancel_ack : ℕ → Option ExportEntry → Exporter → Exporter
apply_cancel_ack nbr none st = st
apply_cancel_ack nbr (some session) st = record (stop_resending nbr st) {
  dead_exports = delete_session nbr_of nbr st.dead_exports;
}

unfoldable pub cas_in_context : ℕ → Option ExportEntry → Exporter → Exporter
cas_in_context nbr none st = stop_resending nbr st
cas_in_context nbr (some session) st = apply_cancel_ack nbr (get_canceled_export nbr st) st

unfoldable pub handle_cas : Bool → ℕ → Exporter → Exporter
handle_cas is_receiving nbr st = cas_in_context nbr (get_session_context is_receiving nbr st) st

unfoldable pub cr_in_context : ℕ → ℕ → Option ExportEntry → Exporter → Exporter
cr_in_context nbr reason_code none st = st
cr_in_context nbr reason_code (some session) st =
    let acked : Exporter = record st {
      segments = construct_dest_cancel_ack_segment st.own_engine_id nbr st.segments;
    } in
    close_export_session (record session { svc_data_objects = []; reason_code = reason_code })
      (enqueue_notices session NoticeType.export_session_canceled reason_code
        (stop_export_session session acked))

unfoldable pub handle_cr : Bool → ℕ → ℕ → Exporter → Exporter
handle_cr is_receiving nbr reason_code st =
    cr_in_context nbr reason_code (get_session_context is_receiving nbr st) st

abbrev pub expired_again : ExportEntry → ExportEntry
expired_again session = record session {
  timer = record session.timer { expiration_count = session.timer.expiration_count + 1 };
}

unfoldable pub resend_cancel : ℕ → ℕ → Option ExportEntry → Exporter → Exporter
resend_cancel max_timeouts nbr none st = st
resend_cancel max_timeouts nbr (some session) st =
    if session.timer.expiration_count == max_timeouts
    then record st { dead_exports = delete_session nbr_of nbr st.dead_exports }
    else record st {
      dead_exports = write_session nbr_of nbr (expired_again session) st.dead_exports;
      segments =
          construct_source_cancel_req_segment st.own_engine_id nbr session.reason_code st.segments;
    }

unfoldable pub ltp_resend_xmit_cancel : ℕ → ℕ → Exporter → Exporter
ltp_resend_xmit_cancel max_timeouts nbr st =
    resend_cancel max_timeouts nbr (get_canceled_export nbr st) st

-- A cancel segment that is dequeued starts the timer of the canceled session.
unfoldable pub start_cancel_timer : Link → ℕ → ℕ → ℕ → Option ExportEntry → Exporter → Exporter
start_cancel_timer link current_sec length nbr none st = st
start_cancel_timer link current_sec length nbr (some session) st =
    let event : LtpEvent = record {
      ref_nbr1 = 0;
      ref_nbr2 = nbr;
      ref_nbr3 = 0;
      parm = 0;
      scheduled_time = 0;
      type = LtpEventType.resend_xmit_cancel;
    } in
    let (timer', timeline') = set_timer link current_sec length event session.timer st.timeline in
    record st {
      dead_exports = write_session nbr_of nbr (record session { timer = timer' }) st.dead_exports;
      timeline = timeline';
    }
