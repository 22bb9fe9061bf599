-- ===== src/Cancel/Receiver.antt =====
-- Cancellation at the receiver of blocks: the start of an import session in acceptRedContent,
-- stopImportSession, noteClosedImport, closeImportSession, cancelSessionByReceiver, handleCS,
-- handleCAR, ltpResendReport, ltpResendRecvCancel, the dequeuing of a cancel segment in
-- ltpDequeueOutboundSegment, and the event of ltp/daemon/ltpclock.c that forgets a closed
-- session. All but the last are in ltp/library/libltpP.c.
-- All sessions come from the engine of one span. The reports that a session refers to are those with
-- its number in the queue. A note of a closed session is its number in the list, which is written
-- from its end as in Closing.
pub mod Resend
pub mod Changes
pub mod Partition
pub mod Closed
pub mod Unanswered
mod Tests
use mini_ltp.Prelude.{
  ℕ, ◌+◌, ◌*◌, List, [], ◌∷◌, ◌++◌, Bool, true, false, ◌&&◌, ltb, ◌==◌, if◌then◌else◌, Option, none,
  some, length,
}
use mini_ltp.Segment.{ltp_rs}
use mini_ltp.Timer.{Timer, TimerState}
use mini_ltp.Timeline.{LtpEvent, LtpEventType, Link, cancel_event, insert_ltp_timeline_event}
use mini_ltp.Queue.{
  QueuedSeg, construct_dest_cancel_req_segment, construct_source_cancel_ack_segment,
}
use mini_ltp.Closing.{note_closed_import, session_is_closed}
use mini_ltp.Cancel.{Notice, NoticeType, ltp_retransmit_limit_exceeded}
use mini_ltp.Cancel.Lists.{find_session, delete_session, write_session}

-- A report of a session: its segment, and the timer of that.
pub record SentRpt : Type 0 where
  pub segment : QueuedSeg
  pub timer : Timer

pub record ImportEntry : Type 0 where
  pub session_nbr : ℕ
  pub rs_segments : List SentRpt
  pub reason_code : ℕ
  pub timer : Timer

pub record Importer : Type 0 where
  pub engine_id : ℕ
  pub max_import_sessions : ℕ
  pub import_sessions : List ImportEntry
  pub dead_imports : List ImportEntry
  pub closed_imports : List ℕ
  pub segments : List QueuedSeg
  pub notices : List Notice
  pub timeline : List LtpEvent

abbrev pub nbr_of : ImportEntry → ℕ
nbr_of session = session.session_nbr

unfoldable pub get_import_session : ℕ → Importer → Option ImportEntry
get_import_session nbr st = find_session nbr_of nbr st.import_sessions

unfoldable pub get_canceled_import : ℕ → Importer → Option ImportEntry
get_canceled_import nbr st = find_session nbr_of nbr st.dead_imports

abbrev idle : Timer
idle = record {
  seg_arrival_time = 0;
  ack_deadline = 0;
  expiration_count = 0;
  state = TimerState.suspended;
  event = none;
}

abbrev pub new_session : ℕ → ImportEntry
new_session nbr = record { session_nbr = nbr; rs_segments = []; reason_code = 0; timer = idle }

-- A red segment starts a session unless there is one with its number, active, canceled or closed, or
-- there are too many.
unfoldable pub admit : ℕ → Importer → Importer
admit nbr st =
    if session_is_closed nbr st.closed_imports then st else elim (get_import_session nbr st) [
      | some session ↦ st
      | none ↦ elim (get_canceled_import nbr st) [
        | some session ↦ st
        | none ↦
            if ltb (length st.import_sessions) st.max_import_sessions
            then record st { import_sessions = st.import_sessions ++ new_session nbr ∷ [] }
            else st
      ]
    ]

unfoldable pub cancel_reports : ℕ → ℕ → List SentRpt → List LtpEvent → List LtpEvent
cancel_reports engine_id nbr [] timeline = timeline
cancel_reports engine_id nbr (rpt ∷ rpts) timeline =
    cancel_reports engine_id nbr rpts
      (cancel_event LtpEventType.resend_report engine_id nbr rpt.segment.serial_nbr timeline)

unfoldable pub without_reports : ℕ → List QueuedSeg → List QueuedSeg
without_reports nbr [] = []
without_reports nbr (seg ∷ segments) =
    let further = without_reports nbr segments in
    if seg.seg_type_code == ltp_rs && seg.session_nbr == nbr then further else seg ∷ further

unfoldable pub stop_import_session : ImportEntry → Importer → Importer
stop_import_session session st = record st {
  segments = without_reports session.session_nbr st.segments;
  timeline = cancel_reports st.engine_id session.session_nbr session.rs_segments st.timeline;
}

-- Twice the round trips of all retries later the note is removed.
unfoldable pub forget_event : Link → ℕ → ℕ → LtpEvent
forget_event link current_time nbr = record {
  ref_nbr1 = 0;
  ref_nbr2 = 0;
  ref_nbr3 = 0;
  parm = nbr;
  scheduled_time =
      current_time + 10 + 2 * link.max_timeouts * (link.owlt_outbound + link.owlt_inbound);
  type = LtpEventType.forget_import_session;
}

unfoldable pub note_closed : Link → ℕ → ℕ → Importer → Importer
note_closed link current_time nbr st = record st {
  closed_imports = note_closed_import nbr st.closed_imports;
  timeline = insert_ltp_timeline_event (forget_event link current_time nbr) st.timeline;
}

unfoldable pub close_import_session : Link → ℕ → ImportEntry → Importer → Importer
close_import_session link current_time session st =
    let noted : Importer = note_closed link current_time session.session_nbr st in
    record noted {
      import_sessions = delete_session nbr_of session.session_nbr noted.import_sessions;
    }

unfoldable pub import_canceled : ℕ → ℕ → Importer → Importer
import_canceled nbr reason_code st = record st {
  notices =
      st.notices
      ++ record {
        session_nbr = nbr;
        type = NoticeType.import_session_canceled;
        reason_code = reason_code;
        sdu = 0;
      }
        ∷ [];
}

abbrev pub stopped_for : ℕ → ImportEntry → ImportEntry
stopped_for reason_code session = record session { rs_segments = []; reason_code = reason_code }

unfoldable pub cancel_session_by_receiver : ImportEntry → ℕ → Importer → Importer
cancel_session_by_receiver session reason_code st =
    let stopped : Importer =
      stop_import_session session (import_canceled session.session_nbr reason_code st) in
    record stopped {
      import_sessions = delete_session nbr_of session.session_nbr stopped.import_sessions;
      dead_imports = stopped.dead_imports ++ stopped_for reason_code session ∷ [];
      segments =
          construct_dest_cancel_req_segment st.engine_id session.session_nbr reason_code
            stopped.segments;
    }

unfoldable pub apply_cs : Link → ℕ → ℕ → Option ImportEntry → Importer → Importer
apply_cs link current_time reason_code none st = st
apply_cs link current_time reason_code (some session) st =
    close_import_session link current_time session
      (stop_import_session session (import_canceled session.session_nbr reason_code st))

-- `is_receiving`: the engine is known and supposed to transmit.
unfoldable pub handle_cs : Link → ℕ → Bool → ℕ → ℕ → Importer → Importer
handle_cs link current_time is_receiving nbr reason_code st =
    if is_receiving
    then apply_cs link current_time reason_code (get_import_session nbr st)
        (record st { segments = construct_source_cancel_ack_segment st.engine_id nbr st.segments })
    else st

-- What a canceled session comes to at last.
unfoldable pub bury : Link → ℕ → ℕ → Importer → Importer
bury link current_time nbr st =
    let noted : Importer = note_closed link current_time nbr st in
    record noted { dead_imports = delete_session nbr_of nbr noted.dead_imports }

unfoldable pub apply_car : Link → ℕ → ℕ → Option ImportEntry → Importer → Importer
apply_car link current_time nbr none st = st
apply_car link current_time nbr (some session) st = bury link current_time nbr (record st {
  timeline = cancel_event LtpEventType.resend_recv_cancel st.engine_id nbr 0 st.timeline;
})

unfoldable pub handle_car : Link → ℕ → Bool → ℕ → Importer → Importer
handle_car link current_time is_receiving nbr st =
    if is_receiving then apply_car link current_time nbr (get_canceled_import nbr st) st else st

abbrev pub expired_again : ImportEntry → ImportEntry
expired_again session = record session {
  timer = record session.timer { expiration_count = session.timer.expiration_count + 1 };
}

unfoldable pub resend_cancel : Link → ℕ → ℕ → Option ImportEntry → Importer → Importer
resend_cancel link current_time nbr none st = st
resend_cancel link current_time nbr (some session) st =
    if session.timer.expiration_count == link.max_timeouts
    then bury link current_time nbr st
    else record st {
      dead_imports = write_session nbr_of nbr (expired_again session) st.dead_imports;
      segments = construct_dest_cancel_req_segment st.engine_id nbr session.reason_code st.segments;
    }

unfoldable pub ltp_resend_recv_cancel : Link → ℕ → ℕ → Importer → Importer
ltp_resend_recv_cancel link current_time nbr st =
    resend_cancel link current_time nbr (get_canceled_import nbr st) st

unfoldable pub delete_note : ℕ → List ℕ → List ℕ
delete_note nbr [] = []
delete_note nbr (closed ∷ nbrs) =
    let further = closed ∷ delete_note nbr nbrs in if closed == nbr then nbrs else further

unfoldable pub forget_import_session : ℕ → Importer → Importer
forget_import_session nbr st = record st { closed_imports = delete_note nbr st.closed_imports }
