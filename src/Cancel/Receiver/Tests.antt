-- ===== src/Cancel/Receiver/Tests.antt =====
-- A receiver with one active session and one canceled one.
use mini_ltp.Prelude.{◌≡◌, refl, [], ◌∷◌, ◌++◌, true, false, arith, some}
use mini_ltp.Segment.{ltp_rs, ltp_cas}
use mini_ltp.Timer.{Timer, TimerState}
use mini_ltp.Timeline.{Link}
use mini_ltp.Queue.Contents.{queued, is_for}
use mini_ltp.Cancel.{NoticeType, ltp_retransmit_limit_exceeded}
use mini_ltp.Cancel.Lists.{find_session}
use mini_ltp.Cancel.Receiver.{
  SentRpt, ImportEntry, Importer, get_import_session, get_canceled_import, handle_cs, admit,
}
use mini_ltp.Cancel.Receiver.Partition.{IsPartitioned, Step, Reachable, imports-IsPartitioned}
use mini_ltp.Cancel.Receiver.Resend.{find_rpt}
use mini_ltp.Cancel.Receiver.Unanswered.{
  copies, IsAborted, report_runs_out, report_runs_out-IsAborted,
}
use mini_ltp.Cancel.Receiver.Closed.{IsClosed, handle_cs-IsClosed}

abbrev quiet : Link
quiet = record {
  local_xmit_rate = 100;
  remote_xmit_rate = 100;
  owlt_outbound = 4;
  owlt_inbound = 4;
  remote_qtime = 1;
  own_qtime = 2;
  max_timeouts = 2;
}

abbrev idle : Importer
idle = record {
  engine_id = 2;
  max_import_sessions = 4;
  import_sessions = [];
  dead_imports = [];
  closed_imports = [];
  segments = [];
  notices = [];
  timeline = [];
}

admitted-Reachable : Reachable quiet (admit 6 idle)
admitted-Reachable =
    Reachable.step 1000 idle (admit 6 idle) (Reachable.empty idle refl refl refl)
      (Step.red_segment 6 (omega arith))

imports-IsPartitioned_example : IsPartitioned (admit 6 idle)
imports-IsPartitioned_example = imports-IsPartitioned quiet (admit 6 idle) admitted-Reachable

abbrev waiting_timer : Timer
waiting_timer = record {
  seg_arrival_time = 50;
  ack_deadline = 60;
  expiration_count = 0;
  state = TimerState.running;
  event = some 60;
}

-- Report 3, which has been sent once more.
abbrev unanswered : SentRpt
unanswered = record {
  segment = record {
    seg_type_code = ltp_rs;
    session_nbr = 7;
    serial_nbr = 3;
    reason_code = 0;
    header_length = 4;
    content_length = 8;
  };
  timer = record waiting_timer { expiration_count = 1 };
}

abbrev active : ImportEntry
active = record {
  session_nbr = 7;
  rs_segments = unanswered ∷ [];
  reason_code = 0;
  timer = waiting_timer;
}

abbrev canceled : ImportEntry
canceled = record { session_nbr = 5; rs_segments = []; reason_code = 2; timer = waiting_timer }

abbrev receiver : Importer
receiver = record idle { import_sessions = active ∷ []; dead_imports = canceled ∷ [] }

receiver-IsPartitioned : IsPartitioned receiver
receiver-IsPartitioned = ((tt, λ nbr p. ground arith), λ nbr. ground arith)

active_found : get_import_session 7 receiver ≡ some active
unfolding get_import_session find_session
active_found = refl

canceled_found : get_canceled_import 5 receiver ≡ some canceled
unfolding get_canceled_import find_session
canceled_found = refl

handle_cs-IsClosed_example :
    IsClosed 7 (handle_cs quiet 1000 true 7 1 receiver)
    × ((handle_cs quiet 1000 true 7 1 receiver).notices
        ≡ receiver.notices
          ++ record {
            session_nbr = 7;
            type = NoticeType.import_session_canceled;
            reason_code = 1;
            sdu = 0;
          }
            ∷ [])
    × (queued (is_for ltp_cas 7) (handle_cs quiet 1000 true 7 1 receiver).segments ≡ true)
    × (queued (is_for ltp_rs 7) (handle_cs quiet 1000 true 7 1 receiver).segments ≡ false)
handle_cs-IsClosed_example =
    handle_cs-IsClosed quiet 1000 receiver receiver-IsPartitioned active 1 active_found

unanswered_found : find_rpt 3 active.rs_segments ≡ some unanswered
unfolding find_rpt find_session
unanswered_found = refl

report_runs_out-IsAborted_example :
    ((report_runs_out 1 2 7 3 receiver).segments ≡ receiver.segments ++ copies 1 unanswered.segment)
    × IsAborted ltp_retransmit_limit_exceeded active receiver (report_runs_out 2 2 7 3 receiver)
report_runs_out-IsAborted_example =
    report_runs_out-IsAborted quiet 3 1 1 receiver active unanswered receiver-IsPartitioned
      active_found unanswered_found (omega arith) (omega arith) (omega arith)
