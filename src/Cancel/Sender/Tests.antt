-- ===== src/Cancel/Sender/Tests.antt =====
-- A sender with one active session and one canceled one.
use mini_ltp.Prelude.{◌≡◌, refl, [], ◌∷◌, true, arith, some, none}
use mini_ltp.Timer.{Timer, TimerState}
use mini_ltp.Timeline.{LtpEventType, Link, cancel_event}
use mini_ltp.Queue.{QueuedSeg}
use mini_ltp.Cancel.Lists.{find_session}
use mini_ltp.Cancel.Sender.{
  SentCkpt, ExportEntry, Exporter, get_export_session, get_canceled_export,
  cancel_session_by_sender, handle_cas, handle_cr,
}
use mini_ltp.Cancel.Sender.Resend.{start_export_session, new_session, find_sent_ckpt}
use mini_ltp.Cancel.Sender.Partition.{IsPartitioned, Step, Reachable, exports-IsPartitioned}
use mini_ltp.Cancel.Sender.Canceled.{
  IsCanceled, IsRevoked, cancel_session_by_sender-IsCanceled, handle_cr-IsRevoked,
}
use mini_ltp.Cancel.Sender.Stranded.{handle_cas_strands}
use mini_ltp.Cancel.Sender.Retries.{run_out}
use mini_ltp.Cancel.Sender.Unanswered.{checkpoint_runs_out, run_out-ends}

abbrev quiet : Link
quiet = record {
  local_xmit_rate = 100;
  remote_xmit_rate = 100;
  owlt_outbound = 4;
  owlt_inbound = 4;
  remote_qtime = 1;
  own_qtime = 2;
  max_timeouts = 2;
}

abbrev idle : Exporter
idle = record {
  own_engine_id = 1;
  session_count = 0;
  export_sessions = [];
  dead_exports = [];
  segments = [];
  notices = [];
  timeline = [];
}

abbrev opened : Exporter
opened = start_export_session idle

started : get_export_session 1 opened ≡ some (new_session 1)
unfolding get_export_session start_export_session find_session
started = refl

opened-Reachable : Reachable quiet opened
opened-Reachable =
    Reachable.step idle opened (Reachable.empty idle refl refl) (Step.start (omega arith))

exports-IsPartitioned_example : IsPartitioned opened
exports-IsPartitioned_example = exports-IsPartitioned quiet opened opened-Reachable

abbrev waiting_timer : Timer
waiting_timer = record {
  seg_arrival_time = 50;
  ack_deadline = 60;
  expiration_count = 0;
  state = TimerState.running;
  event = some 60;
}

abbrev data_segment : QueuedSeg
data_segment = record {
  seg_type_code = 3;
  session_nbr = 7;
  serial_nbr = 9;
  reason_code = 0;
  header_length = 4;
  content_length = 50;
}

abbrev active : ExportEntry
active = record {
  session_nbr = 7;
  total_length = 44;
  svc_data_objects = 1000 ∷ 1001 ∷ [];
  checkpoints = record { segment = data_segment; timer = waiting_timer } ∷ [];
  reason_code = 0;
  timer = waiting_timer;
}

abbrev canceled : ExportEntry
canceled = record {
  session_nbr = 5;
  total_length = 30;
  svc_data_objects = [];
  checkpoints = [];
  reason_code = 2;
  timer = waiting_timer;
}

abbrev sender : Exporter
sender = record {
  own_engine_id = 1;
  session_count = 7;
  export_sessions = active ∷ [];
  dead_exports = canceled ∷ [];
  segments = data_segment ∷ [];
  notices = [];
  timeline = [];
}

sender-IsPartitioned : IsPartitioned sender
sender-IsPartitioned nbr = (ground arith, λ p. ground arith)

active_found : get_export_session 7 sender ≡ some active
unfolding get_export_session find_session
active_found = refl

canceled_found : get_canceled_export 5 sender ≡ some canceled
unfolding get_canceled_export find_session
canceled_found = refl

cancel_session_by_sender-IsCanceled_example :
    IsCanceled sender active 2 (cancel_session_by_sender active 2 sender)
cancel_session_by_sender-IsCanceled_example =
    cancel_session_by_sender-IsCanceled sender active sender-IsPartitioned 2 active_found

handle_cr-IsRevoked_example : IsRevoked sender active 1 (handle_cr true 7 1 sender)
handle_cr-IsRevoked_example =
    handle_cr-IsRevoked sender active sender-IsPartitioned 1 active_found (omega arith)

handle_cas_strands_example :
    (get_canceled_export 5 (handle_cas true 5 sender) ≡ some canceled)
    × ((handle_cas true 5 sender).dead_exports ≡ sender.dead_exports)
    × ((handle_cas true 5 sender).timeline
        ≡ cancel_event LtpEventType.resend_xmit_cancel 0 5 0 sender.timeline)
handle_cas_strands_example =
    handle_cas_strands sender sender-IsPartitioned 5 canceled true canceled_found

abbrev unanswered : SentCkpt
unanswered = record { segment = data_segment; timer = waiting_timer }

unanswered_found : find_sent_ckpt 9 active.checkpoints ≡ some unanswered
unfolding find_sent_ckpt
unanswered_found = refl

run_out-ends_example :
    IsCanceled sender active 2 (checkpoint_runs_out 3 2 7 9 sender)
    × (get_export_session 7 (run_out 3 2 7 (checkpoint_runs_out 3 2 7 9 sender)) ≡ none)
    × (get_canceled_export 7 (run_out 3 2 7 (checkpoint_runs_out 3 2 7 9 sender)) ≡ none)
run_out-ends_example =
    run_out-ends quiet 9 2 sender active unanswered sender-IsPartitioned active_found
      unanswered_found (omega arith) (omega arith) refl
