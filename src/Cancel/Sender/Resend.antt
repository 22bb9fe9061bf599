-- ===== src/Cancel/Sender/Resend.antt =====
-- The start of an export session, and a checkpoint that has not been answered in time:
-- startExportSession and ltpResendCheckpoint of ltp/library/libltpP.c.
use mini_ltp.Prelude.{
  ℕ, ◌+◌, ◌%◌, List, [], ◌∷◌, ◌++◌, ltb, ◌==◌, if◌then◌else◌, Option, none, some,
}
use mini_ltp.Sdnv.{u32}
use mini_ltp.Timer.{Timer, TimerState}
use mini_ltp.Cancel.{ltp_retransmit_limit_exceeded}
use mini_ltp.Cancel.Lists.{write_session}
use mini_ltp.Cancel.Sender.{
  SentCkpt, ExportEntry, Exporter, nbr_of, get_export_session, cancel_session_by_sender,
}

abbrev idle : Timer
idle = record {
  seg_arrival_time = 0;
  ack_deadline = 0;
  expiration_count = 0;
  state = TimerState.suspended;
  event = none;
}

abbrev pub new_session : ℕ → ExportEntry
new_session nbr = record {
  session_nbr = nbr;
  total_length = 0;
  svc_data_objects = [];
  checkpoints = [];
  reason_code = 0;
  timer = idle;
}

unfoldable pub start_export_session : Exporter → Exporter
start_export_session st =
    let nbr : ℕ = (st.session_count + 1) % u32 in
    record st { session_count = nbr; export_sessions = st.export_sessions ++ new_session nbr ∷ [] }

-- The list is in the order of the serial numbers.
unfoldable pub find_sent_ckpt : ℕ → List SentCkpt → Option SentCkpt
find_sent_ckpt serial [] = none
find_sent_ckpt serial (ckpt ∷ ckpts) =
    let further = find_sent_ckpt serial ckpts in
    if ltb ckpt.segment.serial_nbr serial
    then further
    else if ckpt.segment.serial_nbr == serial
    then some ckpt
    else none

unfoldable pub write_ckpt : SentCkpt → List SentCkpt → List SentCkpt
write_ckpt new [] = []
write_ckpt new (ckpt ∷ ckpts) =
    let further = ckpt ∷ write_ckpt new ckpts in
    if ckpt.segment.serial_nbr == new.segment.serial_nbr then new ∷ ckpts else further

abbrev pub sent_again : SentCkpt → SentCkpt
sent_again ckpt = record ckpt {
  timer = record ckpt.timer { expiration_count = ckpt.timer.expiration_count + 1 };
}

unfoldable pub resend_ckpt : ℕ → ExportEntry → Option SentCkpt → Exporter → Exporter
resend_ckpt max_timeouts session none st = st
resend_ckpt max_timeouts session (some ckpt) st =
    if ckpt.timer.seg_arrival_time == 0
    then st
    else if ckpt.timer.expiration_count == max_timeouts
    then cancel_session_by_sender session ltp_retransmit_limit_exceeded st
    else record st {
      export_sessions =
          write_session nbr_of session.session_nbr
            (record session { checkpoints = write_ckpt (sent_again ckpt) session.checkpoints })
            st.export_sessions;
      segments = st.segments ++ ckpt.segment ∷ [];
    }

unfoldable pub resend_in_session : ℕ → ℕ → Option ExportEntry → Exporter → Exporter
resend_in_session max_timeouts serial none st = st
resend_in_session max_timeouts serial (some session) st =
    resend_ckpt max_timeouts session (find_sent_ckpt serial session.checkpoints) st

unfoldable pub ltp_resend_checkpoint : ℕ → ℕ → ℕ → Exporter → Exporter
ltp_resend_checkpoint max_timeouts nbr serial st =
    resend_in_session max_timeouts serial (get_export_session nbr st) st
