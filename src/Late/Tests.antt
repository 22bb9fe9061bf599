-- ===== src/Late/Tests.antt =====
-- A session that is closed and then asked for twice.
use mini_ltp.Prelude.{◌+◌, ◌≡◌, refl, [], length, none}
use mini_ltp.Timeline.{Link, insert_ltp_timeline_event}
use mini_ltp.Late.{ClosedExports, note_closed_export, forget_export_event, ltp_forget_closed_export}
use mini_ltp.Late.Answers.{late_reports}
use mini_ltp.Late.Dangling.{ltp_forget_closed_export_dangles}

abbrev link : Link
link = record {
  local_xmit_rate = 100;
  remote_xmit_rate = 100;
  owlt_outbound = 4;
  owlt_inbound = 4;
  remote_qtime = 1;
  own_qtime = 2;
  max_timeouts = 2;
}

abbrev none_closed : ClosedExports
none_closed = record { own_engine_id = 1; closed_exports = []; segments = []; timeline = [] }

ltp_forget_closed_export_dangles_example :
    (length (late_reports 2 7 3 (note_closed_export link 1000 500 7 none_closed)).segments
      ≡ length none_closed.segments + 2)
    × ((late_reports 2 7 3 (note_closed_export link 1000 500 7 none_closed)).timeline
        ≡ insert_ltp_timeline_event (forget_export_event link 1000 500) none_closed.timeline)
    × (ltp_forget_closed_export 500
          (late_reports 2 7 3 (note_closed_export link 1000 500 7 none_closed))
        ≡ none)
ltp_forget_closed_export_dangles_example =
    ltp_forget_closed_export_dangles 7 500 link 1000 3 1 none_closed refl refl refl
