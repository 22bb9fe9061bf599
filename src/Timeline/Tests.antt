-- ===== src/Timeline/Tests.antt =====
-- The timeline at concrete inputs, and its theorems there.
use mini_ltp.Prelude.{◌≡◌, refl, List, [], ◌∷◌, none, arith}
use mini_ltp.Timer.{Timer, TimerState}
use mini_ltp.Timeline.{LtpEvent, LtpEventType, Link, insert_ltp_timeline_event, cancel_event}
use mini_ltp.Timeline.Order.{IsSorted, InsertedInOrder, insert_ltp_timeline_event-InsertedInOrder}
use mini_ltp.Timeline.Cancellation.{Canceled, cancel_event-Canceled}

abbrev checkpoint_at_10 : LtpEvent
checkpoint_at_10 = record {
  ref_nbr1 = 0;
  ref_nbr2 = 7;
  ref_nbr3 = 3;
  parm = 0;
  scheduled_time = 10;
  type = LtpEventType.resend_checkpoint;
}

abbrev report_at_20 : LtpEvent
report_at_20 = record {
  ref_nbr1 = 2;
  ref_nbr2 = 8;
  ref_nbr3 = 5;
  parm = 0;
  scheduled_time = 20;
  type = LtpEventType.resend_report;
}

abbrev cancel_at_10 : LtpEvent
cancel_at_10 = record {
  ref_nbr1 = 0;
  ref_nbr2 = 9;
  ref_nbr3 = 0;
  parm = 0;
  scheduled_time = 10;
  type = LtpEventType.resend_xmit_cancel;
}

abbrev two_events : List LtpEvent
two_events = checkpoint_at_10 ∷ report_at_20 ∷ []

inserted_between :
    insert_ltp_timeline_event cancel_at_10 two_events
    ≡ checkpoint_at_10 ∷ cancel_at_10 ∷ report_at_20 ∷ []
unfolding insert_ltp_timeline_event mini_ltp.Timeline.insert_after_last
inserted_between = refl

two_events-IsSorted : IsSorted two_events
two_events-IsSorted = omega arith

insert_ltp_timeline_event-InsertedInOrder_example :
    InsertedInOrder cancel_at_10 two_events (insert_ltp_timeline_event cancel_at_10 two_events)
    × IsSorted (insert_ltp_timeline_event cancel_at_10 two_events)
insert_ltp_timeline_event-InsertedInOrder_example =
    insert_ltp_timeline_event-InsertedInOrder cancel_at_10 two_events two_events-IsSorted

first-Canceled : cancel_event LtpEventType.resend_checkpoint 0 7 3 two_events ≡ report_at_20 ∷ []
unfolding cancel_event
first-Canceled = refl

cancel_event-Canceled_example :
    Canceled LtpEventType.resend_report 2 8 5 two_events
      (cancel_event LtpEventType.resend_report 2 8 5 two_events)
    × IsSorted (cancel_event LtpEventType.resend_report 2 8 5 two_events)
cancel_event-Canceled_example =
    cancel_event-Canceled LtpEventType.resend_report 2 8 5 two_events two_events-IsSorted

abbrev link : Link
link = record {
  local_xmit_rate = 100;
  remote_xmit_rate = 100;
  owlt_outbound = 4;
  owlt_inbound = 5;
  remote_qtime = 3;
  own_qtime = 2;
  max_timeouts = 2;
}

abbrev unset : Timer
unset = record {
  seg_arrival_time = 0;
  ack_deadline = 0;
  expiration_count = 0;
  state = TimerState.suspended;
  event = none;
}
